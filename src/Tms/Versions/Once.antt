-- ===== src/Tms/Versions/Once.antt =====
-- tms_tms.c, Tms_CheckNeedDownFile: a file that is installed is not asked for again.
use service_payment_bridge.Prelude.{
  ◌≡◌, refl, true, false, ◌∷◌, [], Bytes, str_eq, arith, Bool-cases, inl, inr,
}
use service_payment_bridge.Tms.Trade.{File, type_app}
use service_payment_bridge.Tms.Versions.{greater, Terminal, check_need_down_file}

pub greater_irrefl : (s : Bytes) → greater s s ≡ false
unfolding greater
greater_irrefl [] = refl
greater_irrefl (c ∷ s) = ground (arith, greater_irrefl s)

pub greater_asymm : (s t : Bytes) → greater s t ≡ true → greater t s ≡ false
unfolding greater
greater_asymm [] t h = cc
greater_asymm (c ∷ s) [] h = refl
greater_asymm (c ∷ s) (d ∷ t) h = ground (arith, greater_asymm s t)

-- An application that is needed is, once it runs, not needed again, and neither is the one that it
-- replaced.
pub check_need_down_file_once :
    (t : Terminal) (f : File)
    → str_eq f.kind type_app ≡ true
    → check_need_down_file t f ≡ 0
    → (check_need_down_file (record t { app = f.version }) f ≡ 1)
      × (check_need_down_file (record t { app = f.version }) (record f { version = t.app }) ≡ 1)
unfolding check_need_down_file
check_need_down_file_once t f k h =
    let newer : greater f.version t.app ≡ true = elim (Bool-cases (greater f.version t.app)) [
      | inl e ↦ e
      | inr e ↦ absurd (ground (arith, k, e, h))
    ] in
    (rw (k, greater_irrefl f.version) refl, rw (k, greater_asymm f.version t.app newer) refl)
