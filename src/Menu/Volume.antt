-- ===== src/Menu/Volume.antt =====
-- display.c, SelectVolumMenu: the volume, which is saved with the settings.
use service_payment_bridge.Prelude.{
  zero, suc, ◌≤◌, ◌≡◌, refl, Bool, true, false, List, [], ◌∷◌, Bytes, ℤ, pos, negsuc, succ, at_most,
  codes, ◌==◌, if◌then◌else◌, arith, inl, inr, Bool-cases,
}
use service_payment_bridge.Menu.{
  Key, Choice, pressed, overrun, waiting, escape, timeout, up, down, other, digit,
}
use service_payment_bridge.Menu.Loop.{After, leaves, again, stops, menu_of, menu_of-keeps}
use service_payment_bridge.Menu.Pages.{Allowed}

pub data Tip : Type 0 where
  is_maximum is_minimum is_up is_down : Tip

-- G_sys_param.sound_level, what saveParam has written of it and what was announced, the last first.
pub record Volume : Type 0 where
  pub level : ℤ
  pub saved : List ℤ
  pub tips : List Tip

-- k - 1
abbrev pub pred : ℤ → ℤ
pred (pos zero) = negsuc 0
pred (pos (suc n)) = pos n
pred (negsuc n) = negsuc (suc n)

abbrev pub volume_items : List Bytes
volume_items = codes "1.Volum up" ∷ codes "2.Volum down" ∷ []

abbrev pub announce : Volume → Tip → Volume
announce v t = record v { tips = t ∷ v.tips }

abbrev pub save_level : Volume → ℤ → Volume
save_level v l = record v { level = l; saved = l ∷ v.saved }

unfoldable pub louder : Volume → Volume
louder v =
    if at_most 4 v.level
    then save_level (announce v is_up) (succ v.level)
    else announce v is_maximum

unfoldable pub quieter : Volume → Volume
quieter v =
    if at_most 1 v.level
    then announce v is_minimum
    else save_level (announce v is_down) (pred v.level)

unfoldable pub choose_volume : Volume → Choice → Volume × After
unfolding louder quieter
choose_volume v overrun = (v, stops)
choose_volume v waiting = (v, stops)
choose_volume v (pressed escape) = (v, leaves)
choose_volume v (pressed timeout) = (v, again)
choose_volume v (pressed up) = (v, again)
choose_volume v (pressed down) = (v, again)
choose_volume v (pressed other) = (v, again)
choose_volume v (pressed (digit n)) =
    if n == 1 then (louder v, again) else (if n == 2 then (quieter v, again) else (v, again))

-- SelectVolumMenu: the range goes up to DIGITAL4.
unfoldable pub select_volum_menu : Bool → Volume → List (List Key) → Volume × After
unfolding choose_volume menu_of
select_volum_menu small v calls = menu_of choose_volume small volume_items 1 4 v calls

-- The level is between 1 and 5, and it is what was saved last, if anything was saved.
abbrev pub LastSaved : ℤ → List ℤ → Type 0
LastSaved l [] = Unit
LastSaved l (s ∷ more) = s ≡ l

abbrev pub IsLevel : ℤ → Type 0
IsLevel (pos n) = (1 ≤ n) × (n ≤ 5)
IsLevel (negsuc n) = ⊥

abbrev pub IsKept : Volume → Type 0
IsKept v = IsLevel v.level × LastSaved v.level v.saved

louder-IsKept : (v : Volume) → IsKept v → IsKept (louder v)
unfolding louder
louder-IsKept v h = elim (Bool-cases (at_most 4 v.level)) [
  | inl q ↦ rw q (louder_level v.level h.0 q, refl)
  | inr q ↦ rw q h
]
  where
    louder_level : (l : ℤ) → IsLevel l → at_most 4 l ≡ true → IsLevel (succ l)
    louder_level (pos n) g e = ground (arith, g, e)
    louder_level (negsuc n) g e = absurd g

quieter-IsKept : (v : Volume) → IsKept v → IsKept (quieter v)
unfolding quieter
quieter-IsKept v h = elim (Bool-cases (at_most 1 v.level)) [
  | inl q ↦ rw q h
  | inr q ↦ rw q (quieter_level v.level h.0 q, refl)
]
  where
    quieter_level : (l : ℤ) → IsLevel l → at_most 1 l ≡ false → IsLevel (pred l)
    quieter_level (pos zero) g e = absurd (omega (arith, g.0))
    quieter_level (pos (suc n)) g e = ground (arith, g, e)
    quieter_level (negsuc n) g e = absurd g

choose_volume-IsKept :
    (v : Volume) (c : Choice) → Allowed 1 4 c → IsKept v → IsKept (choose_volume v c).0
unfolding choose_volume
choose_volume-IsKept v overrun a h = h
choose_volume-IsKept v waiting a h = h
choose_volume-IsKept v (pressed escape) a h = h
choose_volume-IsKept v (pressed timeout) a h = h
choose_volume-IsKept v (pressed up) a h = h
choose_volume-IsKept v (pressed down) a h = h
choose_volume-IsKept v (pressed other) a h = h
choose_volume-IsKept v (pressed (digit n)) a h = elim (Bool-cases (n == 1)) [
  | inl e ↦ rw e (louder-IsKept v h)
  | inr e ↦ elim (Bool-cases (n == 2)) [
    | inl f ↦ rw (e, f) (quieter-IsKept v h)
    | inr f ↦ rw (e, f) h
  ]
]

-- Whatever keys are pressed in the volume menu, a level between 1 and 5 stays there, and the level is the
-- one that was saved last, where one was saved.
pub select_volum_menu-IsKept :
    (small : Bool) (v : Volume) (calls : List (List Key))
    → IsKept v
    → IsKept (select_volum_menu small v calls).0
unfolding select_volum_menu
select_volum_menu-IsKept small v calls h =
    menu_of-keeps IsKept choose_volume small volume_items 1 4 (omega arith) (omega arith)
      (omega arith) (λ u c a g. choose_volume-IsKept u c a g) v calls h
