-- ===== src/Tms/Store/Intact.antt =====
-- tms_tms.c, Tms_WriteFile: what is marked complete is on the disk, and has its MD5.
use service_payment_bridge.Prelude.{
  ℕ, zero, suc, ◌≡◌, ◌≢◌, ◌<◌, refl, sym, ◌∙◌, true, false, some, List, ◌∷◌, [], Bytes, str_eq,
  length, take, set, get_elem?, get_elem?-set_self, get_elem?-set_ne, ◌⊎◌, ◌==◌, arith, Bool-cases,
  inl, inr,
}
use service_payment_bridge.Tms.Trade.{
  File, State, Terminal, Call, Status, uncomplete, complete, updated, is_complete, place, content,
}

-- A file that is complete: there are as many bytes as its size says, and these have its MD5.
abbrev pub Whole : Terminal → List Call → File → Type 0
Whole e l f =
    (length (take f.size (content (place f) l)) ≡ f.size)
    × (str_eq f.md5 (take 16 (e.digest (take f.size (content (place f) l)))) ≡ true)
    × (f.start ≡ f.size)

-- What the status of a file promises.
abbrev pub Kept : Terminal → List Call → File → Status → Type 0
Kept e l f uncomplete = Unit
Kept e l f complete = Whole e l f
Kept e l f updated = Unit

pub Kept-open :
    (e : Terminal) (l : List Call) (f : File) (st : Status) → is_complete st ≡ false → Kept e l f st
Kept-open e l f uncomplete h = tt
Kept-open e l f complete h = cc
Kept-open e l f updated h = tt

-- The context has taken in the part of the file that is on the disk.
abbrev pub Tracks : Bytes → List Call → File → Type 0
Tracks h l f = (length h ≡ f.start) × (take f.start (content (place f) l) ≡ h)

-- Files, curfindex, context and calls: no two files have one place, what is complete is whole, what
-- comes later has not begun, and the current file has not begun or is tracked.
pub record Sound (e : Terminal) (fs : List File) (c : ℕ) (h : Bytes) (l : List Call) : Type 0 where
  pub apart :
      (i j : ℕ) (f g : File)
      → i ≢ j
      → get_elem? fs i ≡ some f
      → get_elem? fs j ≡ some g
      → str_eq (place f) (place g) ≡ false
  pub whole : (i : ℕ) (f : File) → get_elem? fs i ≡ some f → Kept e l f f.status
  pub fresh : (i : ℕ) (f : File) → c < i → get_elem? fs i ≡ some f → f.start ≡ 0
  pub tracks : (f : File) → get_elem? fs c ≡ some f → (f.start ≡ 0) ⊎ Tracks h l f

abbrev pub IsSound : Terminal → State → Type 0
IsSound e s = Sound e s.trade.files s.trade.current s.trade.hashed s.log

pub str_eq_refl : (s : Bytes) → str_eq s s ≡ true
unfolding str_eq
str_eq_refl [] = refl
str_eq_refl (c ∷ s) = ground (arith, str_eq_refl s)

-- The other files keep their bytes.
abbrev pub Same : Bytes → List Call → List Call → Type 0
Same p l l' = (q : Bytes) → str_eq p q ≡ false → content q l' ≡ content q l

Whole-same :
    (e : Terminal) (l l' : List Call) (f : File)
    → content (place f) l' ≡ content (place f) l
    → Whole e l f
    → Whole e l' f
Whole-same e l l' f h w = rw h w

pub Kept-same :
    (e : Terminal) (l l' : List Call) (f : File) (st : Status)
    → content (place f) l' ≡ content (place f) l
    → Kept e l f st
    → Kept e l' f st
Kept-same e l l' f uncomplete h k = tt
Kept-same e l l' f complete h k = Whole-same e l l' f h k
Kept-same e l l' f updated h k = tt

pub get_elem?_lt {ℓ} :
    {A : Type ℓ} (xs : List A) (i : ℕ) (a : A) → get_elem? xs i ≡ some a → i < length xs
get_elem?_lt [] i a h = cc
get_elem?_lt (x ∷ xs) zero a h = omega arith
get_elem?_lt (x ∷ xs) (suc i) a h = omega (arith, get_elem?_lt xs i a h)

-- The file at an index, after the current one is replaced.
set_cases :
    (fs : List File) (c i : ℕ) (g a : File)
    → c < length fs
    → get_elem? (set fs c g) i ≡ some a
    → ((i ≡ c) × (a ≡ g)) ⊎ ((c ≢ i) × (get_elem? fs i ≡ some a))
set_cases fs c i g a h e = elim (Bool-cases (c == i)) [
  | inl same ↦
      let eq : i ≡ c = ground (arith, same) in
      let here : get_elem? (set fs c g) c ≡ some a = rw eq at e in
      inl (eq, cc (get_elem?-set_self fs c g h))
  | inr other ↦
      let ne : c ≢ i = λ q. ground (arith, other, q) in
      inr (ne, sym (get_elem?-set_ne fs {i = c} {j = i} g ne) ∙ e)
]

-- A place in the new list was one in the old list.
place-set :
    (fs : List File) (c i : ℕ) (f g a : File)
    → get_elem? fs c ≡ some f
    → place g ≡ place f
    → get_elem? (set fs c g) i ≡ some a
    → (b : File) × (get_elem? fs i ≡ some b) × (place a ≡ place b)
place-set fs c i f g a at_c p x = elim (set_cases fs c i g a (get_elem?_lt fs c f at_c) x) [
  | inl (q, w) ↦ (f, rw q at_c, rw w p)
  | inr (q, y) ↦ (a, y, refl)
]

-- curfindex stays at the file `g`, which has not begun or is tracked, or moves on.
abbrev pub Goes : ℕ → ℕ → Bytes → List Call → File → Type 0
Goes c c' h l g = (c' ≡ suc c) ⊎ ((c' ≡ c) × ((g.start ≡ 0) ⊎ Tracks h l g))

Tracks-set :
    (e : Terminal) (fs : List File) (c c' : ℕ) (h h' : Bytes) (l l' : List Call) (g a : File)
    → Sound e fs c h l
    → c < length fs
    → Goes c c' h' l' g
    → get_elem? (set fs c g) c' ≡ some a
    → (a.start ≡ 0) ⊎ Tracks h' l' a
Tracks-set e fs c c' h h' l l' g a v inside (inl n) x = elim (set_cases fs c c' g a inside x) [
  | inl (q, w) ↦ absurd (omega arith)
  | inr (q, y) ↦ inl (v.fresh c' a (omega arith) y)
]
Tracks-set e fs c c' h h' l l' g a v inside (inr (n, t)) x = elim (set_cases fs c c' g a inside x) [
  | inl (q, w) ↦ rw w t
  | inr (q, y) ↦ absurd (q (sym n))
]

-- The current file is replaced by `g`, which stands at the same place.
pub Sound-set :
    (e : Terminal) (fs : List File) (c c' : ℕ) (h h' : Bytes) (l l' : List Call) (f g : File)
    → Sound e fs c h l
    → get_elem? fs c ≡ some f
    → place g ≡ place f
    → Same (place f) l l'
    → Kept e l' g g.status
    → Goes c c' h' l' g
    → Sound e (set fs c g) c' h' l'
Sound-set e fs c c' h h' l l' f g v at_c p same k t =
    let inside = get_elem?_lt fs c f at_c in
    record {
      apart = λ i j a b ne x y.
          let (a', x', pa) = place-set fs c i f g a at_c p x in
          let (b', y', pb) = place-set fs c j f g b at_c p y in
          rw (pa, pb) (v.apart i j a' b' ne x' y');
      whole = λ i a x. elim (set_cases fs c i g a inside x) [
        | inl (q, w) ↦ rw w k
        | inr (q, y) ↦
            Kept-same e l l' a a.status (same (place a) (v.apart c i f a q at_c y)) (v.whole i a y)
      ];
      fresh = λ i a lt x. elim (set_cases fs c i g a inside x) [
        | inl (q, w) ↦ absurd (ground (arith, t))
        | inr (q, y) ↦ v.fresh i a (ground (arith, t)) y
      ];
      tracks = λ a x. Tracks-set e fs c c' h h' l l' g a v inside t x;
    }
