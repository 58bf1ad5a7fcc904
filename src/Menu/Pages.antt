-- ===== src/Menu/Pages.antt =====
-- display.c, ShowMenuItem: what the pages show, whatever keys are pressed.
use service_payment_bridge.Prelude.{
  ℕ, zero, suc, ◌+◌, ◌%◌, ◌-◌, ◌*◌, ◌≤◌, ◌<◌, ◌≡◌, refl, ap, Bool, true, false, none, some, List,
  [], ◌∷◌, Bytes, length, ◌&&◌, take, drop, ltb, leb, if◌then◌else◌, arith, inl, inr, Bool-cases,
}
use service_payment_bridge.Menu.{
  Key, escape, timeout, up, down, other, digit, Choice, pressed, overrun, waiting, Act, page, beep,
  one_screen_lines, texts, item, shown, show_lines, Turn, returns, moves, refuses, stays, turn,
  follow, menu_loop, show_menu_item,
}

-- Every text fits dispbuf[50].
abbrev pub Short : List Bytes → Type 0
Short [] = Unit
Short (s ∷ l) = (length s < 50) × Short l

-- The page `c` of the texts.
abbrev pub page_of : List Bytes → ℕ → ℕ → List Bytes
page_of items n c = take n (drop (c * n) items)

-- Each page that is shown is one of the pages of the menu, and has a text on it.
abbrev pub Inside : List Bytes → ℕ → List Act → Type 0
Inside items n [] = Unit
Inside items n (page l ∷ more) =
    ((c : ℕ) × (c * n < length items) × (l ≡ page_of items n c)) × Inside items n more
Inside items n (beep ∷ more) = Inside items n more

-- The keys that a menu may return.
abbrev pub Allowed : ℕ → ℕ → Choice → Type 0
Allowed first last (pressed escape) = Unit
Allowed first last (pressed timeout) = Unit
Allowed first last (pressed up) = ⊥
Allowed first last (pressed down) = ⊥
Allowed first last (pressed other) = ⊥
Allowed first last (pressed (digit n)) = (first ≤ n) × (n ≤ last)
Allowed first last overrun = ⊥
Allowed first last waiting = Unit

length-texts : (items : List Bytes) → length (texts items) ≡ length items
length-texts [] = refl
length-texts (s ∷ l) = ap suc (length-texts l)

item_at :
    (items : List Bytes) (u : ℕ)
    → u < length items
    → Short items
    → (s : Bytes) × (item (texts items) u ≡ some s)
      × (drop u items ≡ s ∷ drop (suc u) items)
      × (length s < 50)
unfolding item
item_at [] u h sh = elim h [ ]
item_at (s ∷ l) zero h sh = (s, refl, refl, sh.0)
item_at (s ∷ l) (suc u) h sh = item_at l u (omega arith) sh.1

item_behind :
    (items : List Bytes) (u : ℕ)
    → length items ≤ u
    → (item (texts items) u ≡ none) × (drop u items ≡ [])
unfolding item
item_behind [] zero h = (refl, refl)
item_behind [] (suc u) h = (refl, refl)
item_behind (s ∷ l) zero h = absurd (omega arith)
item_behind (s ∷ l) (suc u) h = item_behind l u (omega arith)

-- The last `t` of a page of `k` lines from `u` on.
abbrev last_turn : ℕ → ℕ → ℕ → ℕ → ℕ
last_turn lines t zero u = t
last_turn lines t (suc k) u = if leb (u + suc k) lines then u + k else lines

last_turn_next :
    (lines t k u : ℕ) → u < lines → last_turn lines u k (suc u) ≡ last_turn lines t (suc k) u
last_turn_next lines t zero u h = ground arith
last_turn_next lines t (suc k) u h = ground arith

show_lines-page :
    (items : List Bytes) (base k i t : ℕ)
    → Short items
    → i + base ≤ length items
    → i + base + k < 256
    → length items < 256
    → show_lines (texts items) base k i t
      ≡ shown (take k (drop (i + base) items)) (last_turn (length items) t k (i + base))
unfolding show_lines
show_lines-page items base zero i t sh h b l = refl
show_lines-page items base (suc k) i t sh h b l =
    let e : (i + base) % 256 ≡ i + base = omega arith in
    let n : suc i + base ≡ suc (i + base) = omega arith in
    elim (Bool-cases (ltb (i + base) (length items))) [
      | inl q ↦
          let (s, a, d, f) = item_at items (i + base) (ground (arith, q)) sh in
          ground (
            arith,
            e,
            n,
            a,
            d,
            f,
            show_lines-page items base k (suc i) (i + base) sh (ground (arith, q)) (omega arith) l,
            last_turn_next (length items) t k (i + base),
          )
      | inr q ↦
          let (a, d) = item_behind items (i + base) (ground (arith, q)) in
          ground (arith, e, n, a, d)
    ]

-- What a key may do in a menu of that many lines, `n` to a page.
abbrev Good : ℕ → ℕ → ℕ → ℕ → Turn → Type 0
Good lines n first last (returns q) = Allowed first last (pressed q)
Good lines n first last (moves c) = c * n < lines
Good lines n first last refuses = Unit
Good lines n first last stays = Unit

before-lt : (c n lines : ℕ) → c * n < lines → (c - 1) * n < lines
before-lt zero n lines h = h
before-lt (suc c) n lines h = let e : suc c - 1 ≡ c = omega arith in rw e (omega (arith, h))

next-lt :
    (c m lines : ℕ)
    → lines < 256
    → last_turn lines 0 (suc m) (c * suc m) + 1 < lines
    → ((c + 1) % 256) * suc m < lines
next-lt c m lines l h = elim (Bool-cases (leb (c * suc m + suc m) lines)) [
  | inl q ↦
      let k : c * suc m + m + 1 < lines = ground (arith, q, h) in
      let b : c + 1 < 256 = grind arith in
      let e : (c + 1) % 256 ≡ c + 1 = omega arith in rw e (omega arith)
  | inr q ↦ absurd (ground (arith, q, h))
]

turn-Good :
    (lines first last c m : ℕ) (k : Key)
    → lines < 256
    → c * suc m < lines
    → Good lines
        (suc m)
        first
        last
        (turn lines first last c (last_turn lines 0 (suc m) (c * suc m)) k)
unfolding turn
turn-Good lines first last c m escape l h = tt
turn-Good lines first last c m timeout l h = tt
turn-Good lines first last c m other l h = tt
turn-Good lines first last c m up l h = elim (Bool-cases (ltb 0 c)) [
  | inl q ↦ rw q (before-lt c (suc m) lines h)
  | inr q ↦ rw q tt
]
turn-Good lines first last c m down l h =
    let t = last_turn lines 0 (suc m) (c * suc m) in
    elim (Bool-cases (ltb (t + 1) lines)) [
      | inl q ↦ rw q (next-lt c m lines l (ground (arith, q)))
      | inr q ↦ rw q tt
    ]
turn-Good lines first last c m (digit n) l h = elim (Bool-cases (leb first n && leb n last)) [
  | inl q ↦ rw q (ground (arith, q))
  | inr q ↦ rw q tt
]

-- What the pages behind a page must show.
abbrev Fine : List Bytes → ℕ → ℕ → ℕ → Choice × List Act → Type 0
Fine items n first last r = Allowed first last r.0 × Inside items n r.1

follow-Fine :
    (items : List Bytes) (n first last c : ℕ) (next : ℕ → Choice × List Act) (u : Turn)
    → c * n < length items
    → ((d : ℕ) → d * n < length items → Fine items n first last (next d))
    → Good (length items) n first last u
    → Fine items n first last (follow (page_of items n c) c next u)
unfolding follow
follow-Fine items n first last c next (returns q) h f g = (g, ((c, h, refl), tt))
follow-Fine items n first last c next (moves d) h f g = ((f d g).0, ((c, h, refl), (f d g).1))
follow-Fine items n first last c next refuses h f g = ((f c h).0, ((c, h, refl), (f c h).1))
follow-Fine items n first last c next stays h f g = ((f c h).0, ((c, h, refl), (f c h).1))

module _ (items : List Bytes) (first last m : ℕ) (sh : Short items)
    (room : length items + m < 255) where
  page_shown :
      (c : ℕ)
      → c * suc m < length items
      → show_lines (texts items) (c * suc m) (suc m) 0 0
        ≡ shown (page_of items (suc m) c) (last_turn (length items) 0 (suc m) (c * suc m))
  page_shown c h =
      let e : 0 + c * suc m ≡ c * suc m = omega arith in
      let p =
        show_lines-page items (c * suc m) (suc m) 0 0 sh (omega arith) (omega arith)
          (omega arith) in
      rw e at p

  menu_loop-Fine :
      (c : ℕ) (ks : List Key)
      → c * suc m < length items
      → Fine items (suc m) first last (menu_loop (texts items) (suc m) first last c ks)
  unfolding menu_loop
  menu_loop-Fine c [] h = rw (page_shown c h, menu_loop) (tt, ((c, h, refl), tt))
  menu_loop-Fine c (k ∷ ks) h =
      rw (page_shown c h, length-texts items, menu_loop)
        (follow-Fine items (suc m) first last c
          (λ d. menu_loop (texts items) (suc m) first last d ks)
          (turn (length items) first last c (last_turn (length items) 0 (suc m) (c * suc m)) k) h
          (λ d g. menu_loop-Fine d ks g)
          (turn-Good (length items) first last c m k (omega arith) h))

-- Of a menu of at least one and at most 242 texts, each below 50 bytes, with no NULL: whatever keys are
-- pressed, each page shown is one of the menu's and not empty, and a key is returned only if it is ESC, the
-- time-out or a digit in the range given.
pub show_menu_item-Fine :
    (small title : Bool) (items : List Bytes) (first last : ℕ) (ks : List Key)
    → Short items
    → 0 < length items
    → length items < 243
    → let r = show_menu_item small title (texts items) first last ks in
      Allowed first last r.0 × Inside items (one_screen_lines small title) r.1
unfolding show_menu_item one_screen_lines
show_menu_item-Fine true true items first last ks sh p b =
    menu_loop-Fine items first last 0 sh (omega arith) 0 ks (omega arith)
show_menu_item-Fine true false items first last ks sh p b =
    menu_loop-Fine items first last 1 sh (omega arith) 0 ks (omega arith)
show_menu_item-Fine false true items first last ks sh p b =
    menu_loop-Fine items first last 11 sh (omega arith) 0 ks (omega arith)
show_menu_item-Fine false false items first last ks sh p b =
    menu_loop-Fine items first last 12 sh (omega arith) 0 ks (omega arith)
