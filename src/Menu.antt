-- ===== src/Menu.antt =====
-- display.c: the menus. ShowMenuItem shows a list page by page until a key chooses or leaves; the menus
-- loop over it. A list gives what WaitAnyKey_Api answers, one key for each page shown.
pub mod Pages
pub mod Volume
pub mod Settings
pub mod Loop
use service_payment_bridge.Prelude.{
  ℕ, zero, suc, ◌+◌, ◌-◌, ◌*◌, ◌%◌, Bool, true, false, ◌&&◌, Option, none, some, List, [], ◌∷◌,
  ◌++◌, Bytes, codes, length, get_elem?, ltb, leb, if◌then◌else◌,
}

-- The keys that the code tells apart. `digit k` is DIGITAL0 + k; no other key lies among the digits.
pub data Key : Type 0 where
  escape timeout up down other : Key
  digit : ℕ → Key

-- How ShowMenuItem ends: it returns a key; an item does not fit dispbuf[50]; it waits for a further key.
pub data Choice : Type 0 where
  pressed : Key → Choice
  overrun waiting : Choice

-- What the terminal shows and sounds.
pub data Act : Type 0 where
  page : List Bytes → Act
  beep : Act

-- The lines below the title, if there is one.
unfoldable pub one_screen_lines : Bool → Bool → ℕ
one_screen_lines true true = 1
one_screen_lines true false = 2
one_screen_lines false true = 12
one_screen_lines false false = 13

-- menu[t], up to ucLines or a NULL; the callers pass the array's length as ucLines.
unfoldable pub item : List (Option Bytes) → ℕ → Option Bytes
item menu t = elim (get_elem? menu t) [ none ↦ none | some s ↦ s ]

-- An array of texts, with no NULL in it.
abbrev pub texts : List Bytes → List (Option Bytes)
texts [] = []
texts (s ∷ l) = some s ∷ texts l

-- What a page shows, and the last `t`.
pub data Shown : Type 0 where
  shown : List Bytes → ℕ → Shown
  too_long : Shown

abbrev pub shows : Bytes → Shown → Shown
shows s (shown l t) = shown (s ∷ l) t
shows s too_long = too_long

-- "for (i = 0; i < OneScreenLines; i++)" from `i` on, with `k` turns left and the last `t`.
unfoldable pub show_lines : List (Option Bytes) → ℕ → ℕ → ℕ → ℕ → Shown
unfolding item
show_lines menu base zero i t = shown [] t
show_lines menu base (suc k) i t =
    let u = (i + base) % 256 in
    let rest = show_lines menu base k (suc i) u in
    elim (item menu u) [
      | none ↦ shown [] u
      | some s ↦ if ltb (length s) 50 then shows s rest else too_long
    ]

-- What a key does on the page `cur`, whose last turn of the "for" loop had `t`.
pub data Turn : Type 0 where
  returns : Key → Turn
  moves : ℕ → Turn
  refuses stays : Turn

unfoldable pub turn : ℕ → ℕ → ℕ → ℕ → ℕ → Key → Turn
turn lines first last cur t escape = returns escape
turn lines first last cur t timeout = returns timeout
turn lines first last cur t up = if ltb 0 cur then moves (cur - 1) else refuses
turn lines first last cur t down = if ltb (t + 1) lines then moves ((cur + 1) % 256) else refuses
turn lines first last cur t other = stays
turn lines first last cur t (digit n) =
    if leb first n && leb n last then returns (digit n) else stays

abbrev pub after : List Act → Choice × List Act → Choice × List Act
after l r = (r.0, l ++ r.1)

unfoldable pub follow : List Bytes → ℕ → (ℕ → Choice × List Act) → Turn → Choice × List Act
follow l cur next (returns q) = (pressed q, page l ∷ [])
follow l cur next (moves c) = after (page l ∷ []) (next c)
follow l cur next refuses = after (page l ∷ beep ∷ []) (next cur)
follow l cur next stays = after (page l ∷ []) (next cur)

-- "while (1)" from the page `cur` on.
unfoldable pub menu_loop : List (Option Bytes) → ℕ → ℕ → ℕ → ℕ → List Key → Choice × List Act
unfolding show_lines turn follow
menu_loop menu n first last cur [] = elim (show_lines menu (cur * n) n 0 0) [
  | too_long ↦ (overrun, [])
  | shown l t ↦ (waiting, page l ∷ [])
]
menu_loop menu n first last cur (k ∷ ks) = elim (show_lines menu (cur * n) n 0 0) [
  | too_long ↦ (overrun, [])
  | shown l t ↦
      follow l cur (λ c. menu_loop menu n first last c ks) (turn (length menu) first last cur t k)
]

-- ShowMenuItem on a small or a large screen, with a title or without.
unfoldable pub show_menu_item :
    Bool → Bool → List (Option Bytes) → ℕ → ℕ → List Key → Choice × List Act
unfolding menu_loop one_screen_lines
show_menu_item small title menu first last keys =
    menu_loop menu (one_screen_lines small title) first last 0 keys

-- WaitEvent: what GetKey_Api and the timer give in each round. A key code of 0 is no key; 0xfe stands for
-- 30 seconds, `none` for a wait that goes on.
unfoldable pub wait_event : List (Bool × ℕ) → Option ℕ
wait_event [] = none
wait_event ((expired, key) ∷ rs) =
    let rest = wait_event rs in
    if expired then some 0xfe else (if leb 1 key then some key else rest)
