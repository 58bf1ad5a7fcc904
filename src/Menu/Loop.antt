-- ===== src/Menu/Loop.antt =====
-- display.c: "while(1)" around ShowMenuItem, which every menu has.
use service_payment_bridge.Prelude.{ℕ, ◌<◌, Bool, true, List, [], ◌∷◌, Bytes, length}
use service_payment_bridge.Menu.{Key, Choice, texts, show_menu_item}
use service_payment_bridge.Menu.Pages.{Short, Allowed, show_menu_item-Fine}

-- Behind the "switch": the menu is left, shown again, or waits inside ShowMenuItem.
pub data After : Type 0 where
  leaves again stops : After

module _ {A : Type 0} where
  abbrev pub go_on : A × After → (A → A × After) → A × After
  go_on (a, leaves) next = (a, leaves)
  go_on (a, again) next = next a
  go_on (a, stops) next = (a, stops)

  -- One list of keys for each call of ShowMenuItem.
  unfoldable pub menu_of :
      (A → Choice → A × After) → Bool → List Bytes → ℕ → ℕ → A → List (List Key) → A × After
  menu_of choose small items first last a [] = (a, stops)
  menu_of choose small items first last a (ks ∷ calls) =
      go_on (choose a (show_menu_item small true (texts items) first last ks).0)
        (λ b. menu_of choose small items first last b calls)

module _ {A : Type 0} (P : A → Type 0) where
  go_on-keeps :
      (x : A × After) (next : A → A × After)
      → P x.0
      → ((b : A) → P b → P (next b).0)
      → P (go_on x next).0
  go_on-keeps (a, leaves) next h k = h
  go_on-keeps (a, again) next h k = k a h
  go_on-keeps (a, stops) next h k = h

  -- What every choice that ShowMenuItem can return keeps, the menu keeps.
  pub menu_of-keeps :
      (choose : A → Choice → A × After) (small : Bool) (items : List Bytes) (first last : ℕ)
      → Short items
      → 0 < length items
      → length items < 243
      → ((a : A) (c : Choice) → Allowed first last c → P a → P (choose a c).0)
      → (a : A) (calls : List (List Key)) → P a
      → P (menu_of choose small items first last a calls).0
  unfolding menu_of
  menu_of-keeps choose small items first last sh p b keep a [] h = h
  menu_of-keeps choose small items first last sh p b keep a (ks ∷ calls) h =
      go_on-keeps (choose a (show_menu_item small true (texts items) first last ks).0)
        (λ d. menu_of choose small items first last d calls)
        (keep a _ (show_menu_item-Fine small true items first last ks sh p b).0 h)
        (λ d g. menu_of-keeps choose small items first last sh p b keep d calls g)
