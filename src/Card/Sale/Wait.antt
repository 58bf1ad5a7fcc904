-- ===== src/Card/Sale/Wait.antt =====
-- Card.c, GetCard: the wait for a card.
use service_payment_bridge.Prelude.{
  ℕ, ◌≡◌, refl, none, List, [], ◌∷◌, ◌++◌, ℤ, pos, is, inl, inr, Bool-cases,
}
use service_payment_bridge.Card.Kernel.{Allowed, Run}
use service_payment_bridge.Card.Sale.{
  Event, card, escape, timeout, Environment, await_card, get_card,
}

-- ESC and TIMEOUT only.
abbrev pub NoCard : List Event → Type 0
NoCard [] = Unit
NoCard (card ∷ es) = ⊥
NoCard (escape ∷ es) = NoCard es
NoCard (timeout ∷ es) = NoCard es

await_card-skip :
    (e : Environment) (fuel : ℕ) (a : Allowed) (es more : List Event) (r : Run)
    → NoCard es
    → await_card e fuel a (es ++ more) r ≡ await_card e fuel a more r
unfolding await_card
await_card-skip e fuel a [] more r h = refl
await_card-skip e fuel a (card ∷ es) more r h = absurd h
await_card-skip e fuel a (escape ∷ es) more r h = await_card-skip e fuel a es more r h
await_card-skip e fuel a (timeout ∷ es) more r h = await_card-skip e fuel a es more r h

await_card-waits :
    (e : Environment) (fuel : ℕ) (a : Allowed) (es : List Event) (r : Run)
    → NoCard es
    → (await_card e fuel a es r).0 ≡ none
unfolding await_card
await_card-waits e fuel a [] r h = refl
await_card-waits e fuel a (card ∷ es) r h = absurd h
await_card-waits e fuel a (escape ∷ es) r h = await_card-waits e fuel a es r h
await_card-waits e fuel a (timeout ∷ es) r h = await_card-waits e fuel a es r h

-- However often ESC is pressed or the 60 seconds run out before a card is there, the sale goes on as without
-- it; and with nothing else the wait for a card that the antenna was opened for never returns.
pub get_card-NoCard :
    (e : Environment) (fuel : ℕ) (es more : List Event) (z : ℤ) (r : Run)
    → NoCard es
    → (get_card e fuel z (es ++ more) r ≡ get_card e fuel z more r)
      × ((get_card e fuel (pos 0) es r).0 ≡ none)
unfolding get_card
get_card-NoCard e fuel es more z r h = (
  elim (Bool-cases (is 0 z)) [
    | inl q ↦ rw q (await_card-skip e fuel _ es more _ h)
    | inr q ↦ rw q refl
  ],
  await_card-waits e fuel _ es _ h,
)
