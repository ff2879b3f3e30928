-- ===== src/Placement/Register.antt =====
-- What a client of placeOrder may count on, without the tables: a register that maps a customer and
-- a key to an order and that is only ever written where it is empty.
use patheya_express_platform.Common.{
  ℕ, ◌≡◌, inl, inr, refl, sym, ◌∙◌, Option, none, some, ◌∷◌, any-find, Result, ok, err, Exception,
  Bool-cases,
}
use patheya_express_platform.Placement.Place.{
  Store, PlacedOrder, CreateOrderDto, Circumstances, Lock, has_key, find_order_by_idempotency_key,
  place_order, place_order_internal,
}
use patheya_express_platform.Placement.Steps.{
  Outcome, Result-cases, has_key_own, has_key_made, place_order_internal-Outcome,
}
use patheya_express_platform.Placement.Once.{place_order-Outcome}

abbrev pub Register : Type 0
Register = ℕ → ℕ → Option PlacedOrder

abbrev pub view : Store → Register
view s customer_id key = find_order_by_idempotency_key customer_id key s

abbrev IsSame : Register → Register → Type 0
IsSame v v' = (c key : ℕ) → v' c key ≡ v c key

-- One call under a key: what it answers, and what the register is after it.
pub data Put (c key : ℕ) (v : Register) (r : Result PlacedOrder) (v' : Register) : Type 0 where
  refused : (e : Exception) → r ≡ err e → IsSame v v' → Put c key v r v'
  answered : (o : PlacedOrder) → v c key ≡ some o → r ≡ ok o → IsSame v v' → Put c key v r v'
  stored :
      (o : PlacedOrder)
      → v c key ≡ none
      → v' c key ≡ some o
      → ((p : PlacedOrder) → r ≡ ok p → p ≡ o)
      → ((d other : ℕ) → ((d ≡ c) × (other ≡ key) → ⊥) → v' d other ≡ v d other)
      → Put c key v r v'

elsewhere :
    (c key : ℕ) (o : PlacedOrder) (s t : Store)
    → t.orders ≡ o ∷ s.orders
    → o.customer_id ≡ c
    → o.idempotency_key ≡ key
    → (d other : ℕ) → ((d ≡ c) × (other ≡ key) → ⊥)
    → view t d other ≡ view s d other
elsewhere c key o s t orders own keyed d other apart =
    rw orders (elim (Bool-cases (has_key d other o)) [
      | inl has ↦
          let (own', keyed') = has_key_own d other o has in
          absurd (apart (sym own' ∙ own, sym keyed' ∙ keyed))
      | inr no' ↦ rw no' refl
    ])

Outcome-Put :
    (c key : ℕ) (s : Store) (r : Result PlacedOrder × Store)
    → Outcome c key s r
    → Put c key (view s) r.0 (view r.1)
Outcome-Put c key s (r, t) (inl (orders, answer)) = elim (Result-cases r) [
  | inl (e, h) ↦ refused e h (λ d other. rw orders refl)
  | inr (o, h) ↦ answered o (answer o h) h (λ d other. rw orders refl)
]
Outcome-Put c key s (r, t) (inr (o, orders, own, keyed, fresh, answer)) =
    stored o (any-find (has_key c key) s.orders fresh)
      (rw (orders, has_key_made c key o own keyed) refl) answer
      (elsewhere c key o s t orders own keyed)

-- placeOrder implements a register that is written once: a call under a key is refused and leaves
-- every entry, answers with the order under its key and leaves every entry, or finds no entry under
-- its key, stores one there and leaves all others; whatever it answers is that order. The same
-- holds of placeOrderInternal, which reads no key at first.
pub place_order_refines :
    (lock : Lock) (w : Circumstances) (c : ℕ) (dto : CreateOrderDto) (s : Store)
    → (let (r, t) = place_order lock w c dto s in Put c dto.idempotency_key (view s) r (view t))
      × (let (r, t) = place_order_internal w c dto s in
          Put c dto.idempotency_key (view s) r (view t))
place_order_refines lock w c dto s = (
  Outcome-Put c dto.idempotency_key s (place_order lock w c dto s)
      (place_order-Outcome lock w c dto s),
  Outcome-Put c dto.idempotency_key s (place_order_internal w c dto s)
      (place_order_internal-Outcome w c dto s),
)
