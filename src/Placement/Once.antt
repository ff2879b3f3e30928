-- ===== src/Placement/Once.antt =====
-- The idempotency key of placeOrder: what a repeated call answers, and how many orders have a key.
use mathlib.Core.Path.{subst}
use patheya_express_platform.Common.{
  ℕ, ◌≡◌, ◌≤◌, inl, inr, refl, sym, ap, any-find, any-count, false, none, some, List, arith, any,
  find, count, Result, ok, Bool-cases, Option-cases, after,
}
use patheya_express_platform.Placement.Place.{
  Store, PlacedOrder, CreateOrderDto, Circumstances, has_key, find_order_by_idempotency_key,
  place_order_internal, place_order, Lock, locked,
}
use patheya_express_platform.Placement.Steps.{
  Outcome, has_key_own, has_key_made, place_order_internal-Outcome,
}

locked_call :
    (lock : Lock) (w : Circumstances) (c : ℕ) (dto : CreateOrderDto) (s : Store)
    → Outcome c dto.idempotency_key s (after (locked lock s) (λ _. place_order_internal w c dto))
locked_call Lock.acquired w c dto s = place_order_internal-Outcome w c dto s
locked_call Lock.taken w c dto s = inl (refl, λ o q. absurd cc)
locked_call Lock.unavailable w c dto s = place_order_internal-Outcome w c dto s

place_order_new :
    (lock : Lock) (w : Circumstances) (c : ℕ) (dto : CreateOrderDto) (s : Store)
    → find_order_by_idempotency_key c dto.idempotency_key s ≡ none
    → place_order lock w c dto s ≡ after (locked lock s) (λ _. place_order_internal w c dto)
unfolding place_order
place_order_new lock w c dto s h = rw (h, place_order) refl

place_order_again :
    (lock : Lock) (w : Circumstances) (c : ℕ) (dto : CreateOrderDto) (s : Store) (o : PlacedOrder)
    → find_order_by_idempotency_key c dto.idempotency_key s ≡ some o
    → place_order lock w c dto s ≡ (ok o, s)
unfolding place_order
place_order_again lock w c dto s o h = rw (h, place_order) refl

pub place_order-Outcome :
    (lock : Lock) (w : Circumstances) (c : ℕ) (dto : CreateOrderDto) (s : Store)
    → Outcome c dto.idempotency_key s (place_order lock w c dto s)
place_order-Outcome lock w c dto s =
    elim (Option-cases (find_order_by_idempotency_key c dto.idempotency_key s)) [
      | inr (o, h) ↦
          subst (Outcome c dto.idempotency_key s) (sym (place_order_again lock w c dto s o h))
            (inl (refl, λ p q. cc))
      | inl h ↦
          subst (Outcome c dto.idempotency_key s) (sym (place_order_new lock w c dto s h))
            (locked_call lock w c dto s)
    ]

-- One call of any customer: with the check of the key in front, or past it, as a call is that read
-- before another wrote.
pub data Step (s : Store) : Store → Type 0 where
  placed :
      (lock : Lock) (w : Circumstances) (c : ℕ) (dto : CreateOrderDto)
      → Step s (place_order lock w c dto s).1
  past_check :
      (w : Circumstances) (c : ℕ) (dto : CreateOrderDto) → Step s (place_order_internal w c dto s).1

pub data Reach (s : Store) : Store → Type 0 where
  start : Reach s s
  next : {t u : Store} → Reach s t → Step t u → Reach s u

-- Two orders of one key, of which one is new.
no_second :
    (c key d other : ℕ) (o p : PlacedOrder) (os : List PlacedOrder)
    → p.customer_id ≡ d
    → p.idempotency_key ≡ other
    → any (has_key d other) os ≡ false
    → find (has_key c key) os ≡ some o
    → has_key c key p ≡ false
no_second c key d other o p os own keyed fresh found = elim (Bool-cases (has_key c key p)) [
  | inr apart ↦ apart
  | inl has ↦
      let (own', keyed') = has_key_own c key p has in
      let none_found = any-find (has_key d other) os fresh in
      let some_found : find (has_key d other) os ≡ some o =
        rw (sym own, sym keyed, own', keyed') found in
      absurd cc
]

-- The order of a key is there to stay.
found_after :
    (c key d other : ℕ) (o : PlacedOrder) (s : Store) (r : Result PlacedOrder × Store)
    → Outcome d other s r
    → find_order_by_idempotency_key c key s ≡ some o
    → find_order_by_idempotency_key c key r.1 ≡ some o
found_after c key d other o s r (inl (orders, _)) found = rw orders found
found_after c key d other o s r (inr (p, orders, own, keyed, fresh, _)) found =
    rw (orders, no_second c key d other o p s.orders own keyed fresh found) found

found_steps :
    (c key : ℕ) (o : PlacedOrder) (s t : Store)
    → Step s t
    → find_order_by_idempotency_key c key s ≡ some o
    → find_order_by_idempotency_key c key t ≡ some o
found_steps c key o s _ (placed lock w d dto) =
    found_after c key d dto.idempotency_key o s (place_order lock w d dto s)
      (place_order-Outcome lock w d dto s)
found_steps c key o s _ (past_check w d dto) =
    found_after c key d dto.idempotency_key o s (place_order_internal w d dto s)
      (place_order_internal-Outcome w d dto s)

found_later :
    (c key : ℕ) (o : PlacedOrder) (s t : Store)
    → Reach s t
    → find_order_by_idempotency_key c key s ≡ some o
    → find_order_by_idempotency_key c key t ≡ some o
found_later c key o s _ start found = found
found_later c key o s _ (next {t} {u} reach step) found =
    found_steps c key o t u step (found_later c key o s t reach found)

found_now :
    (c key : ℕ) (s : Store) (r : Result PlacedOrder × Store) (o : PlacedOrder)
    → Outcome c key s r
    → r.0 ≡ ok o
    → find_order_by_idempotency_key c key r.1 ≡ some o
found_now c key s r o (inl (orders, answer)) done = rw orders (answer o done)
found_now c key s r o (inr (p, orders, own, keyed, fresh, answer)) done =
    rw (orders, has_key_made c key p own keyed) (ap some (sym (answer o done)))

-- A call that has answered with an order is repeated for nothing: whatever calls of any customers
-- follow it, the same customer's call under the same key, the rest of its arguments as they may be,
-- answers with that very order and writes nothing.
pub replay :
    (lock again : Lock) (w w' : Circumstances) (c : ℕ) (dto dto' : CreateOrderDto) (s t : Store)
    (o : PlacedOrder)
    → (place_order lock w c dto s).0 ≡ ok o
    → Reach (place_order lock w c dto s).1 t
    → dto'.idempotency_key ≡ dto.idempotency_key
    → place_order again w' c dto' t ≡ (ok o, t)
replay lock again w w' c dto dto' s t o done reach same =
    let key = dto.idempotency_key in
    let now =
      found_now c key s (place_order lock w c dto s) o (place_order-Outcome lock w c dto s) done in
    place_order_again again w' c dto' t o (rw same (found_later c key o _ t reach now))

-- No two orders have the customer and the key in common: the unique index of the table.
abbrev pub IsUnique : Store → Type 0
IsUnique s = (c key : ℕ) → count (has_key c key) s.orders ≤ 1

Outcome-IsUnique :
    (d other : ℕ) (s : Store) (r : Result PlacedOrder × Store)
    → Outcome d other s r
    → IsUnique s
    → IsUnique r.1
Outcome-IsUnique d other s r (inl (orders, _)) unique c key = rw orders (unique c key)
Outcome-IsUnique d other s r (inr (o, orders, own, keyed, fresh, _)) unique c key =
    rw orders (elim (Bool-cases (has_key c key o)) [
      | inr apart ↦ rw apart (unique c key)
      | inl has ↦
          let (own', keyed') = has_key_own c key o has in
          let none_before : count (has_key c key) s.orders ≡ 0 =
            rw (sym own', sym keyed', own, keyed) (any-count (has_key d other) s.orders fresh) in
          rw has (ground (arith, none_before))
    ])

Step-IsUnique : (s t : Store) → Step s t → IsUnique s → IsUnique t
Step-IsUnique s _ (placed lock w c dto) unique =
    Outcome-IsUnique c dto.idempotency_key s (place_order lock w c dto s)
      (place_order-Outcome lock w c dto s) unique
Step-IsUnique s _ (past_check w c dto) unique =
    Outcome-IsUnique c dto.idempotency_key s (place_order_internal w c dto s)
      (place_order_internal-Outcome w c dto s) unique

-- Whatever calls of any customers follow each other, also calls that are past the check of the key
-- when another call with the same key writes: no key of a customer ever has two orders.
pub one_order_per_key : (s t : Store) → Reach s t → IsUnique s → IsUnique t
one_order_per_key s _ start unique = unique
one_order_per_key s _ (next {t} {u} reach step) unique =
    Step-IsUnique t u step (one_order_per_key s t reach unique)
