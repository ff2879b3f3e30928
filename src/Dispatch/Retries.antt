-- ===== src/Dispatch/Retries.antt =====
-- The cycles of a search: that a search with a partner in range makes an offer, and that the retries
-- of one without come to an end.
use patheya_express_platform.Common.{
  ℕ, zero, suc, ◌-◌, ◌≤◌, ◌<◌, ◌≡◌, ◌⊎◌, inl, inr, refl, Option, none, some, arith, get_or,
}
use patheya_express_platform.Schema.{order_status_eq}
use patheya_express_platform.Dispatch.{Store}
use patheya_express_platform.Dispatch.Search.{Config, Surroundings, derived_cycle, current_cycle}
use patheya_express_platform.Dispatch.Assign.{
  Outcome, offered, skipped, retried, no_partners, assign_order,
}
use patheya_express_platform.Dispatch.Offers.{assign_cases, offer_cases, search_cases}

-- A retry calls again, with its cycle; a throw is left to the queue.
abbrev pub continue : Outcome → (ℕ → Option Outcome) → Option Outcome
continue (retried next) again = again next
continue skipped again = some skipped
continue (Outcome.already_active a) again = some (Outcome.already_active a)
continue no_partners again = some no_partners
continue (offered a) again = some (offered a)

-- One call after another, each with what it sees. None says that the fuel has run out.
pub attempts :
    Config → ℕ → (ℕ → Surroundings × ℕ × Store) → (fuel : ℕ) → ℕ → Option ℕ → Option Outcome
attempts c id seen zero n forced = none
attempts c id seen (suc fuel) n forced =
    continue ((assign_order c (seen n).0 id forced (seen n).1 (seen n).2).0)
      (λ next. attempts c id seen fuel (suc n) (some next))

-- The cycle of a retry is above the one asked for, and within the limit.
retried_cycle :
    (c : Config) (w : Surroundings) (id : ℕ) (forced : Option ℕ) (now limit next : ℕ) (s : Store)
    → c.max_cycles ≡ some limit
    → (assign_order c w id forced now s).0 ≡ retried next
    → (get_or forced 0 < next) × (next ≤ limit)
retried_cycle c w id forced now limit next s m run = elim (assign_cases c w id forced now s) [
  | inl e ↦ absurd (ground (arith, e))
  | inr (inl (b, e)) ↦ absurd (ground (arith, e))
  | inr (inr (o, found, k, f, e)) ↦
      let cycle = current_cycle forced (derived_cycle id s.assignments) in
      elim (search_cases c w id cycle now s) [
        | inl (h, g) ↦ ground (arith, e, g, m, run)
        | inr (p, narrower, tier, wider, split, h, i, g) ↦ elim (offer_cases id cycle now p s) [
          | inl l ↦ absurd (ground (arith, e, g, l))
          | inr l ↦ absurd (ground (arith, e, g, l))
        ]
      ]
]

abbrev pub IsFinal : Outcome → Type 0
IsFinal (retried next) = ⊥
IsFinal skipped = Unit {0}
IsFinal (Outcome.already_active a) = Unit {0}
IsFinal no_partners = Unit {0}
IsFinal (offered a) = Unit {0}

IsFinal-or_retried : (o : Outcome) → IsFinal o ⊎ ((next : ℕ) × (o ≡ retried next))
IsFinal-or_retried (retried next) = inr (next, refl)
IsFinal-or_retried skipped = inl tt
IsFinal-or_retried (Outcome.already_active a) = inl tt
IsFinal-or_retried no_partners = inl tt
IsFinal-or_retried (offered a) = inl tt

final_stops : (o : Outcome) (again : ℕ → Option Outcome) → IsFinal o → continue o again ≡ some o
final_stops (retried next) again h = absurd h
final_stops skipped again h = refl
final_stops (Outcome.already_active a) again h = refl
final_stops no_partners again h = refl
final_stops (offered a) again h = refl

attempts_end :
    (c : Config) (id limit : ℕ) (seen : ℕ → Surroundings × ℕ × Store) (fuel n : ℕ)
    (forced : Option ℕ)
    → c.max_cycles ≡ some limit
    → limit - get_or forced 0 < fuel
    → (o : Outcome) × (attempts c id seen fuel n forced ≡ some o) × IsFinal o
unfolding attempts
attempts_end c id limit seen zero n forced m h = absurd (omega arith)
attempts_end c id limit seen (suc fuel) n forced m h =
    let (w, now, s) = seen n in
    let o : Outcome = (assign_order c w id forced now s).0 in
    elim (IsFinal-or_retried o) [
      | inl f ↦ (o, final_stops o (λ next. attempts c id seen fuel (suc n) (some next)) f, f)
      | inr (next, e) ↦
          let (above, within) = retried_cycle c w id forced now limit next s m e in
          rw e (attempts_end c id limit seen fuel (suc n) (some next) m (omega arith))
    ]

-- The retries end: with a limit on the cycles, whatever partners, orders and assignments each call
-- sees, and whatever cycles those are in, no more calls than the limit and one queue another one,
-- and the last of them offers the order, leaves it or gives up.
pub retries_end :
    (c : Config) (id limit : ℕ) (seen : ℕ → Surroundings × ℕ × Store)
    → c.max_cycles ≡ some limit
    → (o : Outcome) × (attempts c id seen (suc limit) 0 none ≡ some o) × IsFinal o
retries_end c id limit seen m = attempts_end c id limit seen (suc limit) 0 none m (omega arith)
