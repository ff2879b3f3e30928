-- ===== src/Dispatch/Examples.antt =====
-- Dispatch at concrete inputs: the runs that the properties of this component are applied to.
use mathlib.Core.List.Perm
use patheya_express_platform.Common.{
  ℕ, ◌+◌, ◌*◌, ◌≤◌, ◌≡◌, ◌≢◌, refl, true, false, Option, none, some, List, [], ◌∷◌, ◌++◌, arith,
  ◌==◌, if◌then◌else◌,
}
use patheya_express_platform.Common.Int.{pos, pos_part}
use patheya_express_platform.Schema.{AssignmentStatus, DeliveryPartnerStatus, OrderStatus}
use patheya_express_platform.Dispatch.{
  Store, DeliveryAssignment, DeliveryPartner, AssignmentParams, accepted, accept_assignment_atomic,
  create_assignment_for_order, create_for, find_active_assignment_for_order,
}
use patheya_express_platform.Dispatch.History.{
  creates, rejects, releases, run, active, one_assignment,
}
use patheya_express_platform.Dispatch.Accept.{order_accepted_once}
use patheya_express_platform.Dispatch.Search.{
  Location, Surroundings, Config, default_tiers, within_tier, search_tiers,
}
use patheya_express_platform.Dispatch.Priority.{
  select_partner_by_priority, sort, insert, compare_scored, compare_idle, compare_distance,
}
use patheya_express_platform.Dispatch.Ranking.{select_any_order}
use patheya_express_platform.Dispatch.Assign.{Outcome, offered, assign_order, search_cycle, offer}
use patheya_express_platform.Dispatch.Offers.{NobodyWithin, IsEligible, offered_partner, offer_made}
use patheya_express_platform.Dispatch.Retries.{attempts, IsFinal, retries_end}

abbrev an_offer : ℕ → DeliveryAssignment
an_offer id = record {
  id = id;
  order_id = 7;
  delivery_partner_id = 1;
  status = AssignmentStatus.pending;
  expires_at = 100;
  cycle = 1;
}

abbrev waiting : Store
waiting = record {
  assignments = an_offer 1 ∷ [];
  next_id = 2;
  partners =
      record { id = 1; user_id = 9; status = DeliveryPartnerStatus.available; is_verified = true }
      ∷ [];
  orders =
      record { id = 7; status = OrderStatus.ready_for_pickup; delivery_partner_id = none } ∷ [];
}

abbrev params : AssignmentParams
params = record { order_id = 7; delivery_partner_id = 1; expires_at = 200; cycle = 2 }

one_assignment_example :
    active 7 (run (creates params ∷ rejects 1 9 ∷ creates params ∷ []) waiting) ≤ 1
one_assignment_example =
    one_assignment (creates params ∷ rejects 1 9 ∷ creates params ∷ []) 7 waiting (omega arith)

abbrev taken : Store
taken = (accept_assignment_atomic 1 1 9 7 waiting).1

first_accept : accept_assignment_atomic 1 1 9 7 waiting ≡ (accepted, taken)
unfolding accept_assignment_atomic
first_accept = refl

order_accepted_once_example :
    accept_assignment_atomic 2 1 9 7 (run (releases 9 7 ∷ creates params ∷ []) taken)
    ≢ (accepted, taken)
order_accepted_once_example =
    order_accepted_once 1 2 1 1 9 9 7 (releases 9 7 ∷ creates params ∷ []) waiting taken taken
      first_accept

abbrev spot : ℕ → Location
spot at = record { latitude = pos at; longitude = pos 0 }

-- Two partners at 6 km, of whom 1 has waited longer, and the pickup at 0.
abbrev around : Surroundings
around = record {
  restaurant_suspended = false;
  branch = some (record {
    latitude = some (pos 0);
    longitude = some (pos 0);
    is_active = true;
    is_open_now = true;
  });
  fallback_branch = none;
  is_online = λ user. true;
  location = λ id. some (spot 6000);
  last_activity = λ id. some (100 + id);
  distance_meters = λ a b. pos_part b.latitude;
}

abbrev config : Config
config = record { radius_tiers_meters = default_tiers; max_cycles = some 3 }

abbrev a_partner : ℕ → DeliveryPartner
a_partner id = record {
  id = id;
  user_id = id + 8;
  status = DeliveryPartnerStatus.available;
  is_verified = true;
}

abbrev ready : Store
ready = record {
  assignments = [];
  next_id = 1;
  partners = a_partner 2 ∷ a_partner 1 ∷ [];
  orders =
      record { id = 7; status = OrderStatus.ready_for_pickup; delivery_partner_id = none } ∷ [];
}

abbrev row : ℕ → Option DeliveryPartner
row id = if id == 1 then some (a_partner 1) else if id == 2 then some (a_partner 2) else none

select_any_order_example :
    select_partner_by_priority around (a_partner 1 ∷ a_partner 2 ∷ []) 1
    ≡ select_partner_by_priority around (a_partner 2 ∷ a_partner 1 ∷ []) 1
select_any_order_example =
    select_any_order around row 1 (a_partner 1 ∷ a_partner 2 ∷ []) (a_partner 2 ∷ a_partner 1 ∷ [])
      (Perm.swap (a_partner 2) (a_partner 1) []) (refl, (refl, tt))

abbrev the_offer : DeliveryAssignment
the_offer = record {
  id = 1;
  order_id = 7;
  delivery_partner_id = 1;
  status = AssignmentStatus.pending;
  expires_at = 31000;
  cycle = 1;
}

abbrev after_offer : Store
after_offer = (assign_order config around 7 none 1000 ready).1

assigned : assign_order config around 7 none 1000 ready ≡ (offered the_offer, after_offer)
unfolding assign_order search_cycle offer create_assignment_for_order create_for search_tiers
    select_partner_by_priority sort insert compare_scored compare_idle compare_distance
    find_active_assignment_for_order
assigned = refl

offered_partner_example :
    (p : DeliveryPartner) × (narrower : List ℕ) × (tier : ℕ) × (wider : List ℕ)
    × (the_offer.order_id ≡ 7)
    × (the_offer.delivery_partner_id ≡ p.id)
    × (config.radius_tiers_meters ≡ narrower ++ tier ∷ wider)
    × NobodyWithin around 7 1 ready narrower
    × IsEligible around 7 1 ready p
    × (within_tier around tier p ≡ true)
offered_partner_example =
    offered_partner config around 7 none 1000 ready after_offer the_offer assigned

no_active : find_active_assignment_for_order 7 ready ≡ none
unfolding find_active_assignment_for_order
no_active = refl

somebody_near : ¬ (NobodyWithin around 7 1 ready default_tiers)
somebody_near h = cc (h.1.0)

offer_made_example :
    (a : DeliveryAssignment) × (t : Store) × (assign_order config around 7 none 1000 ready
      ≡ (offered a, t))
offer_made_example =
    offer_made config around 7 none 1000 ready
      (record { id = 7; status = OrderStatus.ready_for_pickup; delivery_partner_id = none }) refl
      refl no_active somebody_near

-- Nobody is online.
abbrev asleep : Surroundings
asleep = record around { is_online = λ user. false }

retries_end_example :
    (o : Outcome) × (attempts config 7 (λ n. (asleep, 1000 * n, ready)) 4 0 none ≡ some o)
    × IsFinal o
retries_end_example = retries_end config 7 3 (λ n. (asleep, 1000 * n, ready)) refl
