-- ===== src/Placement/Menu.antt =====
-- The items of an order against the menu: what placeOrderInternal lets pass, said of each item
-- without the code's order of checks.
use mathlib.Core.Path.{subst}
use patheya_express_platform.Common.{
  ℕ, ◌+◌, ◌*◌, ◌≤◌, ◌≡◌, inl, inr, refl, sym, true, false, Option, none, some, List, [], ◌∷◌, map,
  arith, any, find, All, Result, ok, err, Bool-cases, Option-cases, ◌==◌, sum_by,
}
use patheya_express_platform.Placement.Items.{
  MenuItem, Variant, Addon, AddonOption, ItemRequest, OrderItem, ChosenOption, option_of, choose,
  add_choice, choose_options, selected_count, out_of_range, priced_item, build_item, build_items,
  order_items, variant_price,
}
use patheya_express_platform.Common.Table.{find_holds}
use patheya_express_platform.Placement.Steps.{Result-cases}

-- A chosen option is on the menu, available, and has the menu's price.
pub record IsOffered (addons : List Addon) (c : ChosenOption) : Type 0 where
  pub option : AddonOption
  pub listed : option_of c.addon_option_id addons ≡ some option
  pub available : option.is_available ≡ true
  pub priced : c.price ≡ option.price

abbrev pub IsSelection : List Addon → List ℕ → List ChosenOption → Type 0
IsSelection addons ids cs =
    (map (λ (c : ChosenOption). c.addon_option_id) cs ≡ ids) × All (IsOffered addons) cs

option_of-id :
    (id : ℕ) (addons : List Addon) (o : AddonOption) → option_of id addons ≡ some o → o.id ≡ id
option_of-id id [] o h = absurd cc
option_of-id id (a ∷ addons) o h =
    elim (Option-cases (find (λ (x : AddonOption). x.id == id) a.options)) [
      | inl none_here ↦ option_of-id id addons o (ground (arith, none_here))
      | inr (x, here) ↦
          let same : x ≡ o = ground (arith, here) in
          let hit : (x.id == id) ≡ true =
            find_holds (λ (x : AddonOption). x.id == id) x a.options here in
          rw (sym same) (ground (arith, hit))
    ]

choose-IsOffered :
    (addons : List Addon) (id : ℕ) (o : Option AddonOption) (c : ChosenOption)
    → option_of id addons ≡ o
    → choose id o ≡ ok c
    → (c.addon_option_id ≡ id) × IsOffered addons c
choose-IsOffered addons id none c found h = absurd cc
choose-IsOffered addons id (some o) c found h = elim (Bool-cases o.is_available) [
  | inl yes' ↦
      let made : ok c ≡ ok (record { addon_option_id = o.id; price = o.price }) =
        rw (sym h, yes') refl in
      let same : c ≡ record { addon_option_id = o.id; price = o.price } = cc in
      let own = option_of-id id addons o found in
      rw same (
        own,
        record {
          option = o;
          listed = subst (λ k. option_of k addons ≡ some o) (sym own) found;
          available = yes';
          priced = refl;
        },
      )
  | inr no' ↦ absurd (ground (arith, h))
]

add_choice-cases :
    (r : Result ChosenOption) (rest : Result (List ChosenOption)) (cs : List ChosenOption)
    → add_choice r rest ≡ ok cs
    → (c : ChosenOption) × (ds : List ChosenOption) × (r ≡ ok c) × (rest ≡ ok ds) × (cs ≡ c ∷ ds)
add_choice-cases (ok c) (ok ds) cs h = (c, ds, refl, refl, cc)
add_choice-cases (ok c) (err e) cs h = absurd cc
add_choice-cases (err e) rest cs h = absurd cc

choose_options-IsSelection :
    (addons : List Addon) (ids : List ℕ) (cs : List ChosenOption)
    → choose_options addons ids ≡ ok cs
    → IsSelection addons ids cs
unfolding choose_options
choose_options-IsSelection addons [] cs h = let same : cs ≡ [] = cc in rw same (refl, tt)
choose_options-IsSelection addons (id ∷ ids) cs h =
    let (c, ds, first, rest, same) =
      add_choice-cases (choose id (option_of id addons)) (choose_options addons ids) cs h in
    let (own, offered) = choose-IsOffered addons id (option_of id addons) c refl first in
    let (owns, all) = choose_options-IsSelection addons ids ds rest in
    rw same (rw (own, owns) refl, (offered, all))

abbrev pub IsUnitPrice : MenuItem → Option ℕ → ℕ → Type 0
IsUnitPrice m none price = price ≡ m.base_price
IsUnitPrice m (some id) price =
    (v : Variant) × (find (λ (x : Variant). x.id == id) m.variants ≡ some v) × (price ≡ v.price)

abbrev IsWithin : List ChosenOption → Addon → Type 0
IsWithin cs a = (a.min_selection ≤ selected_count a cs) × (selected_count a cs ≤ a.max_selection)

-- An item of the order is the customer's request at the menu's prices.
pub record IsPriced (menu : List MenuItem) (restaurant_id : ℕ) (r : ItemRequest) (i : OrderItem)
    : Type 0 where
  pub item : MenuItem
  pub listed : find (λ (m : MenuItem). m.id == r.menu_item_id) menu ≡ some item
  pub owned : item.restaurant_id ≡ restaurant_id
  pub requested :
      (i.menu_item_id ≡ r.menu_item_id) × (i.variant_id ≡ r.variant_id) × (i.quantity ≡ r.quantity)
  pub unit : IsUnitPrice item r.variant_id i.unit_price
  pub chosen : IsSelection item.addons r.addon_option_ids i.addon_options
  pub within : All (IsWithin i.addon_options) item.addons
  pub total : i.total_price ≡ (i.unit_price + sum_by (λ c. c.price) i.addon_options) * i.quantity

variant_price-IsUnitPrice :
    (m : MenuItem) (v : Option ℕ) (s : Unit {0}) (price : ℕ)
    → (variant_price m v s).0 ≡ ok price
    → IsUnitPrice m v price
variant_price-IsUnitPrice m none s price h = cc
variant_price-IsUnitPrice m (some id) s price h =
    elim (Option-cases (find (λ (x : Variant). x.id == id) m.variants)) [
      | inl gone ↦ absurd (ground (arith, gone))
      | inr (v, found) ↦ let made : ok price ≡ ok v.price = ground (arith, found) in (v, found, cc)
    ]

in_range :
    (cs : List ChosenOption) (addons : List Addon)
    → any (out_of_range cs) addons ≡ false
    → All (IsWithin cs) addons
in_range cs [] h = tt
in_range cs (a ∷ addons) h = ((ground arith, ground arith), in_range cs addons (ground arith))

-- The last step of an item, once its parts are there.
made-IsPriced :
    (menu : List MenuItem) (rid : ℕ) (r : ItemRequest) (i : OrderItem) (m : MenuItem) (price : ℕ)
    (cs : List ChosenOption)
    → find (λ (x : MenuItem). x.id == r.menu_item_id) menu ≡ some m
    → m.restaurant_id ≡ rid
    → IsUnitPrice m r.variant_id price
    → IsSelection m.addons r.addon_option_ids cs
    → All (IsWithin cs) m.addons
    → i ≡ priced_item r price cs
    → IsPriced menu rid r i
made-IsPriced menu rid r i m price cs listed owned unit chosen within made = rw made (record {
  item = m;
  listed = listed;
  owned = owned;
  requested = (refl, refl, refl);
  unit = unit;
  chosen = chosen;
  within = within;
  total = refl;
})

-- What an item that is built went through.
build_item-parts :
    (menu : List MenuItem) (rid : ℕ) (r : ItemRequest) (i : OrderItem)
    → (build_item menu rid r tt).0 ≡ ok i
    → (m : MenuItem) × (price : ℕ) × (cs : List ChosenOption) × (find
          (λ (x : MenuItem). x.id == r.menu_item_id)
          menu
        ≡ some m)
      × (m.restaurant_id ≡ rid)
      × ((variant_price m r.variant_id tt).0 ≡ ok price)
      × (choose_options m.addons r.addon_option_ids ≡ ok cs)
      × (any (out_of_range cs) m.addons ≡ false)
      × (i ≡ priced_item r price cs)
unfolding build_item
build_item-parts menu rid r i h =
    elim (Option-cases (find (λ (x : MenuItem). x.id == r.menu_item_id) menu)) [
      | inl gone ↦ absurd (ground (arith, gone))
      | inr (m, found) ↦ elim (Bool-cases (m.restaurant_id == rid)) [
        | inr other ↦ absurd (ground (arith, found, other))
        | inl own ↦ elim (Result-cases (variant_price m r.variant_id tt).0) [
          | inl (e, bad) ↦ absurd (ground (arith, found, own, bad))
          | inr (price, unit) ↦ elim (Result-cases (choose_options m.addons r.addon_option_ids)) [
            | inl (e, bad) ↦ absurd (ground (arith, found, own, unit, bad))
            | inr (cs, chosen) ↦ elim (Bool-cases (any (out_of_range cs) m.addons)) [
              | inl out ↦ absurd (ground (arith, found, own, unit, chosen, out))
              | inr inside ↦
                  let made : ok (priced_item r price cs) ≡ ok i =
                    ground (arith, found, own, unit, chosen, inside) in
                  (m, price, cs, found, ground arith, unit, chosen, inside, cc)
            ]
          ]
        ]
      ]
    ]

build_item-IsPriced :
    (menu : List MenuItem) (rid : ℕ) (r : ItemRequest) (i : OrderItem)
    → (build_item menu rid r tt).0 ≡ ok i
    → IsPriced menu rid r i
build_item-IsPriced menu rid r i h =
    let (m, price, cs, found, own, unit, chosen, inside, made) = build_item-parts menu rid r i h in
    made-IsPriced menu rid r i m price cs found own
      (variant_price-IsUnitPrice m r.variant_id tt price unit)
      (choose_options-IsSelection m.addons r.addon_option_ids cs chosen)
      (in_range cs m.addons inside) made

-- The items stand for the requests one by one.
unfoldable pub AllPriced : List MenuItem → ℕ → List ItemRequest → List OrderItem → Type 0
AllPriced menu rid [] [] = Unit
AllPriced menu rid (r ∷ rs) (i ∷ items) = IsPriced menu rid r i × AllPriced menu rid rs items
AllPriced menu rid rs items = ⊥

-- Where the items of an order are accepted, there is one for each request, in order: its menu item
-- is on the menu and of the restaurant that the order names, its unit price is the menu's or its
-- variant's, its options are exactly those asked for, each available and at the menu's price, the
-- choices of every addon are within the addon's bounds, and its total is the unit price and the
-- options' prices, times the quantity.
pub order_items-AllPriced :
    (menu : List MenuItem) (restaurant_id : ℕ) (rs : List ItemRequest) (items : List OrderItem)
    → order_items menu restaurant_id rs ≡ ok items
    → AllPriced menu restaurant_id rs items
unfolding build_items AllPriced
order_items-AllPriced menu rid [] [] h = tt
order_items-AllPriced menu rid [] (i ∷ items) h = absurd cc
order_items-AllPriced menu rid (r ∷ rs) items h = elim (Result-cases (build_item menu rid r tt).0) [
  | inl (e, bad) ↦ absurd (ground (arith, bad))
  | inr (i, good) ↦ elim (Result-cases (build_items menu rid rs tt).0) [
    | inl (e, bad) ↦ absurd (ground (arith, good, bad))
    | inr (rest, goods) ↦
        let made : ok (i ∷ rest) ≡ ok items = ground (arith, good, goods) in
        let same : items ≡ i ∷ rest = cc in
        subst (AllPriced menu rid (r ∷ rs)) (sym same)
          (build_item-IsPriced menu rid r i good, order_items-AllPriced menu rid rs rest goods)
  ]
]
