-- ===== src/Placement/Items.antt =====
-- The items of an order, from the menu's own rows: the first half of placeOrderInternal in
-- modules/orders/services/orders.service.ts. Prices are in paise.
use patheya_express_platform.Common.{
  ℕ, ◌+◌, ◌*◌, Bool, not, ◌||◌, Option, none, some, List, [], ◌∷◌, ltb, ◌==◌, if◌then◌else◌, find,
  any, count, sum_by, Action, ok, err, Result, bad_request, not_found, ◌>>=◌, ◌>>◌, pure, throw_if,
  or_throw,
}

pub record AddonOption : Type 0 where
  pub id : ℕ
  pub price : ℕ
  pub is_available : Bool

pub record Addon : Type 0 where
  pub min_selection : ℕ
  pub max_selection : ℕ
  pub options : List AddonOption

pub record Variant : Type 0 where
  pub id : ℕ
  pub price : ℕ

-- `restaurant_id` is that of the item's category.
pub record MenuItem : Type 0 where
  pub id : ℕ
  pub restaurant_id : ℕ
  pub base_price : ℕ
  pub is_available : Bool
  pub variants : List Variant
  pub addons : List Addon

-- An item as the customer asks for it.
pub record ItemRequest : Type 0 where
  pub menu_item_id : ℕ
  pub variant_id : Option ℕ
  pub addon_option_ids : List ℕ
  pub quantity : ℕ

pub record ChosenOption : Type 0 where
  pub addon_option_id : ℕ
  pub price : ℕ

pub record OrderItem : Type 0 where
  pub menu_item_id : ℕ
  pub variant_id : Option ℕ
  pub quantity : ℕ
  pub unit_price : ℕ
  pub total_price : ℕ
  pub addon_options : List ChosenOption

abbrev pub variant_price : MenuItem → Option ℕ → Action (Unit {0}) ℕ
variant_price m none s = (ok m.base_price, s)
variant_price m (some id) s = elim (find (λ (v : Variant). v.id == id) m.variants) [
  | none ↦ (err bad_request, s)
  | some v ↦ (ok v.price, s)
]

-- `optionIndex.get`: a Map keeps the last of two entries of a key, and ids are unique.
abbrev pub option_of : ℕ → List Addon → Option AddonOption
option_of id [] = none
option_of id (a ∷ addons) =
    let rest = option_of id addons in
    elim (find (λ (o : AddonOption). o.id == id) a.options) [ none ↦ rest | some o ↦ some o ]

abbrev pub choose : ℕ → Option AddonOption → Result ChosenOption
choose id none = err bad_request
choose id (some o) =
    if not o.is_available
    then err bad_request
    else ok (record { addon_option_id = o.id; price = o.price })

abbrev pub add_choice :
    Result ChosenOption → Result (List ChosenOption) → Result (List ChosenOption)
add_choice (ok c) (ok cs) = ok (c ∷ cs)
add_choice (ok c) (err e) = err e
add_choice (err e) rest = err e

-- `addonOptionsData`; the first option that is refused is thrown.
unfoldable pub choose_options : List Addon → List ℕ → Result (List ChosenOption)
choose_options addons [] = ok []
choose_options addons (id ∷ ids) =
    add_choice (choose id (option_of id addons)) (choose_options addons ids)

abbrev pub selected_count : Addon → List ChosenOption → ℕ
selected_count a chosen =
    count (λ (c : ChosenOption). any (λ (o : AddonOption). o.id == c.addon_option_id) a.options)
      chosen

abbrev pub out_of_range : List ChosenOption → Addon → Bool
out_of_range chosen a =
    ltb (selected_count a chosen) a.min_selection || ltb a.max_selection (selected_count a chosen)

abbrev pub addons_total : List ChosenOption → ℕ
addons_total = sum_by (λ c. c.price)

abbrev pub priced_item : ItemRequest → ℕ → List ChosenOption → OrderItem
priced_item r unit_price chosen = record {
  menu_item_id = r.menu_item_id;
  variant_id = r.variant_id;
  quantity = r.quantity;
  unit_price = unit_price;
  total_price = (unit_price + addons_total chosen) * r.quantity;
  addon_options = chosen;
}

abbrev pub lift : {S A : Type 0} → Result A → Action S A
lift r s = (r, s)

-- An element of `orderItems`; nothing is written, so that the state is the empty one.
unfoldable pub build_item : List MenuItem → ℕ → ItemRequest → Action (Unit {0}) OrderItem
build_item menu restaurant_id r = do
  item ← or_throw (find (λ (m : MenuItem). m.id == r.menu_item_id) menu) not_found
  throw_if (not (item.restaurant_id == restaurant_id)) bad_request
  unit_price ← variant_price item r.variant_id
  chosen ← lift (choose_options item.addons r.addon_option_ids)
  throw_if (any (out_of_range chosen) item.addons) bad_request
  pure (priced_item r unit_price chosen)

-- `orderItems`
unfoldable pub build_items :
    List MenuItem → ℕ → List ItemRequest → Action (Unit {0}) (List OrderItem)
unfolding build_item
build_items menu restaurant_id [] = pure []
build_items menu restaurant_id (r ∷ rs) = do
  item ← build_item menu restaurant_id r
  items ← build_items menu restaurant_id rs
  pure (item ∷ items)

-- `orderItems`, or what its first refused item throws.
abbrev pub order_items : List MenuItem → ℕ → List ItemRequest → Result (List OrderItem)
order_items menu restaurant_id rs = (build_items menu restaurant_id rs tt).0
