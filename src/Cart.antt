-- ===== src/Cart.antt =====
-- The cart: CartService and CartRepository of modules/cart, over the menu's rows. A customer without
-- a cart has the empty one, which `findOrCreateCart` creates.
pub mod Restaurant
pub mod Charge
mod Examples
use patheya_express_platform.Common.{
  ℕ, suc, ◌+◌, ◌*◌, Bool, true, false, not, ◌&&◌, ◌||◌, Option, none, some, List, [], ◌∷◌, ◌++◌,
  ◌==◌, if◌then◌else◌, find, filter, any, length, sum_by, map, Action, ok, err, bad_request,
  not_found, conflict, ◌>>=◌, ◌>>◌, pure, throw_if, or_throw, gets, modify,
}
use patheya_express_platform.Common.Table.{update_where}
use patheya_express_platform.Placement.Items.{MenuItem, Variant, Addon, AddonOption, option_of}

pub record CartItem : Type 0 where
  pub id : ℕ
  pub menu_item_id : ℕ
  pub variant_id : Option ℕ
  pub quantity : ℕ
  pub addon_option_ids : List ℕ

-- `items` are in the order of their creation.
pub record Cart : Type 0 where
  pub restaurant_id : Option ℕ
  pub items : List CartItem

pub record Store : Type 0 where
  pub menu : List MenuItem
  pub cart : (customer_id : ℕ) → Cart
  pub next_id : ℕ

pub record AddCartItemDto : Type 0 where
  pub menu_item_id : ℕ
  pub variant_id : Option ℕ
  pub addon_option_ids : List ℕ
  pub quantity : ℕ
  pub replace_existing : Bool

abbrev pub with_cart : ℕ → Cart → Store → Store
with_cart customer_id c s = record s { cart = λ id. if id == customer_id then c else s.cart id }

abbrev pub has_variant : MenuItem → Option ℕ → Bool
has_variant m none = true
has_variant m (some id) = any (λ (v : Variant). v.id == id) m.variants

abbrev pub has_option : MenuItem → ℕ → Bool
has_option m id = any (λ (a : Addon). any (λ (o : AddonOption). o.id == id) a.options) m.addons

abbrev is_other : ℕ → Option ℕ → Bool
is_other id none = false
is_other id (some other) = not (other == id)

abbrev is_filled : List CartItem → Bool
is_filled [] = false
is_filled (i ∷ is) = true

-- `hasConflict`
abbrev pub has_conflict : ℕ → Cart → Bool
has_conflict restaurant_id c = is_filled c.items && is_other restaurant_id c.restaurant_id

abbrev contains : List ℕ → ℕ → Bool
contains ids id = any (λ other. other == id) ids

-- The size of `addonSet`.
abbrev set_size : List ℕ → ℕ
set_size [] = 0
set_size (id ∷ ids) = let rest = set_size ids in if contains ids id then rest else suc rest

abbrev same_variant : Option ℕ → Option ℕ → Bool
same_variant none none = true
same_variant none (some id) = false
same_variant (some id) none = false
same_variant (some id) (some other) = id == other

-- The test of `existingItem`.
abbrev pub is_same_line : AddCartItemDto → CartItem → Bool
is_same_line dto i =
    (i.menu_item_id == dto.menu_item_id)
    && same_variant i.variant_id dto.variant_id
    && (length i.addon_option_ids == set_size dto.addon_option_ids)
    && not (any (λ id. not (contains dto.addon_option_ids id)) i.addon_option_ids)

abbrev pub has_id : ℕ → CartItem → Bool
has_id id i = i.id == id

abbrev pub with_quantity : ℕ → CartItem → CartItem
with_quantity quantity i = record i { quantity = quantity }

-- `updateQuantity`
abbrev pub update_quantity : ℕ → ℕ → Cart → Cart
update_quantity id quantity c = record c {
  items = update_where (has_id id) (with_quantity quantity) c.items;
}

abbrev pub line_of : ℕ → AddCartItemDto → CartItem
line_of id dto = record {
  id = id;
  menu_item_id = dto.menu_item_id;
  variant_id = dto.variant_id;
  quantity = dto.quantity;
  addon_option_ids = dto.addon_option_ids;
}

-- The quantity of the line that is there, or a new line.
abbrev pub merged : ℕ → AddCartItemDto → Cart → Cart
merged id dto c = elim (find (is_same_line dto) c.items) [
  | none ↦ record c { items = c.items ++ (line_of id dto ∷ []) }
  | some i ↦ update_quantity i.id (i.quantity + dto.quantity) c
]

abbrev pub cleared : Cart → Cart
cleared c = record c { items = [] }

-- The cart under the item's restaurant, its items cleared where they are another's. Setting the
-- restaurant that is set already changes nothing.
abbrev pub prepared : ℕ → Cart → Cart
prepared restaurant_id c = record {
  restaurant_id = some restaurant_id;
  items = if has_conflict restaurant_id c then [] else c.items;
}

abbrev pub put_item : ℕ → AddCartItemDto → ℕ → Action Store (Unit {0})
put_item customer_id dto restaurant_id s =
    if has_conflict restaurant_id (s.cart customer_id) && not dto.replace_existing
    then (err conflict, s)
    else (
      ok tt,
      record (with_cart customer_id
          (merged s.next_id dto (prepared restaurant_id (s.cart customer_id))) s) {
            next_id = suc s.next_id;
          },
    )

-- `addItem`, without the response.
unfoldable pub add_item : ℕ → AddCartItemDto → Action Store (Unit {0})
add_item customer_id dto = do
  menu ← gets (λ s. s.menu)
  m ← or_throw (find (λ (m : MenuItem). m.id == dto.menu_item_id) menu) not_found
  throw_if (not m.is_available) bad_request
  throw_if (not (has_variant m dto.variant_id)) bad_request
  throw_if (any (λ id. not (has_option m id)) dto.addon_option_ids) bad_request
  put_item customer_id dto m.restaurant_id

-- `findCartItem` looks among the items of the customer's own cart.
unfoldable pub update_item_quantity :
    (customer_id cart_item_id quantity : ℕ) → Action Store (Unit {0})
update_item_quantity customer_id id quantity s =
    if any (has_id id) (s.cart customer_id).items
    then (ok tt, with_cart customer_id (update_quantity id quantity (s.cart customer_id)) s)
    else (err not_found, s)

abbrev pub without : ℕ → Cart → Cart
without id c = record c { items = filter (λ (i : CartItem). not (i.id == id)) c.items }

unfoldable pub remove_item : (customer_id cart_item_id : ℕ) → Action Store (Unit {0})
remove_item customer_id id s =
    if any (has_id id) (s.cart customer_id).items
    then (ok tt, with_cart customer_id (without id (s.cart customer_id)) s)
    else (err not_found, s)

unfoldable pub clear_cart : (customer_id : ℕ) → Store → Store
clear_cart customer_id s = with_cart customer_id (cleared (s.cart customer_id)) s

abbrev pub option_price : Option AddonOption → ℕ
option_price none = 0
option_price (some o) = o.price

-- The price of a line's unit: a variant's or the base price.
abbrev pub unit_price : MenuItem → Option ℕ → ℕ
unit_price m none = m.base_price
unit_price m (some id) = elim (find (λ (v : Variant). v.id == id) m.variants) [
  | none ↦ m.base_price
  | some v ↦ v.price
]

abbrev pub line_price : MenuItem → CartItem → ℕ
line_price m i =
    (unit_price m i.variant_id
      + sum_by (λ id. option_price (option_of id m.addons)) i.addon_option_ids)
    * i.quantity

-- `lineTotal`. A line whose menu item is deleted is deleted with it, so the missing case is that of
-- no line.
abbrev pub line_total : List MenuItem → CartItem → ℕ
line_total menu i = elim (find (λ (m : MenuItem). m.id == i.menu_item_id) menu) [
  | none ↦ 0
  | some m ↦ line_price m i
]

-- `subtotal` and `totalItems` of `toCartResponse`.
abbrev pub subtotal : List MenuItem → Cart → ℕ
subtotal menu c = sum_by (line_total menu) c.items

abbrev pub total_items : Cart → ℕ
total_items c = sum_by (λ i. i.quantity) c.items
