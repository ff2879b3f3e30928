-- ===== src/Cart/Charge.antt =====
-- What the cart shows is what placing an order charges for the same items.
use patheya_express_platform.Common.{
  ℕ, ◌+◌, ◌*◌, ◌≡◌, refl, sym, ap, ◌∙◌, Option, none, some, List, [], ◌∷◌, ◌==◌, find, map, sum_by,
  All, ok,
}
use patheya_express_platform.Schema.{Coupon}
use patheya_express_platform.Pricing.{calculate, micros_per_paisa}
use patheya_express_platform.Pricing.Laws.{sum_items, calculate_total}
use patheya_express_platform.Placement.Place.{pricable}
use patheya_express_platform.Placement.Items.{
  MenuItem, Addon, ItemRequest, OrderItem, ChosenOption, option_of, order_items,
}
use patheya_express_platform.Placement.Menu.{
  IsPriced, IsOffered, IsUnitPrice, AllPriced, order_items-AllPriced,
}
use patheya_express_platform.Cart.{
  Cart, CartItem, line_total, line_price, unit_price, option_price, subtotal,
}

-- The request for a line of the cart.
abbrev pub request_of : CartItem → ItemRequest
request_of i = record {
  menu_item_id = i.menu_item_id;
  variant_id = i.variant_id;
  addon_option_ids = i.addon_option_ids;
  quantity = i.quantity;
}

options_total :
    (addons : List Addon) (cs : List ChosenOption)
    → All (IsOffered addons) cs
    → sum_by
        (λ id. option_price (option_of id addons))
        (map (λ (c : ChosenOption). c.addon_option_id) cs)
      ≡ sum_by (λ (c : ChosenOption). c.price) cs
options_total addons [] h = refl
options_total addons (c ∷ cs) (offered, rest) =
    rw (offered.listed, options_total addons cs rest, offered.priced) refl

IsUnitPrice-unit_price :
    (m : MenuItem) (v : Option ℕ) (price : ℕ) → IsUnitPrice m v price → price ≡ unit_price m v
IsUnitPrice-unit_price m none price h = h
IsUnitPrice-unit_price m (some id) price (v, found, same) = rw (unit_price, found) same

line_found :
    (menu : List MenuItem) (i : CartItem) (m : MenuItem)
    → find (λ (x : MenuItem). x.id == i.menu_item_id) menu ≡ some m
    → line_total menu i ≡ line_price m i
line_found menu i m found = rw (line_total, found) refl

IsPriced-line_total :
    (menu : List MenuItem) (rid : ℕ) (i : CartItem) (o : OrderItem)
    → IsPriced menu rid (request_of i) o
    → o.total_price ≡ line_total menu i
IsPriced-line_total menu rid i o h =
    let (_, _, quantity) = h.requested in
    let (ids, offered) = h.chosen in
    let unit = IsUnitPrice-unit_price h.item i.variant_id o.unit_price h.unit in
    let options =
      sym (options_total h.item.addons o.addon_options offered)
      ∙ ap (sum_by (λ id. option_price (option_of id h.item.addons))) ids in
    h.total
    ∙ ap (λ q. (o.unit_price + sum_by (λ (c : ChosenOption). c.price) o.addon_options) * q) quantity
    ∙ ap (λ n. (o.unit_price + n) * i.quantity) options
    ∙ ap
        (λ n.
          (n + sum_by (λ id. option_price (option_of id h.item.addons)) i.addon_option_ids)
          * i.quantity)
        unit
    ∙ sym (line_found menu i h.item h.listed)

AllPriced-subtotal :
    (menu : List MenuItem) (rid : ℕ) (is : List CartItem) (items : List OrderItem)
    → AllPriced menu rid (map request_of is) items
    → sum_items (map pricable items) ≡ sum_by (line_total menu) is
unfolding AllPriced
AllPriced-subtotal menu rid [] [] h = refl
AllPriced-subtotal menu rid [] (o ∷ items) h = absurd h
AllPriced-subtotal menu rid (i ∷ is) [] h = absurd h
AllPriced-subtotal menu rid (i ∷ is) (o ∷ items) (priced, rest) =
    rw (IsPriced-line_total menu rid i o priced, AllPriced-subtotal menu rid is items rest) refl

-- What the cart shows is what is charged: where placing an order accepts the items of a cart, the
-- subtotal that the pricing engine makes of the order's items, whatever the coupon, is the subtotal
-- that the cart shows, in millionths of a rupee. Both read the same menu.
pub charged_as_shown :
    (menu : List MenuItem) (restaurant_id : ℕ) (c : Cart) (items : List OrderItem)
    (coupon : Option Coupon)
    → order_items menu restaurant_id (map request_of c.items) ≡ ok items
    → (calculate (map pricable items) coupon).subtotal ≡ subtotal menu c * micros_per_paisa
charged_as_shown menu rid c items coupon accepted =
    let priced = order_items-AllPriced menu rid (map request_of c.items) items accepted in
    let (total, _, _, _) = calculate_total (map pricable items) coupon in
    total ∙ ap (λ n. n * micros_per_paisa) (AllPriced-subtotal menu rid c.items items priced)
