-- ===== src/Cart/Examples.antt =====
-- Carts at concrete inputs: the runs that the properties of this component are applied to.
use patheya_express_platform.Common.{
  ◌*◌, ◌≡◌, refl, true, false, none, some, [], ◌∷◌, List, map, err, conflict,
}
use patheya_express_platform.Pricing.{calculate, micros_per_paisa}
use patheya_express_platform.Placement.Items.{
  MenuItem, OrderItem, build_items, build_item, choose_options,
}
use patheya_express_platform.Placement.Place.{pricable}
use patheya_express_platform.Cart.{Store, AddCartItemDto, add_item, update_item_quantity, subtotal}
use patheya_express_platform.Cart.Restaurant.{
  IsValid, start, next, added, quantity_set, one_restaurant,
}
use patheya_express_platform.Cart.Charge.{charged_as_shown}

abbrev dosa : MenuItem
dosa = record {
  id = 5;
  restaurant_id = 4;
  base_price = 9000;
  is_available = true;
  variants = record { id = 51; price = 11000 } ∷ [];
  addons =
      record {
        min_selection = 0;
        max_selection = 1;
        options = record { id = 91; price = 1500; is_available = true } ∷ [];
      }
      ∷ [];
}

abbrev pizza : MenuItem
pizza = record dosa { id = 6; restaurant_id = 8; base_price = 30000 }

abbrev store : Store
store = record {
  menu = dosa ∷ pizza ∷ [];
  cart = λ customer. record { restaurant_id = none; items = [] };
  next_id = 0;
}

abbrev two_dosas : AddCartItemDto
two_dosas = record {
  menu_item_id = 5;
  variant_id = some 51;
  addon_option_ids = 91 ∷ [];
  quantity = 2;
  replace_existing = false;
}

abbrev a_pizza : AddCartItemDto
a_pizza = record two_dosas { menu_item_id = 6; replace_existing = true }

abbrev with_dosas : Store
with_dosas = (add_item 3 two_dosas store).1

-- An item of another restaurant is refused, unless it may replace the cart.
other_refused :
    (add_item 3 (record a_pizza { replace_existing = false }) with_dosas).0 ≡ err conflict
unfolding add_item
other_refused = refl

replaced : ((add_item 3 a_pizza with_dosas).1.cart 3).restaurant_id ≡ some 8
unfolding add_item
replaced = refl

-- The same choice again adds to the line that is there.
one_line : subtotal with_dosas.menu ((add_item 3 two_dosas with_dosas).1.cart 3) ≡ 4 * 12500
unfolding add_item
one_line = refl

one_restaurant_example : IsValid (update_item_quantity 3 0 5 (add_item 3 a_pizza with_dosas).1).1
one_restaurant_example =
    one_restaurant store (update_item_quantity 3 0 5 (add_item 3 a_pizza with_dosas).1).1
      (next (next (next start (added 3 two_dosas)) (added 3 a_pizza)) (quantity_set 3 0 5))
      (λ customer. tt)

abbrev dosas_ordered : List OrderItem
dosas_ordered =
    record {
      menu_item_id = 5;
      variant_id = some 51;
      quantity = 2;
      unit_price = 11000;
      total_price = 25000;
      addon_options = record { addon_option_id = 91; price = 1500 } ∷ [];
    }
    ∷ []

charged_as_shown_example :
    (calculate (map pricable dosas_ordered) none).subtotal
    ≡ subtotal with_dosas.menu (with_dosas.cart 3) * micros_per_paisa
unfolding add_item build_items build_item choose_options
charged_as_shown_example =
    charged_as_shown with_dosas.menu 4 (with_dosas.cart 3) dosas_ordered none refl
