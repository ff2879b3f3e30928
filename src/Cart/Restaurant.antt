-- ===== src/Cart/Restaurant.antt =====
-- A cart holds the items of one restaurant.
use mathlib.Core.Path.{subst}
use patheya_express_platform.Common.{
  ℕ, ◌+◌, ◌≡◌, inl, inr, refl, false, not, ◌&&◌, Option, none, some, List, [], ◌∷◌, ◌==◌, find, any,
  All, All-append, All-filter, arith, Bool-cases, Option-cases,
}
use patheya_express_platform.Common.Table.{All-update_where}
use patheya_express_platform.Placement.Items.{MenuItem}
use patheya_express_platform.Cart.{
  Store, Cart, CartItem, AddCartItemDto, with_cart, has_conflict, is_other, is_filled, prepared,
  merged, line_of, is_same_line, update_quantity, with_quantity, has_id, without, cleared, put_item,
  add_item, has_variant, has_option, update_item_quantity, remove_item, clear_cart,
}

abbrev pub IsOf : List MenuItem → Option ℕ → CartItem → Type 0
IsOf menu restaurant_id i =
    (m : MenuItem) × (find (λ (x : MenuItem). x.id == i.menu_item_id) menu ≡ some m)
    × (some m.restaurant_id ≡ restaurant_id)

-- Every item of the cart is on the menu and of the cart's restaurant.
abbrev pub IsOne : List MenuItem → Cart → Type 0
IsOne menu c = All (IsOf menu c.restaurant_id) c.items

unclashed :
    (menu : List MenuItem) (rid : ℕ) (r : Option ℕ) (is : List CartItem)
    → (is_filled is && is_other rid r) ≡ false
    → All (IsOf menu r) is
    → All (IsOf menu (some rid)) is
unclashed menu rid r [] h all = tt
unclashed menu rid none (i ∷ is) h ((m, found, own), all) = absurd cc
unclashed menu rid (some other) (i ∷ is) h all =
    let same : other ≡ rid = ground (arith, h) in
    subst (λ r. All (IsOf menu (some r)) (i ∷ is)) same all

prepared-IsOne :
    (menu : List MenuItem) (rid : ℕ) (c : Cart) → IsOne menu c → IsOne menu (prepared rid c)
prepared-IsOne menu rid c all = elim (Bool-cases (has_conflict rid c)) [
  | inl clash ↦ rw clash tt
  | inr calm ↦ rw calm (unclashed menu rid c.restaurant_id c.items calm all)
]

update_quantity-IsOne :
    (menu : List MenuItem) (id quantity : ℕ) (c : Cart)
    → IsOne menu c
    → IsOne menu (update_quantity id quantity c)
update_quantity-IsOne menu id quantity c all =
    All-update_where (IsOf menu c.restaurant_id) (has_id id) (with_quantity quantity) c.items
      (λ i own. own) all

merged-IsOne :
    (menu : List MenuItem) (id : ℕ) (dto : AddCartItemDto) (c : Cart)
    → IsOf menu c.restaurant_id (line_of id dto)
    → IsOne menu c
    → IsOne menu (merged id dto c)
merged-IsOne menu id dto c own all = elim (Option-cases (find (is_same_line dto) c.items)) [
  | inl new ↦
      rw (new, merged)
        (All-append (IsOf menu c.restaurant_id) c.items (line_of id dto ∷ []) all (own, tt))
  | inr (i, there) ↦
      rw (there, merged) (update_quantity-IsOne menu i.id (i.quantity + dto.quantity) c all)
]

abbrev pub IsValid : Store → Type 0
IsValid s = (c : ℕ) → IsOne s.menu (s.cart c)

-- One call of any customer.
pub data Step (s : Store) : Store → Type 0 where
  added : (c : ℕ) (dto : AddCartItemDto) → Step s (add_item c dto s).1
  quantity_set : (c id quantity : ℕ) → Step s (update_item_quantity c id quantity s).1
  removed : (c id : ℕ) → Step s (remove_item c id s).1
  emptied : (c : ℕ) → Step s (clear_cart c s)

pub data Reach (s : Store) : Store → Type 0 where
  start : Reach s s
  next : {t u : Store} → Reach s t → Step t u → Reach s u

with_cart-IsValid :
    (c : ℕ) (cart : Cart) (s : Store) → IsOne s.menu cart → IsValid s → IsValid (with_cart c cart s)
with_cart-IsValid c cart s one valid d = elim (Bool-cases (d == c)) [
  | inl same ↦ rw same one
  | inr other ↦ rw other (valid d)
]

put_item-IsValid :
    (c : ℕ) (dto : AddCartItemDto) (rid : ℕ) (s : Store)
    → IsOf s.menu (some rid) (line_of s.next_id dto)
    → IsValid s
    → IsValid (put_item c dto rid s).1
put_item-IsValid c dto rid s own valid =
    elim (Bool-cases (has_conflict rid (s.cart c) && not dto.replace_existing)) [
      | inl clash ↦ rw (put_item, clash) valid
      | inr calm ↦
          rw (put_item, calm)
            (with_cart-IsValid c (merged s.next_id dto (prepared rid (s.cart c))) s
              (merged-IsOne s.menu s.next_id dto (prepared rid (s.cart c)) own
                (prepared-IsOne s.menu rid (s.cart c) (valid c)))
              valid)
    ]

add_item-IsValid :
    (c : ℕ) (dto : AddCartItemDto) (s : Store) → IsValid s → IsValid (add_item c dto s).1
unfolding add_item
add_item-IsValid c dto s valid =
    elim (Option-cases (find (λ (m : MenuItem). m.id == dto.menu_item_id) s.menu)) [
      | inl gone ↦ rw (add_item, gone) valid
      | inr (m, found) ↦ elim (Bool-cases m.is_available) [
        | inr off ↦ rw (add_item, found, off) valid
        | inl on ↦ elim (Bool-cases (has_variant m dto.variant_id)) [
          | inr bad ↦ rw (add_item, found, on, bad) valid
          | inl good ↦ elim (Bool-cases (any (λ id. not (has_option m id)) dto.addon_option_ids)) [
            | inl stray ↦ rw (add_item, found, on, good, stray) valid
            | inr known ↦
                rw (add_item, found, on, good, known)
                  (put_item-IsValid c dto m.restaurant_id s (m, found, refl) valid)
          ]
        ]
      ]
    ]

update_item_quantity-IsValid :
    (c id quantity : ℕ) (s : Store) → IsValid s → IsValid (update_item_quantity c id quantity s).1
unfolding update_item_quantity
update_item_quantity-IsValid c id quantity s valid =
    elim (Bool-cases (any (has_id id) (s.cart c).items)) [
      | inr gone ↦ rw (update_item_quantity, gone) valid
      | inl there ↦
          rw (update_item_quantity, there)
            (with_cart-IsValid c (update_quantity id quantity (s.cart c)) s
              (update_quantity-IsOne s.menu id quantity (s.cart c) (valid c)) valid)
    ]

remove_item-IsValid : (c id : ℕ) (s : Store) → IsValid s → IsValid (remove_item c id s).1
unfolding remove_item
remove_item-IsValid c id s valid = elim (Bool-cases (any (has_id id) (s.cart c).items)) [
  | inr gone ↦ rw (remove_item, gone) valid
  | inl there ↦
      rw (remove_item, there)
        (with_cart-IsValid c (without id (s.cart c)) s
          (All-filter (IsOf s.menu (s.cart c).restaurant_id) (λ (i : CartItem). not (i.id == id))
            (s.cart c).items (valid c))
          valid)
]

clear_cart-IsValid : (c : ℕ) (s : Store) → IsValid s → IsValid (clear_cart c s)
unfolding clear_cart
clear_cart-IsValid c s valid = with_cart-IsValid c (cleared (s.cart c)) s tt valid

Step-IsValid : (s t : Store) → Step s t → IsValid s → IsValid t
Step-IsValid s _ (added c dto) = add_item-IsValid c dto s
Step-IsValid s _ (quantity_set c id quantity) = update_item_quantity-IsValid c id quantity s
Step-IsValid s _ (removed c id) = remove_item-IsValid c id s
Step-IsValid s _ (emptied c) = clear_cart-IsValid c s

-- A cart never mixes restaurants: whatever calls of any customers follow each other, every item of
-- every cart is on the menu and of the restaurant that the cart names, if it was so before. The
-- menu stays what it is meanwhile.
pub one_restaurant : (s t : Store) → Reach s t → IsValid s → IsValid t
one_restaurant s _ start valid = valid
one_restaurant s _ (next {t} {u} reach step) valid =
    Step-IsValid t u step (one_restaurant s t reach valid)
