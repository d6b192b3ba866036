-- ===== src/Wishes.antt =====
-- Wish lists and reviews: src/repositories/wishlist.repository.ts, src/wishlist/wishlist.service.ts,
-- src/reviews/reviews.service.ts and src/repositories/reviews.repository.ts.
use sojourn_backend.Prelude.{
  ℕ, ◌-◌, ◌≡◌, ap, length, Bool, true, false, not, ◌&&◌, none, some, is_set, List, [], ◌∷◌, take,
  drop, Mem, All, All-map, All-zip, All-Mem, ◌≢◌, Option-cases, inl, inr, ◌==◌, arith,
}
use sojourn_backend.Entities.{Wish, Review, User, Booking, Property}
use sojourn_backend.Orm.{Orm}
use sojourn_backend.Orm.Saving.{saved_is_found, deleted_is_gone}
use sojourn_backend.App.{
  World, Handler, Result, ok, err, Exception, ◌>>=◌, gets, modify, deref, or_throw,
}
use sojourn_backend.Booking.Views.{there}

-- `AddToWishListType`
pub record AddToWishList : Type 0 where
  pub user_id : ℕ
  pub property_id : ℕ

-- `ReviewDto`
pub record ReviewDto : Type 0 where
  pub message : ℕ
  pub user_id : ℕ
  pub booking_id : ℕ
  pub rating : ℕ

-- A row of `transformWishlist`
pub record WishRow : Type 0 where
  pub id : ℕ
  pub user_id : ℕ
  pub price : ℕ

-- A row of `transformReviews`
pub record ReviewRow : Type 0 where
  pub message : ℕ
  pub rating : ℕ
  pub user_id : ℕ

abbrev pub is_wish : AddToWishList → Wish → Bool
is_wish dto x = (x.user_id == dto.user_id) && (x.property_id == dto.property_id)

module _ (orm : Orm) where
  -- `addToWishList`: a wish that is there is taken off the list.
  unfoldable pub add_to_wish_list : AddToWishList → Handler (Unit {0})
  add_to_wish_list dto = do
    existing ← gets λ w. orm.find_one Wish (is_wish dto) w.wishes
    modify λ w. record w {
      wishes = elim existing [
        | some x ↦ orm.delete Wish (is_wish dto) w.wishes
        | none ↦
            orm.save Wish (λ x. x.id)
              (record {
                id = orm.generate Wish (λ x. x.id) w.wishes;
                user_id = dto.user_id;
                property_id = dto.property_id;
              })
              w.wishes
      ];
    }

  -- `map` over the wishes, whose listing is read.
  unfoldable pub transform_wishlist : World → List Wish → Result (List WishRow)
  transform_wishlist w [] = ok []
  transform_wishlist w (x ∷ xs) =
      let rest = transform_wishlist w xs in
      there (orm.find_one Property (λ p. p.id == x.property_id) w.properties) λ p. elim rest [
        | err e ↦ err e
        | ok rows ↦ ok (record { id = p.id; user_id = x.user_id; price = p.price } ∷ rows)
      ]

  unfoldable pub get_wish_list_by_user_id : ℕ → World → Result (List WishRow)
  unfolding transform_wishlist
  get_wish_list_by_user_id user w =
      transform_wishlist w (orm.find Wish (λ x. x.user_id == user) w.wishes)

  abbrev pub is_wished : AddToWishList → World → Bool
  is_wished dto w = is_set (orm.find_one Wish (is_wish dto) w.wishes)

  -- A request for a wish puts it on the list if it is not there, and takes every row of it off if
  -- it is; every other wish stays, and no other is added.
  pub wish_toggles :
      (dto : AddToWishList) (w : World)
      → let w' = (add_to_wish_list dto w).1 in
        (is_wished dto w' ≡ not (is_wished dto w))
        × All (λ x. is_wish dto x ≡ false → Mem x w'.wishes) w.wishes
        × All (λ x. is_wish dto x ≡ false → Mem x w.wishes) w'.wishes
  unfolding add_to_wish_list
  wish_toggles dto w = elim (Option-cases (orm.find_one Wish (is_wish dto) w.wishes)) [
    | inr (x, e) ↦ rw e (
      ap is_set (deleted_is_gone orm (λ x. x.id) (is_wish dto) w.wishes),
      orm.delete_mem Wish (is_wish dto) w.wishes,
      orm.delete_all Wish _ (is_wish dto) w.wishes
          (All-map _ _ (λ y m _ _. m) w.wishes (All-Mem w.wishes)),
    )
    | inl e ↦ rw e (
      elim (Option-cases
          (orm.find_one Wish (is_wish dto) (orm.save Wish (λ x. x.id) new w.wishes))) [
            | inl missing ↦
                absurd
                  (saved_is_found orm (λ x. x.id) (is_wish dto) new w.wishes (ground arith) missing)
            | inr (x, found) ↦ ap is_set found
          ],
      All-zip (λ y. y.id ≢ new.id)
          (λ y. y.id ≢ new.id → Mem y (orm.save Wish (λ x. x.id) new w.wishes)) _
          (λ y fresh kept _. kept fresh) w.wishes (orm.generate_fresh Wish (λ x. x.id) w.wishes)
          (orm.save_mem Wish (λ x. x.id) new w.wishes),
      orm.save_all Wish _ (λ x. x.id) new w.wishes (λ miss. absurd (ground arith))
          (All-map _ _ (λ y m _ _. m) w.wishes (All-Mem w.wishes)),
    )
  ]
    where
      new : Wish
      new = record {
        id = orm.generate Wish (λ x. x.id) w.wishes;
        user_id = dto.user_id;
        property_id = dto.property_id;
      }

  -- `createReview` of the service and of the repository
  unfoldable pub create_review : ReviewDto → Handler (Unit {0})
  create_review dto = do
    user ←
        or_throw (← gets λ w. orm.find_one User (λ u. u.id == dto.user_id) w.users)
          Exception.user_not_found
    booking ←
        or_throw (← gets λ w. orm.find_one Booking (λ b. b.id == dto.booking_id) w.bookings)
          Exception.booking_not_found
    property ←
        deref (← gets λ w. orm.find_one Property (λ p. p.id == booking.property_id) w.properties)
    modify λ w. record w {
      reviews =
          orm.save Review (λ x. x.id)
            (record {
              id = orm.generate Review (λ x. x.id) w.reviews;
              rating = dto.rating;
              message = dto.message;
              user_id = dto.user_id;
              booking_id = dto.booking_id;
              property_id = property.id;
            })
            w.reviews;
    }

  -- A row of `transformReviews`, whose user is read
  unfoldable pub transform_reviews : World → List Review → Result (List ReviewRow)
  transform_reviews w [] = ok []
  transform_reviews w (x ∷ xs) =
      let rest = transform_reviews w xs in
      there (orm.find_one User (λ u. u.id == x.user_id) w.users) λ user. elim rest [
        | err e ↦ err e
        | ok rows ↦ ok (record { message = x.message; rating = x.rating; user_id = user.id } ∷ rows)
      ]

  -- `getReviews`: fifteen from a random offset; `random n` is `Math.floor(Math.random() * n)`
  unfoldable pub get_reviews : (ℕ → ℕ) → World → Result (List ReviewRow)
  unfolding transform_reviews
  get_reviews random w =
      let all = orm.find Review (λ r. true) w.reviews in
      transform_reviews w (take 15 (drop (random (length all - 6)) all))
