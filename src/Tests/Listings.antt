-- ===== src/Tests/Listings.antt =====
-- Listings, searches, wishes and restrictions on sample rows.
use sojourn_backend.Prelude.{
  ℕ, ◌≡◌, refl, false, not, none, some, [], ◌∷◌, map, All, Mem, ◌==◌, arith,
}
use sojourn_backend.Entities.{
  PropertyStatus, PropertyInspection, PropertyInspectionStatus, Review, User, UserActiveStatus,
}
use sojourn_backend.App.{World, Exception, err}
use sojourn_backend.Auth.Login.{login, login_with_google, user_with_password}
use sojourn_backend.Listings.Forms.{InspectionWord, InspectionChange, PropertyChange}
use sojourn_backend.Listings.Search.{SearchParams, remove_duplicates, join_reviews, reviews_of}
use sojourn_backend.Listings.Regroup.{remove_duplicates-join_reviews}
use sojourn_backend.Wishes.{AddToWishList, add_to_wish_list, is_wish, is_wished, wish_toggles}
use sojourn_backend.Users.{update_guest_status, restricted_user_is_refused}
use sojourn_backend.Tests.Accounts.{signing}
use sojourn_backend.Tests.Database.{list_orm}
use sojourn_backend.Tests.Samples.{on, villa, guest, sample}

abbrev inspection : PropertyInspection
inspection = record {
  id = 50;
  title = 21;
  status = PropertyInspectionStatus.approved;
  inspector_id = none;
  property_id = some 20;
  host_id = 30;
  inspection_date = on 1;
  date_approved = some 4;
  date_cancelled = none;
}

abbrev inspected : World
inspected = record sample { inspections = inspection ∷ [] }

-- The approval is taken back, and the price is asked to change, which is refused.
abbrev taken_back : InspectionChange
taken_back = record {
  title = none;
  inspection_date = none;
  inspector_id = none;
  inspection_status = some InspectionWord.other;
}

abbrev new_price : PropertyChange
new_price = record {
  host_id = some 30;
  title = none;
  price = some 12000;
  caution_fee = none;
  active_status = some PropertyStatus.active;
}

abbrev search : SearchParams
search = record {
  city = some 7;
  check_in_date = on 10;
  check_out_date = on 12;
  adults = 2;
  children = 0;
  cursor = 0;
  types_of_property = [];
  price = 5000;
  number_of_rooms = 3 ∷ 4 ∷ [];
  amenities = 2 ∷ [];
}

abbrev review : ℕ → ℕ → Review
review i property = record {
  id = i;
  rating = 5;
  message = 0;
  user_id = 40;
  booking_id = 10;
  property_id = property;
}

abbrev reviewed : World
reviewed = record sample { reviews = review 1 20 ∷ review 2 22 ∷ review 3 20 ∷ [] }

remove_duplicates-join_reviews_example :
    remove_duplicates (join_reviews list_orm reviewed (villa ∷ record villa { id = 22 } ∷ []))
    ≡ map
        (λ p. record { property = p; reviews = reviews_of list_orm reviewed p })
        (villa ∷ record villa { id = 22 } ∷ [])
remove_duplicates-join_reviews_example =
    remove_duplicates-join_reviews list_orm reviewed (villa ∷ record villa { id = 22 } ∷ [])
      (((λ e. ground arith), tt), (tt, tt))

abbrev wish : AddToWishList
wish = record { user_id = 40; property_id = 20 }

-- The wish, and another of the same guest
abbrev wished : World
wished = record sample {
  wishes =
      record { id = 1; user_id = 40; property_id = 21 }
      ∷ record { id = 2; user_id = 40; property_id = 20 }
      ∷ [];
}

wish_toggles_example :
    let w' = (add_to_wish_list list_orm wish wished).1 in
    (is_wished list_orm wish w' ≡ not (is_wished list_orm wish wished))
    × All (λ x. is_wish wish x ≡ false → Mem x w'.wishes) wished.wishes
    × All (λ x. is_wish wish x ≡ false → Mem x wished.wishes) w'.wishes
wish_toggles_example = wish_toggles list_orm wish wished

abbrev member : User
member = record guest { password = some 5; active = UserActiveStatus.restricted }

abbrev club : World
club = record sample { users = record guest { password = some 5 } ∷ [] }

restricted_user_is_refused_example :
    let w' = (update_guest_status list_orm 40 false club).1 in
    (user_with_password list_orm signing (λ p. p) 400 5 w' ≡ some member
      → login list_orm signing (λ p. p) 400 5 w' ≡ (err Exception.restricted, w'))
    × (list_orm.find_one User (λ x. x.email == 400) w'.users ≡ some member
        → login_with_google list_orm signing (λ p. p) 400 w' ≡ (err Exception.restricted, w'))
unfolding list_orm update_guest_status
restricted_user_is_refused_example =
    restricted_user_is_refused list_orm signing (λ p. p) 40 400 5 club member refl refl
