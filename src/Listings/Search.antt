-- ===== src/Listings/Search.antt =====
-- The search for listings: `findPropertiesBySearch` and `findPropertiesByParams`. The texts of a
-- search come as numbers, split at their commas. Of a listing that is found, the columns that are
-- only displayed are left out.
use sojourn_backend.Prelude.{
  ℕ, ◌+◌, ◌*◌, leb, Bool, true, false, not, ◌&&◌, ◌||◌, Option, none, some, is_set, List, [], ◌∷◌,
  ◌++◌, map, length, take, drop, ◌==◌, if◌then◌else◌,
}
use sojourn_backend.Entities.{Booking, Property, Review, is_active, is_cancelled}
use sojourn_backend.Orm.{Orm, where_eq}
use sojourn_backend.App.{World, Handler, Exception, ◌>>=◌, ◌>>◌, gets, throw_if}

-- A word of `typesOfProperty`
pub data TypeWord : Type 0 where
  blank town_house smart_share prime_inn : TypeWord
  named : ℕ → TypeWord

-- `PropertySearchQueriesKeysSql`
pub record SearchParams : Type 0 where
  pub city : Option ℕ
  pub check_in_date : ℕ
  pub check_out_date : ℕ
  pub adults : ℕ
  pub children : ℕ
  pub cursor : ℕ
  pub types_of_property : List ℕ
  -- 0 if there is none
  pub price : ℕ
  pub number_of_rooms : List ℕ
  pub amenities : List ℕ

-- The numbers of the texts 'town-house', 'smart-share', 'prime-inn', and of the cities.
abbrev town_house_type : ℕ
town_house_type = 1

abbrev smart_share_type : ℕ
smart_share_type = 2

abbrev prime_inn_type : ℕ
prime_inn_type = 3

abbrev pub benin : ℕ
benin = 7

abbrev pub other_cities : List ℕ
other_cities = 1 ∷ 2 ∷ 3 ∷ 4 ∷ 5 ∷ 6 ∷ []

unfoldable pub format_property_types : List TypeWord → List ℕ
format_property_types [] = []
format_property_types (TypeWord.blank ∷ ts) = format_property_types ts
format_property_types (TypeWord.town_house ∷ ts) = town_house_type ∷ format_property_types ts
format_property_types (TypeWord.smart_share ∷ ts) = smart_share_type ∷ format_property_types ts
format_property_types (TypeWord.prime_inn ∷ ts) = prime_inn_type ∷ format_property_types ts
format_property_types (TypeWord.named t ∷ ts) = t ∷ format_property_types ts

abbrev pub includes : List ℕ → ℕ → Bool
includes [] k = false
includes (x ∷ xs) k = (x == k) || includes xs k

abbrev overlaps : List ℕ → List ℕ → Bool
overlaps [] ys = false
overlaps (x ∷ xs) ys = includes ys x || overlaps xs ys

abbrev is_nil : List ℕ → Bool
is_nil [] = true
is_nil (x ∷ xs) = false

-- `filter((v) => v !== 4)`
abbrev others_than_four : List ℕ → List ℕ
others_than_four [] = []
others_than_four (x ∷ xs) = let rest = others_than_four xs in if x == 4 then rest else x ∷ rest

-- Four rooms stand for four or more.
unfoldable pub rooms_match : List ℕ → ℕ → Bool
rooms_match rooms n =
    if is_nil rooms
    then true
    else if includes rooms 4 && (length rooms == 1)
    then leb 4 n
    else if includes rooms 4
    then leb 4 n || includes (others_than_four rooms) n
    else includes rooms n

-- `IN ()` is no SQL: the text of the query has no number left.
unfoldable pub rooms_empty_in : List ℕ → Bool
rooms_empty_in rooms =
    includes rooms 4 && (not (length rooms == 1) && is_nil (others_than_four rooms))

-- The conditions up to the amenities, without that on the city
unfoldable pub filters_match : SearchParams → Property → Bool
unfolding rooms_match
filters_match v p =
    is_active p.active_status
    && ((is_nil v.types_of_property || includes v.types_of_property p.type_of_property)
        && (rooms_match v.number_of_rooms p.number_of_rooms
            && (((v.price == 0) || leb v.price p.price)
                && (is_nil v.amenities || overlaps v.amenities p.ammenities))))

-- The booking of the subquery
unfoldable pub clashes : SearchParams → Property → Booking → Bool
clashes v p b =
    (b.property_id == p.id)
    && (not (is_cancelled b.status)
        && ((leb b.check_in v.check_in_date && leb v.check_in_date b.check_out)
            || ((leb b.check_in v.check_out_date && leb v.check_out_date b.check_out)
                || (leb v.check_in_date b.check_in && leb b.check_out v.check_out_date))))

-- A row of the join of listings and reviews
pub record SearchRow : Type 0 where
  pub property : Property
  pub review : Option Review

-- A listing that is found, with its reviews
pub record FoundListing : Type 0 where
  pub property : Property
  pub reviews : List Review

abbrev pub review_list : Option Review → List Review
review_list none = []
review_list (some r) = r ∷ []

-- A step of the loop of `removeDuplicates`
unfoldable pub add_row : List FoundListing → SearchRow → List FoundListing
add_row [] r = record { property = r.property; reviews = review_list r.review } ∷ []
add_row (f ∷ fs) r =
    let rest = add_row fs r in
    if f.property.id == r.property.id
    then record f { reviews = f.reviews ++ review_list r.review } ∷ fs
    else f ∷ rest

unfoldable pub add_rows : List FoundListing → List SearchRow → List FoundListing
unfolding add_row
add_rows fs [] = fs
add_rows fs (r ∷ rs) = add_rows (add_row fs r) rs

unfoldable pub remove_duplicates : List SearchRow → List FoundListing
unfolding add_rows
remove_duplicates rows = add_rows [] rows

-- The rows of one listing in the join: one for each review, or one without.
abbrev pub joined_rows : Property → List Review → List SearchRow
joined_rows p [] = record { property = p; review = none } ∷ []
joined_rows p (r ∷ rs) = map (λ x. record { property = p; review = some x }) (r ∷ rs)

-- The listings and the number of rows
pub record SearchResult : Type 0 where
  pub listings : List FoundListing
  pub total : ℕ

module _ (orm : Orm) where
  abbrev pub reviews_of : World → Property → List Review
  reviews_of w p = orm.find Review (λ r. r.property_id == p.id) w.reviews

  -- `leftJoinAndSelect('property.reviews')`
  unfoldable pub join_reviews : World → List Property → List SearchRow
  join_reviews w [] = []
  join_reviews w (p ∷ ps) = joined_rows p (reviews_of w p) ++ join_reviews w ps

  abbrev pub is_free : SearchParams → World → Property → Bool
  is_free v w p = not (is_set (orm.find_one Booking (clashes v p) w.bookings))

  -- The text of the query, in which AND binds more tightly than OR. `brackets` says whether the
  -- query builder puts a condition in brackets: the one on the cities is a text `x OR y`.
  unfoldable pub search_matches : Bool → SearchParams → World → Property → Bool
  unfolding filters_match clashes
  search_matches brackets v w p = elim v.city [
    | some c ↦ filters_match v p && ((p.city == c) && is_free v w p)
    | none ↦
        if brackets
        then filters_match v p
          || ((includes other_cities p.city || (p.city == benin)) && is_free v w p)
        else filters_match v p
          || (includes other_cities p.city || ((p.city == benin) && is_free v w p))
  ]

  -- The search while there is no booking
  unfoldable pub simple_matches : SearchParams → Property → Bool
  simple_matches v p =
      where_eq orm (some p.city) v.city
      && (leb (v.adults + v.children) p.number_of_rooms
          && (leb (v.adults + v.children) p.max_number_of_people && is_active p.active_status))

  unfoldable pub simple_search : SearchParams → Handler SearchResult
  unfolding simple_matches
  simple_search v = gets λ w.
      let found = orm.find Property (simple_matches v) w.properties in
      record {
        listings =
            map (λ p. record { property = p; reviews = reviews_of w p })
              (take 6 (drop (v.cursor * 6) found));
        total = length found;
      }

  unfoldable pub query_search : Bool → SearchParams → Handler SearchResult
  unfolding search_matches join_reviews remove_duplicates rooms_empty_in
  query_search brackets v = do
    throw_if (rooms_empty_in v.number_of_rooms) Exception.internal
    gets λ w.
        let rows = join_reviews w (orm.find Property (search_matches brackets v w) w.properties) in
        record {
          listings = remove_duplicates (take 6 (drop (v.cursor * 6) rows));
          total = length rows;
        }

  unfoldable pub find_properties_by_params : Bool → SearchParams → Handler SearchResult
  unfolding simple_search query_search
  find_properties_by_params brackets v = do
    bookings ← gets λ w. length (orm.find Booking (λ _. true) w.bookings)
    (if bookings == 0 then simple_search v else query_search brackets v)

  -- `findPropertiesBySearch`, of a request whose types of listings are still words
  unfoldable pub find_properties_by_search :
      Bool → List TypeWord → SearchParams → Handler SearchResult
  unfolding find_properties_by_params format_property_types
  find_properties_by_search brackets words v =
      find_properties_by_params brackets
        (record v { types_of_property = format_property_types words })
