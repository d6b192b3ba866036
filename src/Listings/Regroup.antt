-- ===== src/Listings/Regroup.antt =====
-- `removeDuplicates` undoes the join of listings and reviews.
use sojourn_backend.Prelude.{
  ℕ, ◌≡◌, ◌≢◌, refl, sym, ◌∙◌, ap, true, false, none, some, List, [], ◌∷◌, ◌++◌, map, All,
  All-append, All-zip, All-every, ◌==◌, arith,
}
use mathlib.Core.List.{append_assoc, append-nil}
use sojourn_backend.Entities.{Property, Review}
use sojourn_backend.Orm.{Orm}
use sojourn_backend.App.{World}
use sojourn_backend.Listings.Search.{
  SearchRow, FoundListing, review_list, add_row, add_rows, remove_duplicates, joined_rows,
  reviews_of, join_reviews,
}

-- No listing of the list has the identifier.
abbrev IsNewTo : List FoundListing → ℕ → Type 0
IsNewTo fs k = All (λ f. f.property.id ≢ k) fs

abbrev pub DistinctIds : List Property → Type 0
DistinctIds [] = Unit
DistinctIds (p ∷ ps) = All (λ q. q.id ≢ p.id) ps × DistinctIds ps

add_row-new :
    (fs : List FoundListing) (r : SearchRow)
    → IsNewTo fs r.property.id
    → add_row fs r ≡ fs ++ record { property = r.property; reviews = review_list r.review } ∷ []
unfolding add_row
add_row-new [] r h = refl
add_row-new (f ∷ fs) r h =
    let miss : (f.property.id == r.property.id) ≡ false = ground (arith, h.0) in
    rw miss (ap (λ t. f ∷ t) (add_row-new fs r h.1))

add_row-last :
    (fs : List FoundListing) (p : Property) (rs : List Review) (r : Review)
    → IsNewTo fs p.id
    → add_row
        (fs ++ record { property = p; reviews = rs } ∷ [])
        (record { property = p; review = some r })
      ≡ fs ++ record { property = p; reviews = rs ++ r ∷ [] } ∷ []
unfolding add_row
add_row-last [] p rs r h = let hit : (p.id == p.id) ≡ true = ground arith in rw hit refl
add_row-last (f ∷ fs) p rs r h =
    let miss : (f.property.id == p.id) ≡ false = ground (arith, h.0) in
    rw miss (ap (λ t. f ∷ t) (add_row-last fs p rs r h.1))

add_rows-append :
    (fs : List FoundListing) (xs ys : List SearchRow)
    → add_rows fs (xs ++ ys) ≡ add_rows (add_rows fs xs) ys
unfolding add_rows
add_rows-append fs [] ys = refl
add_rows-append fs (x ∷ xs) ys = add_rows-append (add_row fs x) xs ys

more_reviews :
    (fs : List FoundListing) (p : Property) (seen rs : List Review)
    → IsNewTo fs p.id
    → add_rows
        (fs ++ record { property = p; reviews = seen } ∷ [])
        (map (λ x. record { property = p; review = some x }) rs)
      ≡ fs ++ record { property = p; reviews = seen ++ rs } ∷ []
unfolding add_rows
more_reviews fs p seen [] h =
    ap (λ t. fs ++ record { property = p; reviews = t } ∷ []) (sym (append-nil seen))
more_reviews fs p seen (r ∷ rs) h =
    ap (λ t. add_rows t (map (λ x. record { property = p; review = some x }) rs))
      (add_row-last fs p seen r h)
    ∙ more_reviews fs p (seen ++ r ∷ []) rs h
    ∙ ap (λ t. fs ++ record { property = p; reviews = t } ∷ []) (append_assoc seen (r ∷ []) rs)

add_rows-joined_rows :
    (fs : List FoundListing) (p : Property) (rs : List Review)
    → IsNewTo fs p.id
    → add_rows fs (joined_rows p rs) ≡ fs ++ record { property = p; reviews = rs } ∷ []
unfolding add_rows
add_rows-joined_rows fs p [] h = add_row-new fs (record { property = p; review = none }) h
add_rows-joined_rows fs p (r ∷ rs) h =
    ap (λ t. add_rows t (map (λ x. record { property = p; review = some x }) rs))
      (add_row-new fs (record { property = p; review = some r }) h)
    ∙ more_reviews fs p (r ∷ []) rs h

module _ (orm : Orm) (w : World) where
  abbrev with_reviews : Property → FoundListing
  with_reviews p = record { property = p; reviews = reviews_of orm w p }

  add_rows-join_reviews :
      (fs : List FoundListing) (ps : List Property)
      → DistinctIds ps
      → All (λ p. IsNewTo fs p.id) ps
      → add_rows fs (join_reviews orm w ps) ≡ fs ++ map with_reviews ps
  unfolding join_reviews add_rows
  add_rows-join_reviews fs [] d h = sym (append-nil fs)
  add_rows-join_reviews fs (p ∷ ps) d h =
      add_rows-append fs (joined_rows p (reviews_of orm w p)) (join_reviews orm w ps)
      ∙ ap (λ t. add_rows t (join_reviews orm w ps))
          (add_rows-joined_rows fs p (reviews_of orm w p) h.0)
      ∙ add_rows-join_reviews (fs ++ with_reviews p ∷ []) ps d.1 (
          All-zip (λ q. q.id ≢ p.id) (λ q. IsNewTo fs q.id) _
            (λ q ne new. All-append (λ f. f.property.id ≢ q.id) fs _ new ((λ e. ne (sym e)), tt)) ps
            d.0 h.1)
      ∙ append_assoc fs (with_reviews p ∷ []) (map with_reviews ps)

  -- The rows of the join of distinct listings and their reviews are put together again to the
  -- listings, each with all its reviews.
  pub remove_duplicates-join_reviews :
      (ps : List Property)
      → DistinctIds ps
      → remove_duplicates (join_reviews orm w ps)
        ≡ map (λ p. record { property = p; reviews = reviews_of orm w p }) ps
  unfolding remove_duplicates
  remove_duplicates-join_reviews ps d = add_rows-join_reviews [] ps d (All-every _ (λ p. tt) ps)
