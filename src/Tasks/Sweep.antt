-- ===== src/Tasks/Sweep.antt =====
-- What a sweep over the bookings does to the table, for any clause and any callback.
pub mod Pairs
pub mod Keys
use sojourn_backend.Prelude.{
  ◌≡◌, refl, sym, ◌∙◌, subst, ◌≢◌, ◌⊎◌, inl, inr, Bool, true, false, Option, none, some, List, [],
  ◌∷◌, All, All-map, All-zip, All-every, Bool-cases,
}
use sojourn_backend.Entities.{Booking}
use sojourn_backend.Orm.{Orm, HasKey}
use sojourn_backend.App.{World, Result, ok, err, Exception, set_bookings, promise_all}
use sojourn_backend.Tasks.BookingJobs.{Step, save_step, sweep}

-- Rows with one identifier are one row.
abbrev pub Matches : List Booking → Booking → Type 0
Matches rows x = All (λ r. x.id ≡ r.id → r ≡ x) rows

abbrev pub UniqueIds : List Booking → Type 0
UniqueIds t = All (λ r. All (λ x. x.id ≡ r.id → r ≡ x) t) t

abbrev Sole : Booking → List Booking → Type 0
Sole r t = All (λ x. x.id ≡ r.id → r ≡ x) t

-- The property of the row that is saved, or of the row itself if nothing is saved.
abbrev pub Leaves : (Booking → Type 0) → Booking → Result (Option Booking) → Type 0
Leaves P b (err e) = P b
Leaves P b (ok none) = P b
Leaves P b (ok (some b')) = P b' × (b'.id ≡ b.id)

-- The property of the row that is saved, if one is.
abbrev pub Saves : (Booking → Type 0) → Result (Option Booking) → Type 0
Saves P (err e) = Unit
Saves P (ok none) = Unit
Saves P (ok (some b')) = P b'

pub leaves :
    (P : Booking → Type 0) (b : Booking) (r : Result (Option Booking))
    → ((b' : Booking) → r ≡ ok (some b') → P b' × (b'.id ≡ b.id))
    → (r ≡ ok none → P b)
    → ((e : Exception) → r ≡ err e → P b)
    → Leaves P b r
leaves P b (err e) save leave fail = fail e refl
leaves P b (ok none) save leave fail = leave refl
leaves P b (ok (some b')) save leave fail = save b' refl

pub saves :
    (P : Booking → Type 0) (r : Result (Option Booking))
    → ((b' : Booking) → r ≡ ok (some b') → P b')
    → Saves P r
saves P (err e) save = tt
saves P (ok none) save = tt
saves P (ok (some b')) save = save b' refl

module _ (orm : Orm) where
  pub saved : Result (Option Booking) → List Booking → List Booking
  saved (err e) t = t
  saved (ok none) t = t
  saved (ok (some b)) t = orm.save Booking (λ x. x.id) b t

  pub save_each : Step → List Booking → List Booking → List Booking
  save_each step [] t = t
  save_each step (b ∷ bs) t = save_each step bs (saved (step b) t)

  world-save_step :
      (r : Result (Option Booking)) (w : World)
      → (save_step orm r w).1 ≡ set_bookings (saved r w.bookings) w
  unfolding save_step saved
  world-save_step (err e) w = refl
  world-save_step (ok none) w = refl
  world-save_step (ok (some b)) w = refl

  world-promise_all :
      (step : Step) (rows : List Booking) (w : World)
      → (promise_all rows (λ b. save_step orm (step b)) w).1
        ≡ set_bookings (save_each step rows w.bookings) w
  unfolding promise_all save_each
  world-promise_all step [] w = refl
  world-promise_all step (b ∷ bs) w = rw (world-save_step (step b) w) (world-promise_all step bs _)

  -- A sweep changes the bookings and nothing else, and only by saving.
  pub world-sweep :
      (clause : World → Booking → Bool) (step : World → Step) (w : World)
      → (sweep orm clause step w).1
        ≡ set_bookings (save_each (step w) (orm.find Booking (clause w) w.bookings) w.bookings) w
  unfolding sweep
  world-sweep clause step w = world-promise_all (step w) _ w

  saved-All :
      (P : Booking → Type 0) (r : Result (Option Booking)) (t : List Booking)
      → Saves P r
      → All P t
      → All P (saved r t)
  unfolding saved
  saved-All P (err e) t s h = h
  saved-All P (ok none) t s h = h
  saved-All P (ok (some b)) t s h =
      orm.save_all Booking P (λ x. x.id) b t s (All-map P (λ x. x.id ≢ b.id → P x) (λ x p _. p) t h)

  save_each-All :
      (P : Booking → Type 0) (step : Step) (rows t : List Booking)
      → All (λ b. Saves P (step b)) rows
      → All P t
      → All P (save_each step rows t)
  unfolding save_each
  save_each-All P step [] t s h = h
  save_each-All P step (b ∷ bs) t s h =
      save_each-All P step bs (saved (step b) t) s.1 (saved-All P (step b) t s.0 h)

  -- An invariant of the rows that every saved row has is kept.
  pub sweep-All :
      (P : Booking → Type 0) (clause : World → Booking → Bool) (step : World → Step) (w : World)
      → ((b : Booking) → clause w b ≡ true → P b → Saves P (step w b))
      → All P w.bookings
      → All P (sweep orm clause step w).1.bookings
  sweep-All P clause step w keep h = rw (world-sweep clause step w) (
      save_each-All P (step w) _ w.bookings
        (All-zip (λ b. clause w b ≡ true) P (λ b. Saves P (step w b)) keep _
          (orm.find_sound Booking (clause w) w.bookings)
          (orm.find_keeps Booking P (clause w) w.bookings h))
        h)

  -- What is still to do for a row while the loop runs: nothing, or it is one of the rows left.
  abbrev Due : (Booking → Type 0) → List Booking → Booking → Type 0
  Due P rest x = P x ⊎ (HasKey (λ b. b.id) x.id rest × Matches rest x)

  Due-saved :
      (P : Booking → Type 0) (b b' x : Booking) (bs : List Booking)
      → b'.id ≡ b.id
      → x.id ≢ b'.id
      → Due P (b ∷ bs) x
      → Due P bs x
  Due-saved P b b' x bs e ne (inl p) = inl p
  Due-saved P b b' x bs e ne (inr (inl k, m)) = absurd (ne (sym (k) ∙ sym e))
  Due-saved P b b' x bs e ne (inr (inr k, m)) = inr (k, m.1)

  Due-left :
      (P : Booking → Type 0) (b x : Booking) (bs : List Booking)
      → P b
      → Due P (b ∷ bs) x
      → Due P bs x
  Due-left P b x bs pb (inl p) = inl p
  Due-left P b x bs pb (inr (inl k, m)) = inl (subst P (m.0 (sym k)) pb)
  Due-left P b x bs pb (inr (inr k, m)) = inr (k, m.1)

  saved-Due :
      (P : Booking → Type 0) (b : Booking) (bs : List Booking) (r : Result (Option Booking))
      (t : List Booking)
      → Leaves P b r
      → All (Due P (b ∷ bs)) t
      → All (Due P bs) (saved r t)
  unfolding saved
  saved-Due P b bs (err e) t l h =
      All-map (Due P (b ∷ bs)) (Due P bs) (λ x. Due-left P b x bs l) t h
  saved-Due P b bs (ok none) t l h =
      All-map (Due P (b ∷ bs)) (Due P bs) (λ x. Due-left P b x bs l) t h
  saved-Due P b bs (ok (some b')) t l h =
      orm.save_all Booking (Due P bs) (λ x. x.id) b' t (inl l.0)
        (All-map (Due P (b ∷ bs)) (λ x. x.id ≢ b'.id → Due P bs x)
          (λ x d ne. Due-saved P b b' x bs l.1 ne d) t h)

  save_each-settles :
      (P : Booking → Type 0) (step : Step) (rows t : List Booking)
      → All (λ b. Leaves P b (step b)) rows
      → All (Due P rows) t
      → All P (save_each step rows t)
  unfolding save_each
  save_each-settles P step [] t l h = All-map (Due P []) P done t h
    where
      done : (x : Booking) → Due P [] x → P x
      done x (inl p) = p
      done x (inr (k, m)) = absurd k
  save_each-settles P step (b ∷ bs) t l h =
      save_each-settles P step bs (saved (step b) t) l.1 (saved-Due P b bs (step b) t l.0 h)

  -- Every row comes to have a property that holds of the rows that the clause leaves out, and
  -- that the callback gives each row that it meets, given an invariant of the rows.
  pub sweep_settles :
      (P Q : Booking → Type 0) (clause : World → Booking → Bool) (step : World → Step) (w : World)
      → UniqueIds w.bookings
      → ((b : Booking) → clause w b ≡ false → P b)
      → ((b : Booking) → clause w b ≡ true → Q b → Leaves P b (step w b))
      → All Q w.bookings
      → All P (sweep orm clause step w).1.bookings
  sweep_settles P Q clause step w unique left_out met inv = rw (world-sweep clause step w) (
      save_each-settles P (step w) rows w.bookings
        (All-zip (λ b. clause w b ≡ true) Q (λ b. Leaves P b (step w b)) met rows
          (orm.find_sound Booking (clause w) w.bookings)
          (orm.find_keeps Booking Q (clause w) w.bookings inv))
        (All-zip (λ x. clause w x ≡ true → HasKey (λ b. b.id) x.id rows) (Matches rows) (Due P rows)
          due w.bookings (orm.find_complete Booking (λ b. b.id) (clause w) w.bookings)
          (transpose w.bookings (orm.find_keeps Booking _ (clause w) w.bookings unique))))
    where
      rows : List Booking
      rows = orm.find Booking (clause w) w.bookings

      due :
          (x : Booking)
          → (clause w x ≡ true → HasKey (λ b. b.id) x.id rows)
          → Matches rows x
          → Due P rows x
      due x k m = elim (Bool-cases (clause w x)) [
        | inl e ↦ inr (k e, m)
        | inr e ↦ inl (left_out x e)
      ]

      transpose :
          (t : List Booking)
          → All (λ r. All (λ x. x.id ≡ r.id → r ≡ x) t) rows
          → All (Matches rows) t
      transpose [] h = tt
      transpose (x ∷ t) h = (
        All-map (λ r. All (λ y. y.id ≡ r.id → r ≡ y) (x ∷ t)) (λ r. x.id ≡ r.id → r ≡ x)
            (λ r a. a.0) rows h,
        transpose t (
            All-map (λ r. All (λ y. y.id ≡ r.id → r ≡ y) (x ∷ t))
              (λ r. All (λ y. y.id ≡ r.id → r ≡ y) t) (λ r a. a.1) rows h),
      )

  saved-UniqueIds :
      (r : Result (Option Booking)) (t : List Booking) → UniqueIds t → UniqueIds (saved r t)
  unfolding saved
  saved-UniqueIds (err e) t u = u
  saved-UniqueIds (ok none) t u = u
  saved-UniqueIds (ok (some b)) t u =
      orm.save_all Booking (λ r. Sole r (orm.save Booking (λ x. x.id) b t)) (λ x. x.id) b t
        (orm.save_all Booking (λ x. x.id ≡ b.id → b ≡ x) (λ x. x.id) b t (λ _. refl)
          (All-every _ (λ x ne e. absurd (ne e)) t))
        (All-map (λ r. Sole r t) _
          (λ r sole ne.
            orm.save_all Booking (λ x. x.id ≡ r.id → r ≡ x) (λ x. x.id) b t
              (λ e. absurd (ne (sym e)))
              (All-map (λ x. x.id ≡ r.id → r ≡ x) _ (λ x same _. same) t sole))
          t u)

  save_each-UniqueIds :
      (step : Step) (rows t : List Booking) → UniqueIds t → UniqueIds (save_each step rows t)
  unfolding save_each
  save_each-UniqueIds step [] t u = u
  save_each-UniqueIds step (b ∷ bs) t u =
      save_each-UniqueIds step bs (saved (step b) t) (saved-UniqueIds (step b) t u)

  pub sweep-UniqueIds :
      (clause : World → Booking → Bool) (step : World → Step) (w : World)
      → UniqueIds w.bookings
      → UniqueIds (sweep orm clause step w).1.bookings
  sweep-UniqueIds clause step w u =
      rw (world-sweep clause step w) (save_each-UniqueIds (step w) _ w.bookings u)

  pub payments-sweep :
      (clause : World → Booking → Bool) (step : World → Step) (w : World)
      → (sweep orm clause step w).1.payments ≡ w.payments
  payments-sweep clause step w = rw (world-sweep clause step w)
