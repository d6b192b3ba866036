-- ===== src/System/Table.antt =====
-- The table of bookings: what the handlers and the jobs keep of it.
use sojourn_backend.Prelude.{
  ℕ, ◌≤◌, ◌≡◌, ◌≢◌, refl, sym, ap, ◌∙◌, Bool, true, false, some, List, All, All-map, Option, arith,
}
use sojourn_backend.Entities.{Booking, BookingStatus, Payment}
use sojourn_backend.Orm.{Orm}
use sojourn_backend.Orm.Pairwise.{Pairwise, save-Pairwise, update-Pairwise}
use sojourn_backend.App.{Result, ok}
use sojourn_backend.Booking.Availability.{is_active_booking}
use sojourn_backend.Tasks.BookingJobs.{progress_booking, finish_booking, expire_booking}
use sojourn_backend.Tasks.Sweep.{UniqueIds, Saves, saves}
use sojourn_backend.Tasks.Lifecycle.{IsTimely}

-- Two bookings of one property that are neither cancelled nor finished have no instant in common.
abbrev pub Apart : Booking → Booking → Type 0
Apart a b =
    a.id ≢ b.id
    → is_active_booking a.property_id a ≡ true
    → is_active_booking a.property_id b ≡ true
    → ¬ ((t : ℕ) × (a.check_in ≤ t) × (t ≤ a.check_out) × (b.check_in ≤ t) × (t ≤ b.check_out))

-- Bookings have distinct identifiers, their states fit the clock, and no property is booked twice
-- over.
pub record IsSound (now : ℕ) (t : List Booking) : Type 0 where
  pub unique : UniqueIds t
  pub timely : All (IsTimely now) t
  pub apart : Pairwise Apart t

pub own-Apart : (a : Booking) → Apart a a
own-Apart a ne = absurd (ne refl)

pub mirror-Apart : (a b : Booking) → Apart a b → Apart b a
unfolding is_active_booking
mirror-Apart a b h ne x y (t, p, q, r, s) =
    h (λ e. ne (sym e)) (ground arith) (ground arith) (t, r, s, p, q)

-- A booking that stays where it is and becomes active at no time.
pub weaken-Apart :
    (b b' x : Booking)
    → b'.id ≡ b.id
    → b'.property_id ≡ b.property_id
    → b'.check_in ≡ b.check_in
    → b'.check_out ≡ b.check_out
    → (is_active_booking b'.property_id b' ≡ true → is_active_booking b.property_id b ≡ true)
    → Apart b x
    → Apart b' x
weaken-Apart b b' x ei ep ec eo active h ne p q (t, r1, r2, r3, r4) =
    h (λ e. ne (ei ∙ e)) (active p) (rw (sym ep) q) (t, rw (sym ec) r1, rw (sym eo) r2, r3, r4)

pub later-IsTimely : (now later : ℕ) (b : Booking) → now ≤ later → IsTimely now b → IsTimely later b
later-IsTimely now later b h t = record {
  in_order = t.in_order;
  begun = λ e. let s = t.begun e in omega arith;
  ended = λ e. let s = t.ended e in omega arith;
}

pub progress-IsTimely :
    (now : ℕ) (b : Booking) → IsTimely now b → Saves (IsTimely now) (progress_booking now b)
unfolding progress_booking
progress-IsTimely now b t = saves (IsTimely now) (progress_booking now b) (λ b' e.
    let order = t.in_order in
    record {
      in_order = ground arith;
      begun = λ q. ground arith;
      ended = λ q. absurd (ground arith);
    })

pub finish-IsTimely :
    (now : ℕ) (b : Booking) → IsTimely now b → Saves (IsTimely now) (finish_booking now b)
unfolding finish_booking
finish-IsTimely now b t = saves (IsTimely now) (finish_booking now b) (λ b' e.
    let order = t.in_order in
    record {
      in_order = ground arith;
      begun = λ q. absurd (ground arith);
      ended = λ q. ground arith;
    })

pub expire-IsTimely :
    (now : ℕ) (crypto : Bool) (clock : ℕ) (pay : Booking → Option Payment) (b : Booking)
    → IsTimely now b
    → Saves (IsTimely now) (expire_booking crypto clock pay b)
unfolding expire_booking
expire-IsTimely now crypto clock pay b t =
    saves (IsTimely now) (expire_booking crypto clock pay b) (λ b' e.
      let order = t.in_order in
      record {
        in_order = ground arith;
        begun = λ q. absurd (ground arith);
        ended = λ q. absurd (ground arith);
      })

abbrev KeepsApart : Booking → Result (Option Booking) → Type 0
KeepsApart b r = (b' : Booking) → r ≡ ok (some b') → (x : Booking) → Apart b x → Apart b' x

pub progress-Apart :
    (now : ℕ) (b : Booking) → IsTimely now b → KeepsApart b (progress_booking now b)
unfolding progress_booking is_active_booking
progress-Apart now b t b' e x =
    let order = t.in_order in
    let ended = t.ended in
    weaken-Apart b b' x (ground arith) (ground arith) (ground arith) (ground arith)
      (λ a. ground (arith, ended))

pub finish-Apart : (now : ℕ) (b : Booking) → KeepsApart b (finish_booking now b)
unfolding finish_booking is_active_booking
finish-Apart now b b' e x =
    weaken-Apart b b' x (ground arith) (ground arith) (ground arith) (ground arith)
      (λ a. absurd (ground arith))

pub expire-Apart :
    (crypto : Bool) (now : ℕ) (pay : Booking → Option Payment) (b : Booking)
    → KeepsApart b (expire_booking crypto now pay b)
unfolding expire_booking is_active_booking
expire-Apart crypto now pay b b' e x =
    weaken-Apart b b' x (ground arith) (ground arith) (ground arith) (ground arith)
      (λ a. absurd (ground arith))

module _ (orm : Orm) where
  pub save-IsSound :
      (now : ℕ) (b : Booking) (t : List Booking)
      → IsTimely now b
      → All (λ x. x.id ≢ b.id × Apart b x) t
      → IsSound now t
      → IsSound now (orm.save Booking (λ x. x.id) b t)
  save-IsSound now b t timely fresh h = record {
    unique =
        save-Pairwise orm (λ x. x.id) (λ r x. x.id ≡ r.id → r ≡ x)
          (λ r x same e. sym (same (sym e))) b t (λ _. refl)
          (All-map (λ x. x.id ≢ b.id × Apart b x) _ (λ x f e. absurd (f.0 e)) t fresh) h.unique;
    timely =
        orm.save_all Booking (IsTimely now) (λ x. x.id) b t timely
          (All-map (IsTimely now) _ (λ x p _. p) t h.timely);
    apart =
        save-Pairwise orm (λ x. x.id) Apart mirror-Apart b t (own-Apart b)
          (All-map (λ x. x.id ≢ b.id × Apart b x) (Apart b) (λ x f. f.1) t fresh) h.apart;
  }

  pub update-UniqueIds :
      (p : Booking → Bool) (f : Booking → Booking) (t : List Booking)
      → ((b : Booking) → (f b).id ≡ b.id)
      → UniqueIds t
      → UniqueIds (orm.update Booking p f t)
  update-UniqueIds p f t same h = orm.update_all Booking _ p f t (
      All-map (λ r. All (λ x. x.id ≡ r.id → r ≡ x) t) _ (λ r sole. (changed r sole, kept r sole)) t
        h)
    where
      changed :
          (r : Booking)
          → All (λ x. x.id ≡ r.id → r ≡ x) t
          → p r ≡ true
          → All (λ x. x.id ≡ (f r).id → f r ≡ x) (orm.update Booking p f t)
      changed r sole hit = orm.update_all Booking _ p f t (
          All-map (λ x. x.id ≡ r.id → r ≡ x) _
            (λ x one. (
              λ e q. ap f (one (sym (same x) ∙ q ∙ same r)),
              λ e q. absurd (ground (arith, one (q ∙ same r))),
            ))
            t sole)

      kept :
          (r : Booking)
          → All (λ x. x.id ≡ r.id → r ≡ x) t
          → p r ≡ false
          → All (λ x. x.id ≡ r.id → r ≡ x) (orm.update Booking p f t)
      kept r sole miss = orm.update_all Booking _ p f t (
          All-map (λ x. x.id ≡ r.id → r ≡ x) _
            (λ x one. (λ e q. absurd (ground (arith, one (sym (same x) ∙ q))), λ e q. one q)) t
            sole)

  -- A cancellation of the rows that meet a condition.
  pub cancel-IsSound :
      (now : ℕ) (p : Booking → Bool) (t : List Booking)
      → IsSound now t
      → IsSound now (orm.update Booking p (λ b. record b { status = BookingStatus.cancelled }) t)
  unfolding is_active_booking
  cancel-IsSound now p t h = record {
    unique = update-UniqueIds p _ t (λ b. refl) h.unique;
    timely =
        orm.update_all Booking (IsTimely now) p _ t
          (All-map (IsTimely now) _ (λ b k. (λ _. cancelled b k, λ _. k)) t h.timely);
    apart =
        update-Pairwise orm (λ x. x.id) Apart mirror-Apart p _ t
          (λ b x r.
            weaken-Apart b (record b { status = BookingStatus.cancelled }) x refl refl refl refl
              (λ a. absurd (ground arith)) r)
          h.apart;
  }
    where
      cancelled :
          (b : Booking)
          → IsTimely now b
          → IsTimely now (record b { status = BookingStatus.cancelled })
      cancelled b k = record {
        in_order = k.in_order;
        begun = λ q. absurd (ground arith);
        ended = λ q. absurd (ground arith);
      }
