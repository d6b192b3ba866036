-- ===== src/Tests/Rows.antt =====
-- Tables as lists: the operations that TypeORM offers on them, and their laws.
use sojourn_backend.Prelude.{
  ℕ, ◌+◌, ◌≡◌, ◌≢◌, ◌≤◌, refl, subst, ◌∙◌, Bool, true, false, not, none, some, Option, List, [],
  ◌∷◌, Mem, mem-cons_self, mem-cons_of_mem, length, All, All-map, Bool-cases, ◌⊎◌, inl, inr, ◌==◌,
  if◌then◌else◌, arith,
}
use sojourn_backend.Orm.{HasKey}

module _ {Row : Type 0} where
  abbrev pub select : (Row → Bool) → List Row → List Row
  select p [] = []
  select p (r ∷ rs) = let rest = select p rs in if p r then r ∷ rest else rest

  abbrev pub first : (Row → Bool) → List Row → Option Row
  first p [] = none
  first p (r ∷ rs) = let rest = first p rs in if p r then some r else rest

  abbrev pub upsert : (Row → ℕ) → Row → List Row → List Row
  upsert key r t = r ∷ select (λ x. not (key x == key r)) t

  abbrev pub change : (Row → Bool) → (Row → Row) → List Row → List Row
  change p f [] = []
  change p f (r ∷ rs) = (if p r then f r else r) ∷ change p f rs

  abbrev pub next_key : (Row → ℕ) → List Row → ℕ
  next_key key [] = 0
  next_key key (r ∷ rs) = key r + 1 + next_key key rs

  pub select_sound : (p : Row → Bool) (t : List Row) → All (λ r. p r ≡ true) (select p t)
  select_sound p [] = tt
  select_sound p (r ∷ rs) = elim (Bool-cases (p r)) [
    | inl e ↦ rw e (e, select_sound p rs)
    | inr e ↦ rw e (select_sound p rs)
  ]

  pub select_keeps :
      (P : Row → Type 0) (p : Row → Bool) (t : List Row) → All P t → All P (select p t)
  select_keeps P p [] h = tt
  select_keeps P p (r ∷ rs) (h, hs) = elim (Bool-cases (p r)) [
    | inl e ↦ rw e (h, select_keeps P p rs hs)
    | inr e ↦ rw e (select_keeps P p rs hs)
  ]

  select-All :
      (P : Row → Type 0) (p : Row → Bool) (t : List Row)
      → All (λ x. p x ≡ true → P x) t
      → All P (select p t)
  select-All P p [] h = tt
  select-All P p (r ∷ rs) (h, hs) = elim (Bool-cases (p r)) [
    | inl e ↦ rw e (h e, select-All P p rs hs)
    | inr e ↦ rw e (select-All P p rs hs)
  ]

  pub first_sound : (p : Row → Bool) (t : List Row) (r : Row) → first p t ≡ some r → p r ≡ true
  first_sound p [] r h = cc
  first_sound p (x ∷ xs) r h = ground (arith, first_sound p xs r)

  some_inj : (a b : Row) → some a ≡ some b → a ≡ b
  some_inj a b h = cc

  pub first_keeps :
      (P : Row → Type 0) (p : Row → Bool) (t : List Row) (r : Row)
      → All P t
      → first p t ≡ some r
      → P r
  first_keeps P p [] r a = λ h. absurd cc
  first_keeps P p (x ∷ xs) r (a, later) = elim (Bool-cases (p x)) [
    | inl e ↦ rw e (λ h. subst P (some_inj x r h) a)
    | inr e ↦ rw e (first_keeps P p xs r later)
  ]

  pub first-none : (p : Row → Bool) (t : List Row) → first p t ≡ none → All (λ r. p r ≡ false) t
  first-none p [] h = tt
  first-none p (x ∷ xs) h = ground (arith, first-none p xs)

  HasKey-head :
      (key : Row → ℕ) (r : Row) (rs : List Row) (k : ℕ) → HasKey key k rs → HasKey key k (r ∷ rs)
  HasKey-head key r rs k h = inr h

  HasKey-select :
      (key : Row → ℕ) (p : Row → Bool) (x : Row) (xs : List Row) (k : ℕ)
      → HasKey key k (select p xs)
      → HasKey key k (select p (x ∷ xs))
  HasKey-select key p x xs k h = elim (Bool-cases (p x)) [ inl e ↦ rw e (inr h) | inr e ↦ rw e h ]

  pub select_complete :
      (key : Row → ℕ) (p : Row → Bool) (t : List Row)
      → All (λ x. p x ≡ true → HasKey key (key x) (select p t)) t
  select_complete key p [] = tt
  select_complete key p (x ∷ xs) = (
    (λ e. rw e (inl refl)),
    All-map _ _ (λ y h e. HasKey-select key p x xs (key y) (h e)) xs (select_complete key p xs),
  )

  pub change-All :
      (P : Row → Type 0) (p : Row → Bool) (f : Row → Row) (t : List Row)
      → All (λ x. (p x ≡ true → P (f x)) × (p x ≡ false → P x)) t
      → All P (change p f t)
  change-All P p f [] h = tt
  change-All P p f (x ∷ xs) ((met, other), hs) = (
    elim (Bool-cases (p x)) [ inl e ↦ rw e (met e) | inr e ↦ rw e (other e) ],
    change-All P p f xs hs,
  )

  pub change-HasKey :
      (key : Row → ℕ) (p : Row → Bool) (f : Row → Row) (t : List Row) (k : ℕ)
      → ((r : Row) → key (f r) ≡ key r)
      → HasKey key k t
      → HasKey key k (change p f t)
  change-HasKey key p f [] k same h = elim h [ ]
  change-HasKey key p f (x ∷ xs) k same (inl e) =
      inl (elim (Bool-cases (p x)) [ inl met ↦ rw met (same x ∙ e) | inr other ↦ rw other e ])
  change-HasKey key p f (x ∷ xs) k same (inr h) = inr (change-HasKey key p f xs k same h)

  pub upsert-All :
      (P : Row → Type 0) (key : Row → ℕ) (r : Row) (t : List Row)
      → P r
      → All (λ x. key x ≢ key r → P x) t
      → All P (upsert key r t)
  upsert-All P key r t h hs = (
    h,
    select-All P _ t
        (All-map (λ x. key x ≢ key r → P x) _ (λ x g e. g (λ same. absurd (ground arith))) t hs),
  )

  pub upsert_found :
      (key : Row → ℕ) (r : Row) (t : List Row)
      → first (λ x. key x == key r) (upsert key r t) ≡ some r
  upsert_found key r t = ground arith

  select-HasKey :
      (key : Row → ℕ) (r : Row) (k : ℕ) (t : List Row)
      → (key r == k) ≡ false
      → HasKey key k t
      → HasKey key k (select (λ x. not (key x == key r)) t)
  select-HasKey key r k [] ne h = h
  select-HasKey key r k (x ∷ xs) ne (inl e) =
      let kept : not (key x == key r) ≡ true = ground arith in rw kept (inl e)
  select-HasKey key r k (x ∷ xs) ne (inr h) = elim (Bool-cases (not (key x == key r))) [
    | inl e ↦ rw e (inr (select-HasKey key r k xs ne h))
    | inr e ↦ rw e (select-HasKey key r k xs ne h)
  ]

  pub upsert-HasKey :
      (key : Row → ℕ) (r : Row) (t : List Row) (k : ℕ)
      → (key r ≡ k) ⊎ HasKey key k t
      → HasKey key k (upsert key r t)
  upsert-HasKey key r t k (inl e) = inl e
  upsert-HasKey key r t k (inr h) = elim (Bool-cases (key r == k)) [
    | inl e ↦ inl (ground arith)
    | inr ne ↦ inr (select-HasKey key r k t ne h)
  ]

  pub length-select :
      (p q : Row → Bool) (t : List Row) → length (select p (select q t)) ≤ length (select p t)
  length-select p q [] = omega arith
  length-select p q (x ∷ xs) =
      let rest = length-select p q xs in
      elim (Bool-cases (q x)) [ inl e ↦ rw e (ground arith) | inr e ↦ rw e (ground arith) ]

  pub length-upsert :
      (p : Row → Bool) (key : Row → ℕ) (r : Row) (t : List Row)
      → length (select p (upsert key r t)) ≤ (if p r then 1 else 0) + length (select p t)
  length-upsert p key r t = let rest = length-select p (λ x. not (key x == key r)) t in ground arith

  pub drop-All :
      (P : Row → Type 0) (p : Row → Bool) (t : List Row)
      → All (λ x. p x ≡ false → P x) t
      → All P (select (λ x. not (p x)) t)
  drop-All P p t hs =
      select-All P _ t (All-map (λ x. p x ≡ false → P x) _ (λ x g e. g (ground arith)) t hs)

  Mem-select :
      (p : Row → Bool) (x y : Row) (xs : List Row) → Mem y (select p xs) → Mem y (select p (x ∷ xs))
  Mem-select p x y xs h = elim (Bool-cases (p x)) [
    | inl e ↦ rw e (mem-cons_of_mem x h)
    | inr e ↦ rw e h
  ]

  select-Mem : (p : Row → Bool) (t : List Row) → All (λ x. p x ≡ true → Mem x (select p t)) t
  select-Mem p [] = tt
  select-Mem p (x ∷ xs) = (
    (λ e. rw e mem-cons_self),
    All-map (λ y. p y ≡ true → Mem y (select p xs)) _ (λ y h e. Mem-select p x y xs (h e)) xs
        (select-Mem p xs),
  )

  pub drop-Mem :
      (p : Row → Bool) (t : List Row) → All (λ x. p x ≡ false → Mem x (select (λ y. not (p y)) t)) t
  drop-Mem p t =
      All-map (λ x. not (p x) ≡ true → Mem x (select (λ y. not (p y)) t)) _
        (λ x h e. h (ground arith)) t (select-Mem (λ y. not (p y)) t)

  pub upsert-Mem :
      (key : Row → ℕ) (r : Row) (t : List Row) → All (λ x. key x ≢ key r → Mem x (upsert key r t)) t
  upsert-Mem key r t =
      let others : List Row = select (λ y. not (key y == key r)) t in
      All-map (λ x. not (key x == key r) ≡ true → Mem x others) _
        (λ x h ne. mem-cons_of_mem r (h (ground arith))) t
        (select-Mem (λ y. not (key y == key r)) t)

  pub change-Mem :
      (p : Row → Bool) (f : Row → Row) (t : List Row)
      → All (λ x. (p x ≡ true → Mem (f x) (change p f t)) × (p x ≡ false → Mem x (change p f t))) t
  change-Mem p f [] = tt
  change-Mem p f (x ∷ xs) = (
    ((λ e. rw e mem-cons_self), (λ e. rw e mem-cons_self)),
    All-map (λ y. (p y ≡ true → Mem (f y) (change p f xs)) × (p y ≡ false → Mem y (change p f xs)))
        _ (λ y h. ((λ e. mem-cons_of_mem _ (h.0 e)), (λ e. mem-cons_of_mem _ (h.1 e)))) xs
        (change-Mem p f xs),
  )

  pub below_next :
      (key : Row → ℕ) (n : ℕ) (t : List Row) → next_key key t ≤ n → All (λ x. key x ≢ n) t
  below_next key n [] h = tt
  below_next key n (x ∷ xs) h = ((λ e. absurd (omega arith)), below_next key n xs (omega arith))
