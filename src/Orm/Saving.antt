-- ===== src/Orm/Saving.antt =====
-- Saving the rows of a list one after the other.
use sojourn_backend.Prelude.{
  ℕ, ◌≡◌, ◌≢◌, refl, sym, ap, subst, ◌∙◌, ◌⊎◌, inl, inr, Bool, true, false, none, some, List, [],
  ◌∷◌, map, All, All-map, All-every, Option-cases, ◌==◌, arith,
}
use sojourn_backend.Orm.Interface.{Orm, HasKey}

module _ (orm : Orm) {Row : Type 0} (key : Row → ℕ) where
  unfoldable pub save_rows : List Row → List Row → List Row
  save_rows [] t = t
  save_rows (r ∷ rs) t = save_rows rs (orm.save Row key r t)

  -- What the saved rows have and the table's rows have, the resulting rows have.
  pub save_rows-All :
      (P : Row → Type 0) (rows t : List Row) → All P rows → All P t → All P (save_rows rows t)
  unfolding save_rows
  save_rows-All P [] t s h = h
  save_rows-All P (r ∷ rs) t s h =
      save_rows-All P rs (orm.save Row key r t) s.1
        (orm.save_all Row P key r t s.0 (All-map P (λ x. key x ≢ key r → P x) (λ x p _. p) t h))

  -- It is enough that the table's rows have it or are replaced.
  pub save_rows_replace :
      (P : Row → Type 0) (rows t : List Row)
      → All P rows
      → All (λ x. P x ⊎ HasKey key (key x) rows) t
      → All P (save_rows rows t)
  unfolding save_rows
  save_rows_replace P [] t s h = All-map (λ x. P x ⊎ ⊥) P pick t h
    where
      pick : (x : Row) → P x ⊎ ⊥ → P x
      pick x (inl p) = p
      pick x (inr k) = absurd k
  save_rows_replace P (r ∷ rs) t s h = save_rows_replace P rs (orm.save Row key r t) s.1 (
      orm.save_all Row (λ x. P x ⊎ HasKey key (key x) rs) key r t (inl s.0)
        (All-map (λ x. P x ⊎ HasKey key (key x) (r ∷ rs))
          (λ x. key x ≢ key r → P x ⊎ HasKey key (key x) rs) next t h))
    where
      next :
          (x : Row)
          → P x ⊎ HasKey key (key x) (r ∷ rs)
          → key x ≢ key r
          → P x ⊎ HasKey key (key x) rs
      next x (inl p) ne = inl p
      next x (inr (inl e)) ne = absurd (ne (sym e))
      next x (inr (inr k)) ne = inr k

  -- A row that was saved is found by any condition that it meets.
  pub saved_is_found :
      (p : Row → Bool) (r : Row) (t : List Row)
      → p r ≡ true
      → orm.find_one Row p (orm.save Row key r t) ≢ none
  saved_is_found p r t h missing =
      let all = orm.find_one_none Row p _ missing in
      let fails : p r ≡ false =
        orm.find_one_keeps Row (λ x. p x ≡ false) _ _ r all (orm.save_found Row key r t) in
      absurd (ground arith)

  -- A condition that rows were deleted by finds none.
  pub deleted_is_gone :
      (p : Row → Bool) (t : List Row) → orm.find_one Row p (orm.delete Row p t) ≡ none
  deleted_is_gone p t = elim (Option-cases (orm.find_one Row p (orm.delete Row p t))) [
    | inl gone ↦ gone
    | inr (r, e) ↦
        let miss : p r ≡ false =
          orm.find_one_keeps Row (λ x. p x ≡ false) p _ r
            (orm.delete_all Row (λ x. p x ≡ false) p t (All-every _ (λ x out. out) t)) e in
        absurd (ground (arith, orm.find_one_sound Row p (orm.delete Row p t) r e))
  ]

  -- A row that was saved is found by any condition that only it and rows that it replaces meet.
  pub found-saved :
      (p : Row → Bool) (r : Row) (t : List Row)
      → p r ≡ true
      → All (λ x. key x ≢ key r → p x ≡ false) t
      → orm.find_one Row p (orm.save Row key r t) ≡ some r
  found-saved p r t h others = elim (Option-cases (orm.find_one Row p (orm.save Row key r t))) [
    | inl missing ↦ absurd (saved_is_found p r t h missing)
    | inr (x, e) ↦
        let only : p x ≡ true → x ≡ r =
          orm.find_one_keeps Row (λ y. p y ≡ true → y ≡ r) p (orm.save Row key r t) x
            (orm.save_all Row (λ y. p y ≡ true → y ≡ r) key r t (λ _. refl)
              (All-map (λ y. key y ≢ key r → p y ≡ false) _
                (λ y out ne hit. absurd (ground (arith, out ne))) t others))
            e in
        e ∙ ap some (only (orm.find_one_sound Row p (orm.save Row key r t) x e))
  ]

  -- A key that a row has is found.
  pub found-HasKey :
      (k : ℕ) (t : List Row)
      → HasKey key k t
      → (r : Row) × (orm.find_one Row (λ x. key x == k) t ≡ some r) × (key r ≡ k)
  found-HasKey k t h = elim (Option-cases (orm.find_one Row (λ x. key x == k) t)) [
    | inl missing ↦ absurd (none_has t (orm.find_one_none Row _ t missing) h)
    | inr (r, e) ↦
        let hit : (key r == k) ≡ true = orm.find_one_sound Row (λ x. key x == k) t r e in
        (r, e, ground arith)
  ]
    where
      none_has : (t : List Row) → All (λ x. (key x == k) ≡ false) t → ¬ HasKey key k t
      none_has [] all h = h
      none_has (x ∷ xs) all (inl e) = absurd (ground (arith, all.0))
      none_has (x ∷ xs) all (inr h) = none_has xs all.1 h

  -- What is found by a key is found by its own.
  pub found_by_key :
      (k : ℕ) (t : List Row) (r : Row)
      → orm.find_one Row (λ x. key x == k) t ≡ some r
      → orm.find_one Row (λ x. key x == key r) t ≡ some r
  found_by_key k t r e =
      let hit : (key r == k) ≡ true = orm.find_one_sound Row (λ x. key x == k) t r e in
      let same : k ≡ key r = ground arith in
      subst (λ j. orm.find_one Row (λ x. key x == j) t ≡ some r) same e

  -- No row has the key that is generated next.
  pub generated-HasKey : (t : List Row) → ¬ HasKey key (orm.generate Row key t) t
  generated-HasKey t = unused (orm.generate Row key t) t (orm.generate_fresh Row key t)
    where
      unused : (k : ℕ) (t : List Row) → All (λ x. key x ≢ k) t → ¬ HasKey key k t
      unused k [] all h = h
      unused k (x ∷ xs) all (inl e) = all.0 e
      unused k (x ∷ xs) all (inr h) = unused k xs all.1 h

module _ {Row : Type 0} where
  pub HasKey-map :
      (key : Row → ℕ) (f : Row → Row) (k : ℕ) (rows : List Row)
      → ((r : Row) → key (f r) ≡ key r)
      → HasKey key k rows
      → HasKey key k (map f rows)
  HasKey-map key f k [] same h = h
  HasKey-map key f k (r ∷ rs) same (inl e) = inl (same r ∙ e)
  HasKey-map key f k (r ∷ rs) same (inr h) = inr (HasKey-map key f k rs same h)
