-- ===== src/Orm/Interface.antt =====
-- TypeORM, which the repositories call, as an interface: the operations on a table that the
-- code uses, and what it relies on of each. A table is the list of its rows. A key function
-- reads a row's primary key.
use sojourn_backend.Prelude.{
  ℕ, ◌≡◌, ◌≢◌, Bool, true, false, Option, none, some, List, [], ◌∷◌, Mem, All, ◌==◌, ◌⊎◌, ◌≤◌, ◌+◌,
  length, if◌then◌else◌,
}

-- Some row of the list has the key.
abbrev pub HasKey : {Row : Type 0} → (Row → ℕ) → ℕ → List Row → Type 0
HasKey key k [] = ⊥
HasKey key k (r ∷ rs) = (key r ≡ k) ⊎ HasKey key k rs

pub record Orm : Type 1 where
  -- `find`, `findOne` and `exists` with a `where` clause
  pub find : (Row : Type 0) → (Row → Bool) → List Row → List Row
  pub find_one : (Row : Type 0) → (Row → Bool) → List Row → Option Row
  -- `save` of an entity: it inserts the row, or replaces the row that has its primary key
  pub save : (Row : Type 0) → (Row → ℕ) → Row → List Row → List Row
  -- `update` of the rows that meet a condition, by a partial entity
  pub update : (Row : Type 0) → (Row → Bool) → (Row → Row) → List Row → List Row
  -- `delete` by a condition
  pub delete : (Row : Type 0) → (Row → Bool) → List Row → List Row
  -- `@PrimaryGeneratedColumn('uuid')`: the key of the next new row
  pub generate : (Row : Type 0) → (Row → ℕ) → List Row → ℕ
  -- Whether a `where` clause whose value is `null` or `undefined` is left out of the query.
  -- If it is not, SQL's comparison with NULL holds of no row.
  pub skips_null : Bool
  -- Whether `save` refuses a value that is no entity, such as a text.
  pub requires_entity : Bool
  -- What is found meets the clause and was in the table, and a clause that no row was found for
  -- has none.
  pub find_sound :
      (Row : Type 0) (p : Row → Bool) (t : List Row) → All (λ r. p r ≡ true) (find Row p t)
  pub find_keeps :
      (Row : Type 0) (P : Row → Type 0) (p : Row → Bool) (t : List Row)
      → All P t
      → All P (find Row p t)
  pub find_one_sound :
      (Row : Type 0) (p : Row → Bool) (t : List Row) (r : Row)
      → find_one Row p t ≡ some r
      → p r ≡ true
  pub find_one_keeps :
      (Row : Type 0) (P : Row → Type 0) (p : Row → Bool) (t : List Row) (r : Row)
      → All P t
      → find_one Row p t ≡ some r
      → P r
  pub find_one_none :
      (Row : Type 0) (p : Row → Bool) (t : List Row)
      → find_one Row p t ≡ none
      → All (λ r. p r ≡ false) t
  pub find_complete :
      (Row : Type 0) (key : Row → ℕ) (p : Row → Bool) (t : List Row)
      → All (λ x. p x ≡ true → HasKey key (key x) (find Row p t)) t
  -- After a save the table holds the saved row, and of the others those with another key.
  pub save_all :
      (Row : Type 0) (P : Row → Type 0) (key : Row → ℕ) (r : Row) (t : List Row)
      → P r
      → All (λ x. key x ≢ key r → P x) t
      → All P (save Row key r t)
  -- A save adds its key to those of the table and removes none.
  pub save_has :
      (Row : Type 0) (key : Row → ℕ) (r : Row) (t : List Row) (k : ℕ)
      → (key r ≡ k) ⊎ HasKey key k t
      → HasKey key k (save Row key r t)
  -- A save adds one row at most, and a deletion none.
  pub save_length :
      (Row : Type 0) (p : Row → Bool) (key : Row → ℕ) (r : Row) (t : List Row)
      → length (find Row p (save Row key r t)) ≤ (if p r then 1 else 0) + length (find Row p t)
  pub delete_length :
      (Row : Type 0) (p q : Row → Bool) (t : List Row)
      → length (find Row p (delete Row q t)) ≤ length (find Row p t)
  -- A saved row is found by its key.
  pub save_found :
      (Row : Type 0) (key : Row → ℕ) (r : Row) (t : List Row)
      → find_one Row (λ x. key x == key r) (save Row key r t) ≡ some r
  -- An update changes the rows that meet the condition, and those alone.
  pub update_all :
      (Row : Type 0) (P : Row → Type 0) (p : Row → Bool) (f : Row → Row) (t : List Row)
      → All (λ x. (p x ≡ true → P (f x)) × (p x ≡ false → P x)) t
      → All P (update Row p f t)
  -- An update removes no row, so a key that it does not write stays.
  pub update_has :
      (Row : Type 0) (key : Row → ℕ) (p : Row → Bool) (f : Row → Row) (t : List Row) (k : ℕ)
      → ((r : Row) → key (f r) ≡ key r)
      → HasKey key k t
      → HasKey key k (update Row p f t)
  -- A deletion removes the rows that meet the condition.
  pub delete_all :
      (Row : Type 0) (P : Row → Type 0) (p : Row → Bool) (t : List Row)
      → All (λ x. p x ≡ false → P x) t
      → All P (delete Row p t)
  -- The rows that an operation does not concern stay, and an update keeps the ones that it changes.
  pub save_mem :
      (Row : Type 0) (key : Row → ℕ) (r : Row) (t : List Row)
      → All (λ x. key x ≢ key r → Mem x (save Row key r t)) t
  pub update_mem :
      (Row : Type 0) (p : Row → Bool) (f : Row → Row) (t : List Row)
      → All
          (λ x.
            (p x ≡ true → Mem (f x) (update Row p f t)) × (p x ≡ false → Mem x (update Row p f t)))
          t
  pub delete_mem :
      (Row : Type 0) (p : Row → Bool) (t : List Row)
      → All (λ x. p x ≡ false → Mem x (delete Row p t)) t
  -- A generated key is in use by no row.
  pub generate_fresh :
      (Row : Type 0) (key : Row → ℕ) (t : List Row) → All (λ x. key x ≢ generate Row key t) t

-- A clause `{ column: value }` over a nullable column and a nullable value.
abbrev pub where_eq : Orm → Option ℕ → Option ℕ → Bool
where_eq orm none none = orm.skips_null
where_eq orm (some c) none = orm.skips_null
where_eq orm none (some v) = false
where_eq orm (some c) (some v) = c == v
