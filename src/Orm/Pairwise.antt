-- ===== src/Orm/Pairwise.antt =====
-- Relations between the rows of a table, under what is written to it.
use sojourn_backend.Prelude.{ℕ, ◌≡◌, ◌≢◌, Bool, true, false, List, All, All-map, All-zip}
use sojourn_backend.Orm.Interface.{Orm}

-- Every row is related to every row, itself included.
abbrev pub Pairwise : {Row : Type 0} → (Row → Row → Type 0) → List Row → Type 0
Pairwise R t = All (λ a. All (R a) t) t

module _ (orm : Orm) {Row : Type 0} (key : Row → ℕ) (R : Row → Row → Type 0)
    (mirror : (a b : Row) → R a b → R b a) where
  -- A row that is related to all rows that it does not replace can be saved.
  pub replace-Pairwise :
      (b : Row) (t : List Row)
      → R b b
      → All (λ x. key x ≢ key b → R b x) t
      → Pairwise R t
      → Pairwise R (orm.save Row key b t)
  replace-Pairwise b t own h pairs =
      orm.save_all Row (λ a. All (R a) (orm.save Row key b t)) key b t
        (orm.save_all Row (R b) key b t own h)
        (All-zip (λ a. All (R a) t) (λ a. key a ≢ key b → R b a) _
          (λ a all r ne. save-Related a b t (mirror b a (r ne)) all) t pairs h)
    where
      save-Related :
          (a b : Row) (t : List Row) → R a b → All (R a) t → All (R a) (orm.save Row key b t)
      save-Related a b t r all =
          orm.save_all Row (R a) key b t r (All-map (R a) _ (λ x q _. q) t all)

  -- A row that is related to all rows can be saved.
  pub save-Pairwise :
      (b : Row) (t : List Row)
      → R b b
      → All (R b) t
      → Pairwise R t
      → Pairwise R (orm.save Row key b t)
  save-Pairwise b t own h = replace-Pairwise b t own (All-map (R b) _ (λ x r _. r) t h)

  -- An update keeps the relation if it keeps it between changed rows, and between a changed row and
  -- one that is not.
  pub change-Pairwise :
      (p : Row → Bool) (f : Row → Row) (t : List Row)
      → ((a b : Row) → R a b → p a ≡ true → p b ≡ true → R (f a) (f b))
      → ((a b : Row) → R a b → p a ≡ true → p b ≡ false → R (f a) b)
      → Pairwise R t
      → Pairwise R (orm.update Row p f t)
  change-Pairwise p f t both one pairs = orm.update_all Row _ p f t (
      All-map (λ a. All (R a) t) _
        (λ a all. (
          λ pa.
              orm.update_all Row (R (f a)) p f t
                (All-map (R a) _ (λ b r. (λ pb. both a b r pa pb, λ nb. one a b r pa nb)) t all),
          λ na. orm.update_all Row (R a) p f t (
              All-map (R a) _
                (λ b r. (λ pb. mirror (f b) a (one b a (mirror a b r) pb na), λ nb. r)) t all),
        ))
        t pairs)

  -- An update of rows to ones that are related to whatever they were related to.
  pub update-Pairwise :
      (p : Row → Bool) (f : Row → Row) (t : List Row)
      → ((a b : Row) → R a b → R (f a) b)
      → Pairwise R t
      → Pairwise R (orm.update Row p f t)
  update-Pairwise p f t weaken pairs = orm.update_all Row _ p f t (
      All-map (λ a. All (R a) t) _
        (λ a all.
          (λ _. related (f a) (All-map (R a) (R (f a)) (weaken a) t all), λ _. related a all))
        t pairs)
    where
      related : (a : Row) → All (R a) t → All (R a) (orm.update Row p f t)
      related a all =
          orm.update_all Row (R a) p f t (
            All-map (R a) _ (λ b r. (λ _. mirror (f b) a (weaken b a (mirror a b r)), λ _. r)) t
              all)

  pub find-Pairwise : (p : Row → Bool) (t : List Row) → Pairwise R t → Pairwise R (orm.find Row p t)
  find-Pairwise p t pairs =
      All-map (λ a. All (R a) t) (λ a. All (R a) (orm.find Row p t))
        (λ a. orm.find_keeps Row (R a) p t) _ (orm.find_keeps Row (λ a. All (R a) t) p t pairs)
