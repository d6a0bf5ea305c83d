-- ===== src/Store/Rows.antt =====
-- SQL statements on a table, as functions on its list of rows, and how rows are compared before
-- and after.
use authlane.Prelude.{
  ◌<◌, ◌≤◌, ◌≡◌, String, not, ◌&&◌, all, ◌==◌, eq_iff, and-eq-true, refl, true, inl, inr, any,
  count_if, All, Bool-cases, arith, Bool, List, [], ◌∷◌, if◌then◌else◌,
}

module _ {ℓ} {R : Type ℓ} where
  -- `UPDATE … SET … WHERE …`; it returns a row exactly if `any` row matches before.
  abbrev pub update_where : (R → Bool) → (R → R) → List R → List R
  update_where where' set [] = []
  update_where where' set (row ∷ rows) =
      (if where' row then set row else row) ∷ update_where where' set rows

-- The rows of two tables stand in a relation, one by one.
abbrev pub Pointwise {ℓ} : {R : Type ℓ} → (R → R → Type 0) → List R → List R → Type 0
Pointwise P [] [] = Unit
Pointwise P [] (y ∷ ys) = ⊥
Pointwise P (x ∷ xs) [] = ⊥
Pointwise P (x ∷ xs) (y ∷ ys) = P x y × Pointwise P xs ys

module _ {ℓ} {R : Type ℓ} where
  pub update_where-All :
      (P : R → Type 0) (test : R → Bool) (set : R → R)
      → ((row : R) → test row ≡ true → P row → P (set row))
      → (rows : List R) → All P rows
      → All P (update_where test set rows)
  update_where-All P test set keep [] h = tt
  update_where-All P test set keep (row ∷ rows) h = elim (Bool-cases (test row)) [
    | inl hit ↦ rw hit (keep row hit h.0, update_where-All P test set keep rows h.1)
    | inr miss ↦ rw miss (h.0, update_where-All P test set keep rows h.1)
  ]

  pub update_where-Pointwise :
      (P : R → R → Type 0) (test : R → Bool) (set : R → R)
      → ((row : R) → P row row)
      → ((row : R) → test row ≡ true → P row (set row))
      → (rows : List R) → Pointwise P rows (update_where test set rows)
  update_where-Pointwise P test set same keep [] = tt
  update_where-Pointwise P test set same keep (row ∷ rows) = elim (Bool-cases (test row)) [
    | inl hit ↦ rw hit (keep row hit, update_where-Pointwise P test set same keep rows)
    | inr miss ↦ rw miss (same row, update_where-Pointwise P test set same keep rows)
  ]

  -- An update that no row matches.
  pub update_where-none :
      (test : R → Bool) (set : R → R) (rows : List R)
      → count_if test rows ≡ 0
      → update_where test set rows ≡ rows
  update_where-none test set [] h = refl
  update_where-none test set (row ∷ rows) h = ground (arith, update_where-none test set rows)

  pub Pointwise-refl :
      (P : R → R → Type 0) → ((row : R) → P row row) → (rows : List R) → Pointwise P rows rows
  Pointwise-refl P same [] = tt
  Pointwise-refl P same (row ∷ rows) = (same row, Pointwise-refl P same rows)

  pub Pointwise-trans :
      (P : R → R → Type 0)
      → ((x y z : R) → P x y → P y z → P x z)
      → (xs ys zs : List R) → Pointwise P xs ys
      → Pointwise P ys zs
      → Pointwise P xs zs
  Pointwise-trans P join [] [] [] h k = tt
  Pointwise-trans P join [] [] (z ∷ zs) h k = absurd k
  Pointwise-trans P join [] (y ∷ ys) zs h k = absurd h
  Pointwise-trans P join (x ∷ xs) [] zs h k = absurd h
  Pointwise-trans P join (x ∷ xs) (y ∷ ys) [] h k = absurd k
  Pointwise-trans P join (x ∷ xs) (y ∷ ys) (z ∷ zs) h k =
      (join x y z h.0 k.0, Pointwise-trans P join xs ys zs h.1 k.1)

  pub any-count : (test : R → Bool) (rows : List R) → any test rows ≡ true → 0 < count_if test rows
  any-count test [] h = cc
  any-count test (row ∷ rows) h = ground (arith, any-count test rows)

-- A table in which no two rows have the same key.
module _ {ℓ} {R : Type ℓ} (key : R → String) where
  abbrev pub has_distinct : List R → Bool
  has_distinct [] = true
  has_distinct (row ∷ rows) = all (λ r. not (key r == key row)) rows && has_distinct rows

  count_if-none :
      (id : String) (rows : List R)
      → all (λ r. not (key r == id)) rows ≡ true
      → count_if (λ r. key r == id) rows ≡ 0
  count_if-none id [] h = refl
  count_if-none id (row ∷ rows) h = ground (arith, count_if-none id rows)

  pub count_if-distinct :
      (id : String) (rows : List R)
      → has_distinct rows ≡ true
      → count_if (λ r. key r == id) rows ≤ 1
  count_if-distinct id [] h = omega arith
  count_if-distinct id (row ∷ rows) h = elim (Bool-cases (key row == id)) [
    | inl e ↦ rw e (
        omega (
          arith,
          count_if-none id rows (
              rw ((eq_iff (key row) id).0 e) at
                (and-eq-true (all (λ r. not (key r == key row)) rows) _ h).0),
        ))
    | inr e ↦ rw e (omega (arith, count_if-distinct id rows (and-eq-true _ _ h).1))
  ]
