-- ===== src/Store/Keyed.antt =====
-- Rows that are found by a test, before and after a statement, and tables with distinct keys.
use authlane.Prelude.{
  ◌≡◌, inl, inr, refl, sym, subst, is_some, or_else, String, Bool, true, false, not, Option, none,
  some, List, [], ◌∷◌, ◌++◌, find, filter, any, all, All, All-map, Bool-cases, ◌==◌, eq_iff,
  if◌then◌else◌, arith,
}
use authlane.Store.Rows.{update_where, Pointwise, has_distinct}

module _ {ℓ} {R : Type ℓ} where
  -- A test finds nothing in either table, or two rows that stand in the relation.
  abbrev pub Related : (R → R → Type 0) → Option R → Option R → Type 0
  Related P none none = Unit
  Related P none (some y) = ⊥
  Related P (some x) none = ⊥
  Related P (some x) (some y) = P x y

  pub Pointwise-find :
      (P : R → R → Type 0) (test : R → Bool)
      → ((x y : R) → P x y → test y ≡ test x)
      → (xs ys : List R) → Pointwise P xs ys
      → Related P (find test xs) (find test ys)
  Pointwise-find P test same [] [] h = tt
  Pointwise-find P test same [] (y ∷ ys) h = absurd h
  Pointwise-find P test same (x ∷ xs) [] h = absurd h
  Pointwise-find P test same (x ∷ xs) (y ∷ ys) h = elim (Bool-cases (test x)) [
    | inl e ↦ rw (same x y h.0, e) h.0
    | inr e ↦ rw (same x y h.0, e) (Pointwise-find P test same xs ys h.1)
  ]

  pub Pointwise-map :
      (P Q : R → R → Type 0)
      → ((x y : R) → P x y → Q x y)
      → (xs ys : List R) → Pointwise P xs ys
      → Pointwise Q xs ys
  Pointwise-map P Q f [] [] h = tt
  Pointwise-map P Q f [] (y ∷ ys) h = absurd h
  Pointwise-map P Q f (x ∷ xs) [] h = absurd h
  Pointwise-map P Q f (x ∷ xs) (y ∷ ys) h = (f x y h.0, Pointwise-map P Q f xs ys h.1)

  pub Pointwise-map_All :
      (P Q : R → R → Type 0) (K : R → Type 0)
      → ((x y : R) → K x → P x y → Q x y)
      → (xs ys : List R) → All K xs
      → Pointwise P xs ys
      → Pointwise Q xs ys
  Pointwise-map_All P Q K f [] [] k h = tt
  Pointwise-map_All P Q K f [] (y ∷ ys) k h = absurd h
  Pointwise-map_All P Q K f (x ∷ xs) [] k h = absurd h
  Pointwise-map_All P Q K f (x ∷ xs) (y ∷ ys) k h =
      (f x y k.0 h.0, Pointwise-map_All P Q K f xs ys k.1 h.1)

  pub update_where-Pointwise_given :
      (P : R → R → Type 0) (K : R → Type 0) (test : R → Bool) (set : R → R)
      → ((row : R) → P row row)
      → ((row : R) → test row ≡ true → K row → P row (set row))
      → (rows : List R) → All K rows
      → Pointwise P rows (update_where test set rows)
  update_where-Pointwise_given P K test set same keep [] k = tt
  update_where-Pointwise_given P K test set same keep (row ∷ rows) k =
      elim (Bool-cases (test row)) [
        | inl hit ↦
            rw hit (keep row hit k.0, update_where-Pointwise_given P K test set same keep rows k.1)
        | inr miss ↦
            rw miss (same row, update_where-Pointwise_given P K test set same keep rows k.1)
      ]

  -- Rows that a deletion leaves are found as before, and those that it takes are not.
  pub find-filter :
      (p q : R → Bool)
      → ((x : R) → p x ≡ true → q x ≡ true)
      → (rows : List R) → find p (filter q rows) ≡ find p rows
  find-filter p q keep [] = refl
  find-filter p q keep (row ∷ rows) = elim (Bool-cases (p row)) [
    | inl e ↦ rw (keep row e, e) refl
    | inr e ↦ elim (Bool-cases (q row)) [
      | inl f ↦ rw (f, e) (find-filter p q keep rows)
      | inr f ↦ rw (f, e) (find-filter p q keep rows)
    ]
  ]

  pub find-filter_gone :
      (p q : R → Bool)
      → ((x : R) → p x ≡ true → q x ≡ false)
      → (rows : List R) → find p (filter q rows) ≡ none
  find-filter_gone p q drop [] = refl
  find-filter_gone p q drop (row ∷ rows) = elim (Bool-cases (q row)) [
    | inr f ↦ rw f (find-filter_gone p q drop rows)
    | inl f ↦ rw f (rw (not_hit row f) (find-filter_gone p q drop rows))
  ]
    where
      not_hit : (x : R) → q x ≡ true → p x ≡ false
      not_hit x f = elim (Bool-cases (p x)) [ inl e ↦ ground (arith, drop x e) | inr e ↦ e ]

  pub find-none : (p : R → Bool) (rows : List R) → find p rows ≡ none → All (λ x. p x ≡ false) rows
  find-none p [] h = tt
  find-none p (row ∷ rows) h = ground (arith, find-none p rows)

  pub find-append_new :
      (p : R → Bool) (rows : List R) (new : R)
      → find p (rows ++ new ∷ []) ≡ or_else (find p rows) (if p new then some new else none)
  find-append_new p [] new = refl
  find-append_new p (row ∷ rows) new = elim (Bool-cases (p row)) [
    | inl e ↦ rw e refl
    | inr e ↦ rw e (find-append_new p rows new)
  ]

  pub any-find : (p : R → Bool) (rows : List R) → any p rows ≡ is_some (find p rows)
  any-find p [] = refl
  any-find p (row ∷ rows) = elim (Bool-cases (p row)) [
    | inl e ↦ rw e refl
    | inr e ↦ rw e (any-find p rows)
  ]

  -- An update of the rows that the test finds, and one of none of them.
  pub find-update_hit :
      (p : R → Bool) (set : R → R)
      → ((x : R) → p (set x) ≡ p x)
      → (rows : List R)
      → find p (update_where p set rows)
        ≡ elim (find p rows) [ some x ↦ some (set x) | none ↦ none ]
  find-update_hit p set same [] = refl
  find-update_hit p set same (row ∷ rows) = elim (Bool-cases (p row)) [
    | inl e ↦ rw (e, same row, e) refl
    | inr e ↦ rw (e, e) (find-update_hit p set same rows)
  ]

  pub find-update_miss :
      (p test : R → Bool) (set : R → R)
      → ((x : R) → p (set x) ≡ p x)
      → ((x : R) → p x ≡ true → test x ≡ false)
      → (rows : List R) → find p (update_where test set rows) ≡ find p rows
  find-update_miss p test set same miss [] = refl
  find-update_miss p test set same miss (row ∷ rows) = elim (Bool-cases (p row)) [
    | inl e ↦ rw (miss row e, e) refl
    | inr e ↦ elim (Bool-cases (test row)) [
      | inl f ↦ rw (f, same row, e) (find-update_miss p test set same miss rows)
      | inr f ↦ rw (f, e) (find-update_miss p test set same miss rows)
    ]
  ]

  pub find-All :
      (Q : R → Type 0) (p : R → Bool) (rows : List R) (c : R)
      → All Q rows
      → find p rows ≡ some c
      → Q c
  find-All Q p [] c k h = absurd (ground arith)
  find-All Q p (row ∷ rows) c k h = elim (Bool-cases (p row)) [
    | inl e ↦ subst Q (some-inj row (rw e at h)) k.0
    | inr e ↦ find-All Q p rows c k.1 (rw e at h)
  ]
    where
      some-inj : (x : R) → some x ≡ some c → x ≡ c
      some-inj x e = ground arith

module _ {R : Type 0} (key : R → String) where
  absent-All :
      (id : String) (rows : List R)
      → all (λ r. not (key r == id)) rows ≡ true
      → All (λ r. (key r == id) ≡ false) rows
  absent-All id [] h = tt
  absent-All id (row ∷ rows) h = (ground arith, absent-All id rows (ground arith))

  clash : (x y : R) → (key x == key y) ≡ true → (key y == key x) ≡ false → ⊥
  clash x y e f = ground (arith, eq_iff (key x) (key y), eq_iff (key y) (key x))

  -- Rows are told apart by their keys.
  pub distinct_found :
      (p : R → Bool) (rows : List R) (c : R)
      → has_distinct key rows ≡ true
      → find p rows ≡ some c
      → All (λ x. (key x == key c) ≡ true → x ≡ c) rows
  distinct_found p [] c d h = tt
  distinct_found p (row ∷ rows) c d h = elim (Bool-cases (p row)) [
    | inl e ↦
        let same = some-inj row (rw e at h) in
        (
          λ _. same,
          All-map (λ r. (key r == key row) ≡ false) (λ x. (key x == key c) ≡ true → x ≡ c)
              (λ x f g. absurd (apart x f (rw (sym same) at g))) rows others,
        )
    | inr e ↦ (
      λ g.
          absurd (
            clash row c g (find-All (λ r. (key r == key row) ≡ false) p rows c others (rw e at h))),
      distinct_found p rows c (ground arith) (rw e at h),
    )
  ]
    where
      others : All (λ r. (key r == key row) ≡ false) rows
      others = absent-All (key row) rows (ground arith)

      some-inj : (x : R) → some x ≡ some c → x ≡ c
      some-inj x e = ground arith

      apart : (x : R) → (key x == key row) ≡ false → (key x == key row) ≡ true → ⊥
      apart x f g = ground arith

  same-all :
      (P : R → R → Type 0) (id : String)
      → ((x y : R) → P x y → key y ≡ key x)
      → (xs ys : List R) → Pointwise P xs ys
      → all (λ r. not (key r == id)) ys ≡ all (λ r. not (key r == id)) xs
  same-all P id same [] [] h = refl
  same-all P id same [] (y ∷ ys) h = absurd h
  same-all P id same (x ∷ xs) [] h = absurd h
  same-all P id same (x ∷ xs) (y ∷ ys) h = rw (same x y h.0, same-all P id same xs ys h.1) refl

  -- Statements that keep the keys keep them distinct.
  pub Pointwise-distinct :
      (P : R → R → Type 0)
      → ((x y : R) → P x y → key y ≡ key x)
      → (xs ys : List R) → Pointwise P xs ys
      → has_distinct key xs ≡ true
      → has_distinct key ys ≡ true
  Pointwise-distinct P same [] [] h d = refl
  Pointwise-distinct P same [] (y ∷ ys) h d = absurd h
  Pointwise-distinct P same (x ∷ xs) [] h d = absurd h
  Pointwise-distinct P same (x ∷ xs) (y ∷ ys) h d =
      rw (same x y h.0, same-all P (key x) same xs ys h.1)
        (ground (arith, Pointwise-distinct P same xs ys h.1))

  filter-all : (p q : R → Bool) (rows : List R) → all p rows ≡ true → all p (filter q rows) ≡ true
  filter-all p q [] h = refl
  filter-all p q (row ∷ rows) h = ground (arith, filter-all p q rows)

  pub filter-distinct :
      (q : R → Bool) (rows : List R)
      → has_distinct key rows ≡ true
      → has_distinct key (filter q rows) ≡ true
  filter-distinct q [] h = refl
  filter-distinct q (row ∷ rows) h =
      ground (arith, filter-distinct q rows, filter-all (λ r. not (key r == key row)) q rows)

  append-all :
      (id : String) (rows : List R) (new : R)
      → all (λ r. not (key r == id)) rows ≡ true
      → (key new == id) ≡ false
      → all (λ r. not (key r == id)) (rows ++ new ∷ []) ≡ true
  append-all id [] new h k = ground arith
  append-all id (row ∷ rows) new h k = ground (arith, append-all id rows new)

  pub append-distinct :
      (rows : List R) (new : R)
      → has_distinct key rows ≡ true
      → all (λ r. not (key r == key new)) rows ≡ true
      → has_distinct key (rows ++ new ∷ []) ≡ true
  append-distinct [] new d h = refl
  append-distinct (row ∷ rows) new d h =
      let apart : (key new == key row) ≡ false =
        ground (arith, eq_iff (key new) (key row), eq_iff (key row) (key new)) in
      ground (arith, append-distinct rows new, append-all (key row) rows new)
