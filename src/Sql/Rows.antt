-- ===== src/Sql/Rows.antt =====
-- What each SQL statement does to the rows of a table, which stand in the order of insertion.
use mwanachama_backend_comm.Base.{
  Bool, false, not, ◌≡◌, refl, List, [], ◌∷◌, ◌++◌, arith, keep, any, length, if◌then◌else◌,
  find_first, none, count, some, Bool-cases, inl, inr, ◌≢◌, true, Option,
}

module _ {ℓ} {R : Type ℓ} where
  -- `UPDATE … SET set WHERE p`.
  abbrev pub map_where : (R → Bool) → (R → R) → List R → List R
  map_where p set [] = []
  map_where p set (r ∷ rs) = (if p r then set r else r) ∷ map_where p set rs

  -- `INSERT … ON CONFLICT (…) DO UPDATE SET set`, for the rows that `clash` with the new one.
  abbrev pub upsert_rows : (R → Bool) → (R → R) → R → List R → List R
  upsert_rows clash set new rs = if any clash rs then map_where clash set rs else rs ++ new ∷ []

  -- `DELETE … WHERE p`.
  abbrev pub delete_rows : (R → Bool) → List R → List R
  delete_rows p = keep (λ r. not (p r))

  -- `ORDER BY`, for an order given by its strict test.
  abbrev pub insert_sorted : (R → R → Bool) → R → List R → List R
  insert_sorted before r [] = r ∷ []
  insert_sorted before r (x ∷ xs) = if before x r then x ∷ insert_sorted before r xs else r ∷ x ∷ xs

  abbrev pub sort : (R → R → Bool) → List R → List R
  sort before [] = []
  sort before (r ∷ rs) = insert_sorted before r (sort before rs)

  abbrev pub head : List R → Option R
  head [] = none
  head (r ∷ rs) = some r

  pub length-map_where :
      (p : R → Bool) (set : R → R) (rs : List R) → length (map_where p set rs) ≡ length rs
  length-map_where p set [] = refl
  length-map_where p set (r ∷ rs) = ground (arith, length-map_where p set rs)

  pub keep-append : (p : R → Bool) (xs ys : List R) → keep p (xs ++ ys) ≡ keep p xs ++ keep p ys
  keep-append p [] ys = refl
  keep-append p (x ∷ xs) ys = ground (arith, keep-append p xs ys)

  pub any-append : (p : R → Bool) (xs ys : List R) → any p xs ≡ false → any p (xs ++ ys) ≡ any p ys
  any-append p [] ys h = refl
  any-append p (x ∷ xs) ys h = ground (arith, any-append p xs ys)

  pub find_first-append :
      (p : R → Bool) (xs ys : List R)
      → find_first p xs ≡ none
      → find_first p (xs ++ ys) ≡ find_first p ys
  find_first-append p [] ys h = refl
  find_first-append p (x ∷ xs) ys h = ground (arith, find_first-append p xs ys)

  pub map_where_none :
      (p : R → Bool) (set : R → R) (rs : List R) → count p rs ≡ 0 → map_where p set rs ≡ rs
  map_where_none p set [] h = refl
  map_where_none p set (r ∷ rs) h = ground (arith, map_where_none p set rs)

  -- After an update that met a row, a read by a wider condition that the update keeps finds one.
  pub find_first-map_where :
      (q p : R → Bool) (set : R → R) (rs : List R)
      → ((r : R) → q r ≡ true → p r ≡ true)
      → ((r : R) → p (set r) ≡ p r)
      → count q rs ≢ 0
      → (r : R) × (find_first p (map_where q set rs) ≡ some r)
  find_first-map_where q p set [] sub keeps h = absurd (h refl)
  find_first-map_where q p set (r ∷ rs) sub keeps h = elim (Bool-cases (q r)) [
    | inl met ↦ (set r, rw (met, keeps r, sub r met))
    | inr other ↦ elim (Bool-cases (p r)) [
      | inl found ↦ (r, rw (other, found))
      | inr hidden ↦
          let (x, e) = find_first-map_where q p set rs sub keeps (ground (arith, h)) in
          (x, rw (other, hidden) e)
    ]
  ]

  pub count-any : (p : R → Bool) (rs : List R) → any p rs ≡ true → count p rs ≢ 0
  count-any p [] h = cc
  count-any p (r ∷ rs) h = elim (Bool-cases (p r)) [
    | inl met ↦ rw met (λ e. ground arith)
    | inr other ↦ rw other (count-any p rs (ground arith))
  ]

  pub find_first-none : (p : R → Bool) (rs : List R) → any p rs ≡ false → find_first p rs ≡ none
  find_first-none p [] h = refl
  find_first-none p (r ∷ rs) h = ground (arith, find_first-none p rs)

  -- After an upsert its row is there.
  pub find_first-upsert_rows :
      (p : R → Bool) (set : R → R) (new : R) (rs : List R)
      → ((r : R) → p (set r) ≡ p r)
      → p new ≡ true
      → (r : R) × (find_first p (upsert_rows p set new rs) ≡ some r)
  find_first-upsert_rows p set new rs keeps hit = elim (Bool-cases (any p rs)) [
    | inl met ↦ rw met (find_first-map_where p p set rs (λ r h. h) keeps (count-any p rs met))
    | inr none_yet ↦
        (new, rw (none_yet, find_first-append p rs (new ∷ []) (find_first-none p rs none_yet), hit))
  ]

  -- An update that keeps its own condition shows in the row that is read back.
  pub find_first-map_where_self :
      (p : R → Bool) (set : R → R) (rs : List R) (r : R)
      → p (set r) ≡ p r
      → find_first p rs ≡ some r
      → find_first p (map_where p set rs) ≡ some (set r)
  find_first-map_where_self p set [] r keeps h = cc
  find_first-map_where_self p set (x ∷ rs) r keeps h =
      ground (arith, find_first-map_where_self p set rs r keeps)

  pub count-found : (p : R → Bool) (rs : List R) (r : R) → find_first p rs ≡ some r → count p rs ≢ 0
  count-found p [] r h = cc
  count-found p (x ∷ rs) r h = elim (Bool-cases (p x)) [
    | inl met ↦ rw met (λ e. ground arith)
    | inr other ↦ rw other (count-found p rs r (ground arith))
  ]
