-- ===== src/Sql/Counts.antt =====
-- How many rows meet a condition, across the statements that change them.
use mwanachama_backend_comm.Base.{
  ◌+◌, ◌≤◌, Bool, true, false, not, ◌&&◌, ◌≡◌, refl, List, [], ◌∷◌, ◌++◌, arith, count, any,
  Bool-cases, inl, inr,
}
use mwanachama_backend_comm.Sql.Rows.{map_where}

module _ {ℓ} {R : Type ℓ} where
  pub count-append : (p : R → Bool) (xs ys : List R) → count p (xs ++ ys) ≡ count p xs + count p ys
  count-append p [] ys = omega arith
  count-append p (x ∷ xs) ys = ground (arith, count-append p xs ys)

  -- The rows that meet `p` are those that also meet `q`, and the others.
  pub count_split :
      (q p : R → Bool) (rs : List R)
      → count p rs ≡ count (λ r. q r && p r) rs + count (λ r. not (q r) && p r) rs
  count_split q p [] = refl
  count_split q p (r ∷ rs) = ground (arith, count_split q p rs)

  pub count-map_where :
      (q p : R → Bool) (set : R → R) (rs : List R)
      → count p (map_where q set rs)
        ≡ count (λ r. q r && p (set r)) rs + count (λ r. not (q r) && p r) rs
  count-map_where q p set [] = refl
  count-map_where q p set (r ∷ rs) = elim (Bool-cases (q r)) [
    | inl met ↦ rw met (ground (arith, count-map_where q p set rs))
    | inr other ↦ rw other (ground (arith, count-map_where q p set rs))
  ]

  pub count_mono :
      (p q : R → Bool) (rs : List R) → ((r : R) → p r ≡ true → q r ≡ true) → count p rs ≤ count q rs
  count_mono p q [] h = omega arith
  count_mono p q (r ∷ rs) h = ground (arith, count_mono p q rs h, h r)

  pub count_none : (p : R → Bool) (rs : List R) → ((r : R) → p r ≡ false) → count p rs ≡ 0
  count_none p [] h = refl
  count_none p (r ∷ rs) h = rw (h r) (count_none p rs h)

  pub count_same : (p q : R → Bool) (rs : List R) → ((r : R) → p r ≡ q r) → count p rs ≡ count q rs
  count_same p q [] h = refl
  count_same p q (r ∷ rs) h = ground (arith, count_same p q rs h, h r)

  pub any-count : (p : R → Bool) (rs : List R) → any p rs ≡ false → count p rs ≡ 0
  any-count p [] h = refl
  any-count p (r ∷ rs) h = ground (arith, any-count p rs)

  -- An update that keeps `p` keeps the number of rows that meet it.
  pub count-map_where_keeps :
      (q p : R → Bool) (set : R → R) (rs : List R)
      → ((r : R) → p (set r) ≡ p r)
      → count p (map_where q set rs) ≡ count p rs
  count-map_where_keeps q p set [] h = refl
  count-map_where_keeps q p set (r ∷ rs) h = ground (arith, count-map_where_keeps q p set rs h, h r)
