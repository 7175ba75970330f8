-- ===== src/Sql/Sole.antt =====
-- A statement on a key that one row has, where that row is the one that was found.
use mwanachama_backend_comm.Base.{
  ◌<◌, ◌≤◌, Bool, true, false, ◌≡◌, refl, some, List, [], ◌∷◌, arith, count, find_first, Bool-cases,
  inl, inr,
}
use mwanachama_backend_comm.Sql.Rows.{map_where, map_where_none}
use mwanachama_backend_comm.Sql.Counts.{count_mono}

module _ {ℓ} {R : Type ℓ} where
  -- Of the rows of a key there is one, which meets a narrower condition.
  pub map_where_sole :
      (p q : R → Bool) (set : R → R) (r : R) (rows : List R)
      → ((x : R) → q x ≡ true → p x ≡ true)
      → find_first p rows ≡ some r
      → count p rows ≤ 1
      → q r ≡ true
      → map_where q set rows ≡ map_where p set rows
  map_where_sole p q set r [] narrow found one hit = refl
  map_where_sole p q set r (x ∷ rows) narrow found one hit =
      let fewer = count_mono q p rows narrow in
      elim (Bool-cases (p x)) [
        | inl met ↦
            let same : x ≡ r = ground arith in
            let none_p = map_where_none p set rows (ground arith) in
            let none_q = map_where_none q set rows (ground arith) in ground arith
        | inr other ↦
            let rest = map_where_sole p q set r rows narrow (ground arith) (ground arith) hit in
            ground (arith, narrow x)
      ]

  -- The only row of a key does not meet the condition.
  pub count_sole :
      (p q : R → Bool) (r : R) (rows : List R)
      → ((x : R) → q x ≡ true → p x ≡ true)
      → find_first p rows ≡ some r
      → count p rows ≤ 1
      → q r ≡ false
      → count q rows ≡ 0
  count_sole p q r [] narrow found one miss = refl
  count_sole p q r (x ∷ rows) narrow found one miss =
      let fewer = count_mono q p rows narrow in
      elim (Bool-cases (p x)) [
        | inl met ↦ let same : x ≡ r = ground arith in ground arith
        | inr other ↦
            let rest = count_sole p q r rows narrow (ground arith) (ground arith) miss in
            ground (arith, narrow x)
      ]

  pub found_met : (p : R → Bool) (r : R) (rows : List R) → find_first p rows ≡ some r → p r ≡ true
  found_met p r [] found = cc
  found_met p r (x ∷ rows) found = elim (Bool-cases (p x)) [
    | inl met ↦ let same : x ≡ r = ground arith in ground arith
    | inr other ↦ found_met p r rows (ground arith)
  ]

  pub count_met :
      (p q : R → Bool) (r : R) (rows : List R)
      → find_first p rows ≡ some r
      → q r ≡ true
      → 0 < count q rows
  count_met p q r [] found hit = cc
  count_met p q r (x ∷ rows) found hit = elim (Bool-cases (p x)) [
    | inl met ↦ let same : x ≡ r = ground arith in ground arith
    | inr other ↦ let rest = count_met p q r rows (ground arith) hit in ground arith
  ]
