-- ===== src/Sql/Memory.antt =====
-- A table held in memory, which fails only where its unique keys say so: the hypotheses on the
-- database can be met.
use mwanachama_backend_comm.Base.{
  Bool, true, false, ◌≡◌, refl, List, [], ◌∷◌, ◌++◌, inl, inr, keep, any, count, find_first, arith,
  if◌then◌else◌,
}
use mwanachama_backend_comm.Errors.{DriverError, pg, driver, Result, ok, err}
use mwanachama_backend_comm.Errors.Classify.{violates_unique}
use mwanachama_backend_comm.Sql.{Table, Ends}
use mwanachama_backend_comm.Sql.Rows

module _ {R : Type 0} (clash : R → R → Bool) where
  abbrev pub insert : R → List R → Result (List R)
  insert r rows =
      if any (clash r) rows then err (driver (pg "23505" "" "" "" "")) else ok (rows ++ r ∷ [])

  pub insert_law : (r : R) (rows : List R) → Ends (insert r rows) (rows ++ r ∷ [])
  insert_law r rows = go (any (clash r) rows)
    where
      go :
          (b : Bool)
          → Ends
              (if b then err (driver (pg "23505" "" "" "" "")) else ok (rows ++ r ∷ []))
              (rows ++ r ∷ [])
      go true = inr (pg "23505" "" "" "" "", refl)
      go false = inl refl

  pub insert_clash :
      (r : R) (rows : List R)
      → any (clash r) rows ≡ true
      → (d : DriverError) × (insert r rows ≡ err (driver d)) × (violates_unique d ≡ true)
  unfolding violates_unique
  insert_clash r rows h = (pg "23505" "" "" "" "", ground arith, refl)

  abbrev pub memory : Table R
  memory = record {
    clash = clash;
    take = λ p rows. ok (find_first p rows);
    list = λ p before rows. ok (Rows.sort before (keep p rows));
    first = λ p before rows. ok (Rows.head (Rows.sort before (keep p rows)));
    count_rows = λ p rows. ok (count p rows);
    insert = insert;
    update = λ p set rows. ok (count p rows, Rows.map_where p set rows);
    delete = λ p rows. ok (count p rows, Rows.delete_rows p rows);
    upsert = λ p set r rows. ok (Rows.upsert_rows p set r rows);
    take_law = λ p rows. inl refl;
    list_law = λ p before rows. inl refl;
    first_law = λ p before rows. inl refl;
    count_law = λ p rows. inl refl;
    insert_law = insert_law;
    insert_clash = insert_clash;
    update_law = λ p set rows. inl refl;
    delete_law = λ p rows. inl refl;
    upsert_law = λ p set r rows. inl refl;
  }
