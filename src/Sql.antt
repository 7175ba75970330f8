-- ===== src/Sql.antt =====
-- The database as the stores use it, through gorm and specstore: a table's statements, each of
-- which succeeds with what SQL says it does, or fails with a driver's error. Where a query has no
-- order, which rows of several come first is not said by SQL; here they come in the order of insertion.
pub mod Rows
pub mod Memory
pub mod Commit
pub mod Statements
pub mod Counts
pub mod Sole
use mwanachama_backend_comm.Base.{
  ℕ, Bool, true, ◌≡◌, Option, List, [], ◌∷◌, ◌++◌, ◌⊎◌, keep, any, count, find_first,
}
use mwanachama_backend_comm.Errors
use mwanachama_backend_comm.Errors.{DriverError, driver, Result, ok, err}

-- A statement returned `v`, or the driver failed.
abbrev pub Ends {ℓ} : {A : Type ℓ} → Result A → A → Type ℓ
Ends r v = (r ≡ ok v) ⊎ ((d : DriverError) × (r ≡ err (driver d)))

-- One table: `Take` with no order and with one, `List`, `Count`, `Insert`, `Updates`, a delete, and an insert
-- with `OnConflict`. `clash` holds of two rows that the table's unique keys keep apart.
pub record Table (R : Type 0) : Type 0 where
  pub clash : R → R → Bool
  pub take : (R → Bool) → List R → Result (Option R)
  pub list : (R → Bool) → (R → R → Bool) → List R → Result (List R)
  pub first : (R → Bool) → (R → R → Bool) → List R → Result (Option R)
  pub count_rows : (R → Bool) → List R → Result ℕ
  pub insert : R → List R → Result (List R)
  pub update : (R → Bool) → (R → R) → List R → Result (ℕ × List R)
  pub delete : (R → Bool) → List R → Result (ℕ × List R)
  pub upsert : (R → Bool) → (R → R) → R → List R → Result (List R)
  pub take_law : (p : R → Bool) (rows : List R) → Ends (take p rows) (find_first p rows)
  pub list_law :
      (p : R → Bool) (before : R → R → Bool) (rows : List R)
      → Ends (list p before rows) (Rows.sort before (keep p rows))
  pub first_law :
      (p : R → Bool) (before : R → R → Bool) (rows : List R)
      → Ends (first p before rows) (Rows.head (Rows.sort before (keep p rows)))
  pub count_law : (p : R → Bool) (rows : List R) → Ends (count_rows p rows) (count p rows)
  pub insert_law : (r : R) (rows : List R) → Ends (insert r rows) (rows ++ r ∷ [])
  pub insert_clash :
      (r : R) (rows : List R)
      → any (clash r) rows ≡ true
      → (d : DriverError) × (insert r rows ≡ err (driver d))
        × (Errors.Classify.violates_unique d ≡ true)
  pub update_law :
      (p : R → Bool) (set : R → R) (rows : List R)
      → Ends (update p set rows) (count p rows, Rows.map_where p set rows)
  pub delete_law :
      (p : R → Bool) (rows : List R) → Ends (delete p rows) (count p rows, Rows.delete_rows p rows)
  pub upsert_law :
      (p : R → Bool) (set : R → R) (r : R) (rows : List R)
      → Ends (upsert p set r rows) (Rows.upsert_rows p set r rows)
