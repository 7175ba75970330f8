-- ===== src/Sql/Statements.antt =====
-- A table's statements as actions on its rows: one that fails leaves them alone.
use mwanachama_backend_comm.Base.{ℕ, Bool, Option, List}
use mwanachama_backend_comm.Errors.{ok, err}
use mwanachama_backend_comm.Errors.Classify.{classify}
use mwanachama_backend_comm.Exec.{Exec, map_err}
use mwanachama_backend_comm.Sql.{Table}

-- The error of an action, as `classify(err)` maps it.
abbrev pub classified {ℓ κ} : {S : Type ℓ} {A : Type κ} → Exec S A → Exec S A
classified m s = let (r, s') = m s in (map_err classify r, s')

module _ {R : Type 0} (t : Table R) where
  abbrev pub take : (R → Bool) → Exec (List R) (Option R)
  take p rows = (t.take p rows, rows)

  abbrev pub list : (R → Bool) → (R → R → Bool) → Exec (List R) (List R)
  list p before rows = (t.list p before rows, rows)

  abbrev pub first : (R → Bool) → (R → R → Bool) → Exec (List R) (Option R)
  first p before rows = (t.first p before rows, rows)

  abbrev pub count_rows : (R → Bool) → Exec (List R) ℕ
  count_rows p rows = (t.count_rows p rows, rows)

  abbrev pub insert : R → Exec (List R) (Unit {0})
  insert r rows = elim (t.insert r rows) [ ok rows' ↦ (ok tt, rows') | err e ↦ (err e, rows) ]

  -- Updates and deletes return how many rows they met.
  abbrev pub update : (R → Bool) → (R → R) → Exec (List R) ℕ
  update p set rows = elim (t.update p set rows) [
    | ok (n, rows') ↦ (ok n, rows')
    | err e ↦ (err e, rows)
  ]

  abbrev pub delete : (R → Bool) → Exec (List R) ℕ
  delete p rows = elim (t.delete p rows) [ ok (n, rows') ↦ (ok n, rows') | err e ↦ (err e, rows) ]

  abbrev pub upsert : (R → Bool) → (R → R) → R → Exec (List R) (Unit {0})
  upsert clash set r rows = elim (t.upsert clash set r rows) [
    | ok rows' ↦ (ok tt, rows')
    | err e ↦ (err e, rows)
  ]
