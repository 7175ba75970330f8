-- ===== src/Errors/Classify/Laws.antt =====
-- What `classify` makes of a driver's error.
use mwanachama_backend_comm.Base.{
  Bool, true, false, ◌≡◌, refl, arith, String, eq_iff, ◌==◌, inl, inr, Bool-cases,
}
use mwanachama_backend_comm.Errors.{
  DriverError, record_not_found, pg, message, Error, conflict, field_error, conflict_fault, driver,
  already_removed,
}
use mwanachama_backend_comm.Errors.Classify.{
  classify, violates_unique, reference_to, conflict_on, sqlite_constraint_of, constraint_of,
  sqlstate_unique_violation,
}

-- `errors.Is(err, ErrConflict)`.
abbrev pub is_conflict : Error → Bool
is_conflict conflict = true
is_conflict (field_error conflict_fault _) = true
is_conflict _ = false

conflict_on-is_conflict : (field : String) → is_conflict (conflict_on field) ≡ true
unfolding conflict_on
conflict_on-is_conflict field = ground arith

reference_to-is_conflict : (field : String) → is_conflict (reference_to field) ≡ false
unfolding reference_to
reference_to-is_conflict field = ground arith

-- `classify` reports a driver's error as a conflict exactly when a unique constraint was violated,
-- by its code on Postgres and by its text on sqlite.
pub classify-is_conflict : (d : DriverError) → is_conflict (classify (driver d)) ≡ violates_unique d
unfolding classify violates_unique
classify-is_conflict record_not_found = refl
classify-is_conflict (pg code constraint column table msg) =
    elim (Bool-cases (code == sqlstate_unique_violation)) [
      | inl unique ↦
          rw ((eq_iff code sqlstate_unique_violation).0 unique)
            (conflict_on-is_conflict (constraint_of constraint column table))
      | inr other ↦ ground (arith, reference_to-is_conflict (constraint_of constraint column table))
    ]
classify-is_conflict (message msg) = ground (
  arith,
  conflict_on-is_conflict (sqlite_constraint_of msg),
  reference_to-is_conflict (sqlite_constraint_of msg),
)

pub classify-already_removed : classify already_removed ≡ already_removed
unfolding classify
classify-already_removed = refl
