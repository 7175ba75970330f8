-- ===== src/Errors/Classify.antt =====
-- errors.go: `classify` and what it calls.
pub mod Laws
use Prim.Native.String.{len, slice, String, ◌++◌}
use text.Mathlib.Text.{find?}
use mwanachama_backend_comm.Base.{
  ℕ, zero, suc, ◌+◌, Bool, false, ◌||◌, Option, none, some, ◌==◌, is_some, if◌then◌else◌,
}
use mwanachama_backend_comm.Errors.{
  DriverError, record_not_found, pg, message, Fault, reference_fault, conflict_fault, Error,
  invalid_reference, conflict, field_error, driver,
}

-- `strings.Contains`.
pub contains : String → String → Bool
contains s t = is_some (find? s t)

-- What follows the last `t` in `s`, if there is one: the branch of `strings.LastIndex`. The texts
-- found do not overlap, and each is at least one byte long, so `len s` rounds are enough.
after_last : ℕ → String → String → Option String
after_last zero s t = none
after_last (suc fuel) s t = elim (find? s t) [
  | none ↦ none
  | some i ↦
      let rest = slice s (i + len t) (len s) in
      elim (after_last fuel rest t) [ none ↦ some rest | some tail ↦ some tail ]
]

pub sqlite_constraint_of : String → String
unfolding after_last
sqlite_constraint_of msg = elim (after_last (len msg) msg "failed: ") [
  | none ↦ msg
  | some tail ↦ tail
]

-- The constraint, else the column, else the table that a `PgError` names.
pub constraint_of : String → String → String → String
constraint_of constraint column table =
    if constraint == "" then (if column == "" then table else column) else constraint

-- `Reference(field)` and `Conflict(field)`.
pub reference_to : String → Error
reference_to field = if field == "" then invalid_reference else field_error reference_fault field

pub conflict_on : String → Error
conflict_on field = if field == "" then conflict else field_error conflict_fault field

abbrev pub sqlstate_not_null_violation : String
sqlstate_not_null_violation = "23502"

abbrev pub sqlstate_foreign_key_violation : String
sqlstate_foreign_key_violation = "23503"

abbrev pub sqlstate_unique_violation : String
sqlstate_unique_violation = "23505"

abbrev pub sqlstate_check_violation : String
sqlstate_check_violation = "23514"

-- The branch of `classify` for an error that has only a text.
pub classify_text : String → Error → Error
unfolding contains conflict_on reference_to sqlite_constraint_of
classify_text msg e =
    if contains msg "UNIQUE constraint failed"
    then conflict_on (sqlite_constraint_of msg)
    else if contains msg "FOREIGN KEY constraint failed"
        || contains msg "NOT NULL constraint failed"
        || contains msg "CHECK constraint failed"
    then reference_to (sqlite_constraint_of msg)
    else e

pub classify_driver : DriverError → Error
unfolding classify_text constraint_of reference_to conflict_on
classify_driver record_not_found = driver record_not_found
classify_driver (pg code constraint column table msg) =
    if code == sqlstate_foreign_key_violation
      || code == sqlstate_not_null_violation
      || code == sqlstate_check_violation
    then reference_to (constraint_of constraint column table)
    else if code == sqlstate_unique_violation
    then conflict_on (constraint_of constraint column table)
    else driver (pg code constraint column table msg)
classify_driver (message msg) = classify_text msg (driver (message msg))

-- The texts of `ErrInvalidReference` and `ErrConflict`.
fault_message : Fault → String
fault_message reference_fault = "invalid reference"
fault_message conflict_fault = "already exists"

-- `fieldError.Error`.
pub field_text : Fault → String → String
unfolding fault_message
field_text f field = fault_message f ++ ": " ++ field

-- No sentinel's own text holds a constraint phrase, so those come back unchanged. An error that
-- carries a field is read by its text, which ends in the field.
pub classify : Error → Error
unfolding classify_driver classify_text field_text
classify (driver d) = classify_driver d
classify (field_error f field) = classify_text (field_text f field) (field_error f field)
classify e = e

-- What `classify` asks of a driver's error before it reports a conflict: the code of a
-- `pgconn.PgError`, and the text of an error that has only a text.
unfoldable pub violates_unique : DriverError → Bool
unfolding contains
violates_unique record_not_found = false
violates_unique (pg code constraint column table msg) = code == sqlstate_unique_violation
violates_unique (message msg) = contains msg "UNIQUE constraint failed"
