-- ===== src/Errors.antt =====
-- errors.go, and the sentinel errors that models/*.go declares. A wrapped error (`%w`) is modelled
-- by what it wraps: the text that the wrapping adds is not kept.
pub mod Classify
use Prim.Native.Nat.{ℕ}
use Prim.Native.String.{String}

-- What gorm or the database driver reports: `gorm.ErrRecordNotFound`, a `pgconn.PgError` (its code,
-- constraint, column, table and the text of its `Error`), or an error that has only a text, as
-- sqlite's have.
pub data DriverError : Type 0 where
  record_not_found : DriverError
  pg : String → String → String → String → String → DriverError
  message : String → DriverError

-- The two faults that `Reference` and `Conflict` attach a field to.
pub data Fault : Type 0 where
  reference_fault conflict_fault : Fault

pub data Error : Type 0 where
  invalid_reference conflict : Error
  field_error : Fault → String → Error
  driver : DriverError → Error
  chat_not_found chat_invalid chat_thread_declined chat_not_declinable : Error
  dm_not_found dm_already_active dm_self_kick dm_not_admin dm_invalid_reaction : Error
  dm_last_admin dm_not_last_to_leave : Error
  moderation_not_found already_decided reviewer_is_remover already_removed : Error
  address_not_found address_malformed address_bad_settings : Error
  notification_not_found notification_invalid notification_cap_spent : Error
  notification_rule_invalid : Error
  no_such_category notification_muted category_exempt no_audience : Error
  subject_not_found subject_invalid : Error
  standing_invalid standing_not_found standing_stopped : Error
  push_subscription_invalid push_subscription_gone : Error
  no_object unknown_pattern : Error
  no_stable_identity identity_not_found identity_not_owned : Error
  callback : ℕ → Error

-- A Go function's value and error: one of them is set.
pub data Result {ℓ} (A : Type ℓ) : Type ℓ where
  ok : A → Result A
  err : Error → Result A

infixl 10 ◌>>=◌ ◌>>◌
abbrev pub ◌>>=◌ {ℓ κ} : {A : Type ℓ} {B : Type κ} → Result A → (A → Result B) → Result B
ok a >>= f = f a
err e >>= f = err e

abbrev pub ◌>>◌ {ℓ κ} : {A : Type ℓ} {B : Type κ} → Result A → Result B → Result B
m >> n = m >>= λ _. n
