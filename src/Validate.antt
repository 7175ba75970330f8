-- ===== src/Validate.antt =====
-- validate.go and patterns.go: the rules that a mounted domain's specification declares.
use mwanachama_backend_comm.Base.{
  ℕ, Bool, true, false, not, ◌&&◌, ◌||◌, Option, none, some, List, [], ◌∷◌, String, Text, codes,
  all, leb, eqb, ◌==◌, length, is_blank, if◌then◌else◌,
}
use mwanachama_backend_comm.Roles.{Role}
use mwanachama_backend_comm.Errors.{
  Error, Result, ok, err, invalid_reference, address_bad_settings, subject_invalid,
  notification_invalid, no_object, unknown_pattern,
}
use mwanachama_backend_comm.Address.Code.{address_valid}

-- `subjectKindPattern`: ^[a-z][a-z0-9_]{0,63}$
pub subject_kind_pattern : Text → Bool
subject_kind_pattern [] = false
subject_kind_pattern (r ∷ rs) =
    (leb b'a' r && leb r b'z')
    && all (λ c. (leb b'a' c && leb c b'z') || (leb b'0' c && leb c b'9') || eqb c b'_') rs
    && leb (length rs) 63

abbrev is_alphanumeric : ℕ → Bool
is_alphanumeric c =
    (leb b'A' c && leb c b'Z') || (leb b'a' c && leb c b'z') || (leb b'0' c && leb c b'9')

-- `attachmentIDPattern`: ^[A-Za-z0-9][A-Za-z0-9_.:-]{0,127}$
pub attachment_id_pattern : Text → Bool
attachment_id_pattern [] = false
attachment_id_pattern (r ∷ rs) =
    is_alphanumeric r
    && all (λ c. is_alphanumeric c || eqb c b'_' || eqb c b'.' || eqb c b':' || eqb c b'-') rs
    && leb (length rs) 127

-- `patterns[name]`.
pub pattern_named : String → Option (Text → Bool)
unfolding subject_kind_pattern attachment_id_pattern
pattern_named name =
    if name == "address"
    then some address_valid
    else if name == "subject_kind"
    then some subject_kind_pattern
    else if name == "attachment_id"
    then some attachment_id_pattern
    else none

-- A field that the specification declares, as far as `Check` reads it.
pub record Field : Type 0 where
  pub name : String
  pub required : Bool
  pub values : List String
  pub matches : String

-- What an encoded row holds of a field: no such key, nil, a text, or a value of another type.
pub data Cell : Type 0 where
  unheld null other : Cell
  text : String → Cell

abbrev pub Row : Type 0
Row = String → Cell

-- `spec.Spec`, as far as `Check` reads it: the fields of the object that fills a role.
abbrev pub Spec : Type 0
Spec = Role → Option (List Field)

-- `invalid(role)`.
pub invalid : Role → Error
invalid Role.address = address_bad_settings
invalid Role.subject_thread = subject_invalid
invalid Role.subject_message = subject_invalid
invalid Role.address_block = address_bad_settings
invalid Role.notification = notification_invalid
invalid Role.notification_preference = notification_invalid
invalid _ = invalid_reference

unfoldable pub holds : List String → String → Bool
holds [] want = false
holds (v ∷ vs) want = if v == want then true else holds vs want

check_pattern : Role → Field → String → Result (Unit {0})
unfolding pattern_named invalid
check_pattern role f s =
    if not (f.matches == "") && not (s == "")
    then (elim (pattern_named f.matches) [
      | none ↦ err unknown_pattern
      | some match ↦ if match (codes s) then ok tt else err (invalid role)
    ])
    else ok tt

-- One turn of the loop of `Check`; `ok` goes on with the next field.
check_field : Role → Field → Cell → Result (Unit {0})
unfolding check_pattern holds invalid
check_field role f unheld = ok tt
check_field role f null = if f.required then err (invalid role) else ok tt
check_field role f other = ok tt
check_field role f (text s) =
    if f.required && is_blank s
    then err (invalid role)
    else if not (eqb (length f.values) 0) && not (holds f.values s)
    then err (invalid role)
    else check_pattern role f s

check_fields : Role → List Field → Row → Result (Unit {0})
unfolding check_field
check_fields role [] row = ok tt
check_fields role (f ∷ fs) row = elim (check_field role f (row f.name)) [
  | ok _ ↦ check_fields role fs row
  | err e ↦ err e
]

-- `Check`, after `encode(o, v)` gave the row.
unfoldable pub check : Spec → Role → Row → Result (Unit {0})
unfolding check_fields
check spec role row = elim (spec role) [
  | none ↦ err no_object
  | some fields ↦ check_fields role fields row
]
