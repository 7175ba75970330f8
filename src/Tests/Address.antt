-- ===== src/Tests/Address.antt =====
-- models/address*.go at concrete addresses.
use mwanachama_backend_comm.Base.{
  ℕ, ◌<◌, ◌%◌, true, false, ◌≡◌, ◌↔◌, ◌⊎◌, refl, List, [], ◌∷◌, none, some, Text, codes, pos, ◌==◌,
  keep, ◌≢◌,
}
use mwanachama_backend_comm.Errors.{ok, DriverError, driver, err}
use mwanachama_backend_comm.Address.Code.{
  address_derive, address_valid, address_normalize, address_format, emit,
}
use mwanachama_backend_comm.Address.Code.Valid.{address_derive-address_valid}
use mwanachama_backend_comm.Address.Code.Typed.{
  TypedAs, address_normalize_typed, address_normalize-address_format, address_normalize_idem,
}
use mwanachama_backend_comm.Address.Code.Space.{address_count, emit_injective}
use mwanachama_backend_comm.Address.Hours.{
  Zones, LocalTime, AddressHours, silent, closed, unset, address_day_index, hours_validate, open_at,
  open_at_local,
}
use mwanachama_backend_comm.Address.Hours.Laws.{hours_validate_opens}
use mwanachama_backend_comm.Address.State.{
  Address, AddressSettings, is_open, silenced, settings_validate,
}
use mwanachama_backend_comm.Address.State.Laws.{
  silenced-not-is_open, IsWellFormed, settings_validate_iff,
}
use mwanachama_backend_comm.Address.Store.{
  AddressEngine, AddressDb, resolve, list_listed, retire, update_settings,
}
use mwanachama_backend_comm.Address.Store.Lookup.{lookup, is_found, resolve-lookup}
use mwanachama_backend_comm.Sql.Memory.{memory}
use mwanachama_backend_comm.Errors.Classify.{classify}
use mwanachama_backend_comm.Validate.{unheld}
use mwanachama_backend_comm.Address.Store.Retired.{retire_once}

abbrev written_address : Text
written_address = codes "ABC0123DEF4567"

-- A stand-in for SHA-256.
abbrev hash : Text → List ℕ
hash t = 1 ∷ (2 ∷ (3 ∷ []))

derived : address_derive hash (codes "key") ≡ ok (emit 66051)
unfolding address_derive
derived = refl

written_address-is_valid : address_valid written_address ≡ true
unfolding address_valid
written_address-is_valid = refl

typed_self : (s : Text) → TypedAs s s
typed_self [] = TypedAs.done
typed_self (r ∷ s) = TypedAs.same r (typed_self s)

normalized : address_normalize written_address ≡ ok written_address
normalized =
    address_normalize_typed written_address written_address (typed_self written_address)
      written_address-is_valid

address_derive-address_valid_example : address_valid (emit 66051) ≡ true
address_derive-address_valid_example =
    address_derive-address_valid hash (codes "key") (emit 66051) derived

address_normalize_typed_example : address_normalize (b' ' ∷ written_address) ≡ ok written_address
address_normalize_typed_example =
    address_normalize_typed (b' ' ∷ written_address) written_address
      (TypedAs.spaced b' ' refl (typed_self written_address)) written_address-is_valid

address_normalize-address_format_example :
    address_normalize (address_format written_address) ≡ ok written_address
address_normalize-address_format_example =
    address_normalize-address_format written_address written_address-is_valid

address_normalize_idem_example :
    (address_valid written_address ≡ true)
    × (address_normalize written_address ≡ ok written_address)
address_normalize_idem_example = address_normalize_idem written_address written_address normalized

emit_injective_example : 7 % address_count ≡ 7 % address_count
emit_injective_example = emit_injective 7 7 refl

-- A zone in which it is always Monday, ten in the morning.
abbrev zones : Zones
zones = record {
  known = λ name. name == "UTC";
  local = λ name at. record { weekday = 1; hour = 10; minute = 0 };
}

abbrev mornings : AddressHours
mornings = record {
  zone = "UTC";
  mode = silent;
  days =
      some (record { from_minute = pos 0; to_minute = pos 600 })
      ∷ (none ∷ (none ∷ (none ∷ (none ∷ (none ∷ (none ∷ []))))));
}

mornings-validate : hours_validate zones mornings ≡ ok tt
unfolding hours_validate
mornings-validate = refl

hours_validate_opens_example :
    (t : LocalTime) × (t.weekday < 7)
    × (t.hour < 24)
    × (t.minute < 60)
    × (open_at_local mornings.days t ≡ true)
hours_validate_opens_example = hours_validate_opens zones mornings refl mornings-validate

abbrev settings : AddressSettings
settings = record {
  expires_at = some 50;
  expiry_mode = closed;
  message_ttl_seconds = none;
  public_address = "";
  listed_at = none;
  disabled_at = none;
  disabled_mode = unset;
  hours = some mornings;
}

abbrev sample : Address
sample = record {
  actor_id = "a";
  hash = 7 ∷ [];
  salt_id = 1;
  address_index = pos 0;
  created_at = 1;
  retired_at = none;
  settings = settings;
}

sample-is_silent : silenced zones sample 10 ≡ true
unfolding silenced open_at address_day_index
sample-is_silent = refl

silenced-not-is_open_example : is_open zones sample 10 ≡ false
silenced-not-is_open_example = silenced-not-is_open zones sample 10 sample-is_silent

settings_validate_iff_example :
    (settings_validate zones settings ≡ ok tt) ↔ IsWellFormed zones settings
settings_validate_iff_example = settings_validate_iff zones settings

abbrev store : AddressEngine
store = record {
  address_table = memory (λ a b. a.actor_id == b.actor_id);
  block_table = memory (λ a b. a.actor_id == b.actor_id);
  spec = λ role. some [];
  encode_address = λ a field. unheld;
  zones = zones;
}

abbrev stored : AddressDb
stored = record { addresses = sample ∷ []; blocks = [] }

resolve-lookup_example :
    ((resolve store 5 (7 ∷ []) stored ≡ (lookup (7 ∷ []) 5 stored.addresses, stored))
      ⊎ ((d : DriverError) × (resolve store 5 (7 ∷ []) stored ≡ (err (driver d), stored))))
    × ((list_listed store 5 "b" 5 stored ≡ (ok (keep (is_found "b" 5) stored.addresses), stored))
        ⊎ ((d : DriverError) × (list_listed store 5 "b" 5 stored
              ≡ (err (classify (driver d)), stored))))
resolve-lookup_example = resolve-lookup store 5 (7 ∷ []) "b" stored

sample-retires : (retire store 5 "a" (pos 0) 0 stored).0 ≡ ok tt
unfolding retire
sample-retires = refl

retire_once_example :
    ((retire store 9 "a" (pos 0) 8 (retire store 5 "a" (pos 0) 0 stored).1).0 ≢ ok tt)
    × ((update_settings store 9 "a" (pos 0) settings (retire store 5 "a" (pos 0) 0 stored).1).0
        ≢ ok sample)
    × ((resolve store 9 (7 ∷ []) (retire store 5 "a" (pos 0) 0 stored).1).0 ≢ ok sample)
retire_once_example =
    retire_once store 5 9 "a" (pos 0) 0 8 settings (7 ∷ []) sample sample stored sample-retires refl
