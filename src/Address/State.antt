-- ===== src/Address/State.antt =====
-- models/address.go: the state of an address, and what it means for those who hold it.
pub mod Laws
use mwanachama_backend_comm.Base.{
  ℕ, zero, suc, ◌+◌, Bool, true, false, not, ◌&&◌, ◌||◌, Option, none, some, List, String, ℤ, pos,
  ltb, leb, ◌==◌, leb_ℤ, is_some, if◌then◌else◌, differ,
}
use mwanachama_backend_comm.Errors.{Result, ok, err, address_bad_settings}
use mwanachama_backend_comm.Address.Hours.{
  Zones, AddressHours, Mode, unset, closed, silent, other_mode, open_at, hours_validate,
}

-- `AddressSettings`: the part of an address that its owner may change.
pub record AddressSettings : Type 0 where
  pub expires_at : Option ℕ
  pub expiry_mode : Mode
  pub message_ttl_seconds : Option ℤ
  pub public_address : String
  pub listed_at : Option ℕ
  pub disabled_at : Option ℕ
  pub disabled_mode : Mode
  pub hours : Option AddressHours

-- `Address`. Its settings are its own fields in the source, and stand here as one part, which
-- `Settings` reads and `WithSettings` replaces. An instant is a number; 0 is the zero time.
pub record Address : Type 0 where
  pub actor_id : String
  pub hash : List ℕ
  pub salt_id : ℕ
  pub address_index : ℤ
  pub created_at : ℕ
  pub retired_at : Option ℕ
  pub settings : AddressSettings

pub with_settings : Address → AddressSettings → Address
with_settings a s = record a { settings = s }

unfoldable pub retired : Address → Bool
retired a = is_some a.retired_at

unfoldable pub expired : Address → ℕ → Bool
expired a now = elim (a.settings.expires_at) [ none ↦ false | some at ↦ not (ltb now at) ]

unfoldable pub live : Address → ℕ → Bool
unfolding retired expired
live a now = not (retired a) && not (expired a now)

pub disabled : Address → Bool
disabled a = is_some a.settings.disabled_at

abbrev pub is_silent : Mode → Bool
is_silent silent = true
is_silent _ = false

abbrev pub is_unset : Mode → Bool
is_unset unset = true
is_unset _ = false

abbrev pub not_positive : Option ℤ → Bool
not_positive none = false
not_positive (some n) = leb_ℤ n (pos 0)

module _ (zones : Zones) where
  pub within_hours : Address → ℕ → Bool
  within_hours a now = elim (a.settings.hours) [ none ↦ true | some h ↦ open_at zones h now ]

  -- `Open`.
  pub is_open : Address → ℕ → Bool
  unfolding live disabled within_hours
  is_open a now = live a now && not (disabled a) && within_hours a now

  pub unavailable : Address → ℕ → Bool
  unfolding live is_open
  unavailable a now = live a now && not (is_open a now)

  unfoldable pub silenced : Address → ℕ → Bool
  unfolding expired disabled
  silenced a now =
      if expired a now && is_silent a.settings.expiry_mode
      then true
      else if disabled a && is_silent a.settings.disabled_mode
      then true
      else (elim (a.settings.hours) [
        | none ↦ false
        | some h ↦ not (open_at zones h now) && is_silent h.mode
      ])

  -- `AddressSettings.Validate`.
  pub settings_validate : AddressSettings → Result (Unit {0})
  settings_validate s =
      if differ (not (is_some s.expires_at)) (is_unset s.expiry_mode)
      then err address_bad_settings
      else if not_positive s.message_ttl_seconds
      then err address_bad_settings
      else if is_some s.listed_at && s.public_address == ""
      then err address_bad_settings
      else if differ (not (is_some s.disabled_at)) (is_unset s.disabled_mode)
      then err address_bad_settings
      else elim (s.hours) [ none ↦ ok tt | some h ↦ hours_validate zones h ]

-- `IsPublic`, `Listed`, `InDirectory`.
unfoldable pub is_public : Address → Bool
is_public a = not (a.settings.public_address == "")

unfoldable pub listed : Address → Bool
listed a = is_some a.settings.listed_at

unfoldable pub in_directory : Address → ℕ → Bool
unfolding listed live
in_directory a now = listed a && live a now
