-- ===== src/Address/Store.antt =====
-- address_impl.go: what `AddressStore` does. The database is not scoped to a test run.
pub mod Lookup
pub mod Retired
use mwanachama_backend_comm.Base.{
  ℕ, Bool, true, false, not, ◌&&◌, ◌||◌, Option, none, some, List, [], ◌∷◌, String, ◌==◌, ℤ, eqb,
  ltb, leb_ℤ, ltb_ℤ, is_some, time_or, if◌then◌else◌,
}
use mwanachama_backend_comm.Errors.{Error, Result, ok, err, address_not_found}
use mwanachama_backend_comm.Exec.{Exec, pure, raise, require, lift, ◌>>=◌, ◌>>◌}
use mwanachama_backend_comm.Roles
use mwanachama_backend_comm.Roles.{Role}
use mwanachama_backend_comm.Validate.{Spec, Row, check}
use mwanachama_backend_comm.Sql.{Table}
use mwanachama_backend_comm.Sql.Statements.{
  classified, take, list, count_rows, insert, update, upsert,
}
use mwanachama_backend_comm.Address.Hours.{Zones, unset}
use mwanachama_backend_comm.Address.State.{
  Address, AddressSettings, settings_validate, with_settings,
}

-- `AddressBlock` (models/address.go).
pub record AddressBlock : Type 0 where
  pub actor_id : String
  pub hash : List ℕ
  pub created_at : ℕ

pub record AddressDb : Type 0 where
  pub addresses : List Address
  pub blocks : List AddressBlock

pub record AddressEngine : Type 0 where
  pub address_table : Table Address
  pub block_table : Table AddressBlock
  pub spec : Spec
  pub encode_address : Address → Row
  pub zones : Zones

abbrev pub on_addresses : {A : Type 0} → Exec (List Address) A → Exec AddressDb A
on_addresses m s = let (r, rows) = m s.addresses in (r, record s { addresses = rows })

abbrev pub on_blocks : {A : Type 0} → Exec (List AddressBlock) A → Exec AddressDb A
on_blocks m s = let (r, rows) = m s.blocks in (r, record s { blocks = rows })

-- Equality of two `[]byte`, and of two integers.
abbrev pub same_bytes : List ℕ → List ℕ → Bool
same_bytes [] [] = true
same_bytes (x ∷ xs) (y ∷ ys) = eqb x y && same_bytes xs ys
same_bytes _ _ = false

abbrev pub same_int : ℤ → ℤ → Bool
same_int a b = leb_ℤ a b && leb_ℤ b a

abbrev pub or_no_address : Option Address → Exec AddressDb Address
or_no_address none = raise address_not_found
or_no_address (some a) = pure a

-- `expires_at IS NULL OR expires_at > ?`.
abbrev pub unexpired_at : ℕ → Option ℕ → Bool
unexpired_at now none = true
unexpired_at now (some at) = ltb now at

-- The row that `Resolve` looks for.
abbrev pub resolves : List ℕ → ℕ → Address → Bool
resolves hash now a =
    same_bytes a.hash hash && (not (is_some a.retired_at) && unexpired_at now a.settings.expires_at)

abbrev pub is_numbered : String → ℤ → Address → Bool
is_numbered actor index a = a.actor_id == actor && same_int a.address_index index

abbrev pub is_active_number : String → ℤ → Address → Bool
is_active_number actor index a = is_numbered actor index a && not (is_some a.retired_at)

abbrev pub retired_on : ℕ → Address → Address
retired_on at a = record a { retired_at = some at }

abbrev pub settled_with : AddressSettings → Address → Address
settled_with set a = record a { settings = set }

-- The rows of `ListListed`.
abbrev pub is_listed : String → ℕ → Address → Bool
is_listed exclude now a =
    (is_some a.settings.listed_at && not (a.settings.public_address == ""))
    && (not (is_some a.retired_at) && unexpired_at now a.settings.expires_at)
    && (exclude == "" || not (a.actor_id == exclude))

abbrev pub is_block : String → List ℕ → AddressBlock → Bool
is_block actor hash b = b.actor_id == actor && same_bytes b.hash hash

module _ (g : AddressEngine) (now : ℕ) where
  pub publish : Address → Exec AddressDb Address
  publish given = do
    let a : Address = record given { created_at = time_or given.created_at now }
    lift (check g.spec Role.address (g.encode_address a))
    lift (settings_validate g.zones a.settings)
    classified (on_addresses (insert g.address_table a))
    pure a

  pub list_for : String → Exec AddressDb (List Address)
  list_for actor = classified (
      on_addresses (
        list g.address_table (λ a. a.actor_id == actor)
          (λ a b. ltb_ℤ a.address_index b.address_index)))

  unfoldable pub resolve : List ℕ → Exec AddressDb Address
  resolve hash = do row ← on_addresses (take g.address_table (resolves hash now)); or_no_address row

  unfoldable pub retire : String → ℤ → ℕ → Exec AddressDb (Unit {0})
  retire actor index at = do
    affected ← classified (
        on_addresses
          (update g.address_table (is_active_number actor index) (retired_on (time_or at now))))
    require (ltb 0 affected) address_not_found

  pub count_public : String → Exec AddressDb ℕ
  count_public actor = classified (
      on_addresses (
        count_rows g.address_table
          (λ a. a.actor_id == actor && not (a.settings.public_address == ""))))

  -- The address that `UpdateSettings` checks before it writes the settings.
  abbrev pub settled_probe : String → ℤ → AddressSettings → Address
  settled_probe actor index set = record {
    actor_id = actor;
    hash = [];
    salt_id = 0;
    address_index = index;
    created_at = 0;
    retired_at = none;
    settings = set;
  }

  pub update_settings : String → ℤ → AddressSettings → Exec AddressDb Address
  update_settings actor index set = do
    lift (settings_validate g.zones set)
    lift (check g.spec Role.address (g.encode_address (settled_probe actor index set)))
    affected ←
        classified
          (on_addresses (update g.address_table (is_active_number actor index) (settled_with set)))
    require (ltb 0 affected) address_not_found
    row ← classified (on_addresses (take g.address_table (is_numbered actor index)))
    or_no_address row

  pub block : AddressBlock → Exec AddressDb (Unit {0})
  block given = do
    let b : AddressBlock = record given { created_at = time_or given.created_at now }
    classified (on_blocks (upsert g.block_table (is_block b.actor_id b.hash) (λ old. old) b))

  pub is_blocked : String → List ℕ → Exec AddressDb Bool
  is_blocked actor hash = do
    n ← classified (on_blocks (count_rows g.block_table (is_block actor hash)))
    pure (ltb 0 n)

  unfoldable pub list_listed : String → ℕ → Exec AddressDb (List Address)
  list_listed exclude at =
      classified (on_addresses (list g.address_table (is_listed exclude at) (λ a b. false)))
