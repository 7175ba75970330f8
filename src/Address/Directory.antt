-- ===== src/Address/Directory.antt =====
-- models/address_directory.go and address_directory_impl.go: one search of the directory, as far as
-- it is not the text of the statement that joins the host's table of actors.
use mwanachama_backend_comm.Base.{
  ℕ, zero, ◌-◌, Bool, true, false, ◌&&◌, ◌||◌, Option, none, some, [], ◌∷◌, String, Text, ℤ, pos,
  ltb, leb, eqb, trimmed, codes, if◌then◌else◌,
}
use mwanachama_backend_comm.Address.Hours.{Zones, AddressHours, open_at}

pub record AddressDirectoryQuery : Type 0 where
  pub search : String
  pub exclude_actor_id : String
  pub limit : ℤ
  pub offset : ℤ

abbrev pub default_directory_limit : ℕ
default_directory_limit = 25

abbrev pub max_directory_limit : ℕ
max_directory_limit = 100

abbrev directory_limit : ℤ → ℤ
directory_limit (pos zero) = pos default_directory_limit
directory_limit (pos n) = if ltb max_directory_limit n then pos max_directory_limit else pos n
directory_limit _ = pos default_directory_limit

abbrev not_negative : ℤ → ℤ
not_negative (pos n) = pos n
not_negative _ = pos 0

-- `Normalized`.
pub normalized : AddressDirectoryQuery → AddressDirectoryQuery
normalized q = record q {
  search = trimmed q.search;
  limit = directory_limit q.limit;
  offset = not_negative q.offset;
}

-- What a rune of a search term adds to the fragment of an address; none if no address has it.
abbrev fragment_rune : ℕ → Option Text
fragment_rune r =
    if eqb r b' ' || eqb r b'-' || eqb r b'_' || eqb r b'\t'
    then some []
    else if leb b'a' r && leb r b'z'
    then some ((r - 32) ∷ [])
    else if (leb b'A' r && leb r b'Z') || (leb b'0' r && leb r b'9')
    then some (r ∷ [])
    else none

abbrev with_rune : Option Text → Option Text → Option Text
with_rune none rest = none
with_rune (some r) none = none
with_rune (some []) (some rest) = some rest
with_rune (some (r ∷ rs)) (some rest) = some (r ∷ rest)

-- The loop of `AddressSearch`.
abbrev fragment : Text → Option Text
fragment [] = some []
fragment (r ∷ rs) = with_rune (fragment_rune r) (fragment rs)

pub address_search : AddressDirectoryQuery → Text
address_search q = elim (fragment (codes q.search)) [ none ↦ [] | some f ↦ f ]

-- `addressAvailableNow`, of the hours that a row holds: none, or a text that encoding/json reads or
-- does not.
pub address_available_now :
    {Raw : Type 0} → Zones → (Raw → Option AddressHours) → Option ℕ → Option Raw → ℕ → Bool
address_available_now zones unmarshal (some at) hours now = false
address_available_now zones unmarshal none none now = true
address_available_now zones unmarshal none (some raw) now = elim (unmarshal raw) [
  | none ↦ true
  | some h ↦ open_at zones h now
]
