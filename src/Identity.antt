-- ===== src/Identity.antt =====
-- identity_owner.go: the stable identity of a stored object, and the object of one.
use Prim.Native.String.{len, slice, ◌++◌}
use text.Mathlib.Text.{find?}
use mwanachama_backend_comm.Base.{
  ◌+◌, Bool, true, false, not, Option, none, some, List, [], ◌∷◌, String, ◌==◌,
}
use mwanachama_backend_comm.Errors.{
  Error, Result, ok, err, no_object, no_stable_identity, identity_not_found, identity_not_owned,
  ◌>>=◌, ◌>>◌,
}
use mwanachama_backend_comm.Validate.{holds}

-- `identity.Reference`, and what the package identity makes of one and of a text.
pub record Reference : Type 0 where
  pub owner : String
  pub instance_name : String
  pub identity : String

pub record Identities : Type 0 where
  pub write : String → String → String → Result String
  pub parse : String → Result Reference

-- The mounted domain: its instance, its mount, and whether a row of an id stands in the table of the
-- object that fills a role; none where no object fills it.
pub record Mounted : Type 0 where
  pub instance_name : String
  pub mount_name : String
  pub has_row : String → Option (String → Result Bool)

abbrev identity_module : String
identity_module = "comm"

abbrev identified_roles : List String
identified_roles =
    "chat_thread" ∷ "chat_message" ∷ "subject_thread" ∷ "subject_message" ∷ "report" ∷ "removal"
    ∷ "dismissal" ∷ "dispute" ∷ "notification" ∷ "notification_acknowledgement" ∷ "standing_message"
    ∷ []

-- `strings.Cut(s, "/")`.
abbrev cut_slash : String → String × String
cut_slash s = elim (find? s "/") [
  | none ↦ (s, "")
  | some i ↦ (slice s 0 i, slice s (i + 1) (len s))
]

abbrev require_that : Bool → Error → Result (Unit {0})
require_that true e = ok tt
require_that false e = err e

abbrev object_path : String → String → String → String
object_path mount object id = mount ++ ("/" ++ (object ++ ("/" ++ id)))

module _ (ids : Identities) (m : Mounted) where
  unfoldable pub row_exists : String → String → Result Bool
  row_exists object id = elim (m.has_row object) [ none ↦ err no_object | some look ↦ look id ]

  unfoldable pub stable_identity : String → String → Result String
  unfolding row_exists
  stable_identity object id = do
    require_that (holds identified_roles object) no_stable_identity
    exists ← row_exists object id
    require_that exists identity_not_found
    ids.write identity_module m.instance_name (object_path m.mount_name object id)

  abbrev identified : String × String → Result (String × String)
  identified (object, id) = do
    require_that (holds identified_roles object) identity_not_found
    require_that (not (id == "")) identity_not_found
    exists ← row_exists object id
    require_that exists identity_not_found
    ok (object, id)

  abbrev mounted_here : String × String → Result (String × String)
  mounted_here (mount, rest) = do
    require_that (mount == m.mount_name) identity_not_owned
    identified (cut_slash rest)

  -- `Resolve`.
  unfoldable pub resolve_identity : String → Result (String × String)
  unfolding row_exists
  resolve_identity raw = do
    r ← ids.parse raw
    require_that (r.owner == identity_module) identity_not_owned
    require_that (r.instance_name == m.instance_name) identity_not_owned
    mounted_here (cut_slash r.identity)
