-- ===== src/Push/Types.antt =====
-- models/push.go: subscriptions, their validation, and deliveries.
use mwanachama_backend_comm.Base.{
  ℕ, Bool, true, false, not, ◌&&◌, Option, none, some, [], ◌∷◌, String, Text, codes, ◌==◌, eqb,
  is_blank, any, if◌then◌else◌,
}
use mwanachama_backend_comm.Errors.{Result, ok, err, push_subscription_invalid, ◌>>◌}

pub record PushSubscription : Type 0 where
  pub id : String
  pub actor_id : String
  pub device_id : String
  pub endpoint : String
  pub public_key : String
  pub auth_secret : String
  pub created_at : ℕ

pub record PushKeys : Type 0 where
  pub p256dh : String
  pub auth : String

pub data PushDeliveryState : Type 0 where
  sent failed gone : PushDeliveryState

pub record PushDelivery : Type 0 where
  pub id : String
  pub notification_id : String
  pub actor_id : String
  pub subscription_id : String
  pub state : PushDeliveryState
  pub at : ℕ

-- `url.URL`, as far as it is read.
pub record Url : Type 0 where
  pub scheme : String
  pub host : String
  pub has_user : Bool
  pub hostname : String

-- net/url, net, strings.EqualFold and encoding/base64, as they are called. A decoding gives how many
-- bytes the text holds.
pub record Web : Type 0 where
  pub parse_url : String → Option Url
  pub is_ip : String → Bool
  pub equal_fold : String → String → Bool
  pub decode_url : Text → Option ℕ
  pub decode_std : Text → Option ℕ

abbrev pub public_key_bytes : ℕ
public_key_bytes = 65

abbrev pub auth_secret_bytes : ℕ
auth_secret_bytes = 16

-- `strings.TrimRight(s, "=")`.
abbrev trim_padding : Text → Text
trim_padding [] = []
trim_padding (r ∷ rs) = elim (trim_padding rs) [
  | [] ↦ if eqb r b'=' then [] else r ∷ []
  | x ∷ xs ↦ r ∷ x ∷ xs
]

abbrev require_valid : Bool → Result (Unit {0})
require_valid true = ok tt
require_valid false = err push_subscription_invalid

module _ (w : Web) where
  -- `DecodePushKey`, by the number of bytes.
  pub decoded_length : String → Option ℕ
  decoded_length s = elim (w.decode_url (trim_padding (codes s))) [
    | some n ↦ some n
    | none ↦ w.decode_std (trim_padding (codes s))
  ]

  abbrev has_length : ℕ → Option ℕ → Bool
  has_length want none = false
  has_length want (some n) = eqb n want

  abbrev names_service : Url → Bool
  names_service u =
      ((u.scheme == "https" && not (u.host == "")) && not u.has_user)
      && (not (w.is_ip u.hostname)
          && not (w.equal_fold u.hostname "localhost")
          && any (λ r. eqb r b'.') (codes u.hostname))

  pub valid_push_endpoint : String → Result (Unit {0})
  valid_push_endpoint endpoint = elim (w.parse_url endpoint) [
    | none ↦ err push_subscription_invalid
    | some u ↦ require_valid (names_service u)
  ]

  pub subscription_validate : PushSubscription → Result (Unit {0})
  unfolding decoded_length valid_push_endpoint
  subscription_validate p = do
    require_valid (not (is_blank p.actor_id))
    valid_push_endpoint p.endpoint
    require_valid (has_length public_key_bytes (decoded_length p.public_key))
    require_valid (has_length auth_secret_bytes (decoded_length p.auth_secret))
