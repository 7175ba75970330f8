-- ===== src/Dm/Types.antt =====
-- models/directmessage.go: the rows of a conversation.
use mwanachama_backend_comm.Base.{ℕ, Bool, not, Option, List, String, ℤ, eqb, length}

-- `DMParticipantState`.
pub data DmParticipantState : Type 0 where
  invited active left kicked : DmParticipantState

pub record DmThread : Type 0 where
  pub id : String
  pub title : String
  pub created_by : String
  pub created_at : ℕ
  pub message_ttl_seconds : Option ℤ
  pub opened_via_address_hash : List ℕ
  pub opened_via_address : Bool
  pub opened_via_address_owner : String
  pub sent_from_address_owner : String
  pub sent_from_address_index : Option ℤ
  pub sent_from_address_sealed : String
  pub my_address_index : Option ℤ
  pub opened_via_address_index : Option ℤ

-- `WithDerived`.
pub with_derived : DmThread → DmThread
with_derived t = record t { opened_via_address = not (eqb (length t.opened_via_address_hash) 0) }

pub record DmParticipant : Type 0 where
  pub thread_id : String
  pub actor_id : String
  pub state : DmParticipantState
  pub is_admin : Bool
  pub updated_at : ℕ

-- `PerRecipientKeys` is a map from a key id to a wrapped key.
pub record DmMessage : Type 0 where
  pub id : String
  pub thread_id : String
  pub sender_id : String
  pub sender_device_key_id : String
  pub payload_ciphertext : String
  pub per_recipient_keys : List (String × String)
  pub created_at : ℕ

pub record DmReaction : Type 0 where
  pub message_id : String
  pub actor_id : String
  pub emoji : String
  pub created_at : ℕ

pub record DmDeviceKey : Type 0 where
  pub actor_id : String
  pub key_id : String
  pub public_key : String
  pub created_at : ℕ
  pub published_by : String
  pub device_id : String
  pub retired_at : Option ℕ
