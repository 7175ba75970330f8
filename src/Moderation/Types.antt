-- ===== src/Moderation/Types.antt =====
-- models/moderation.go: the rows of moderation.
use mwanachama_backend_comm.Base.{ℕ, Option, String}

-- `DisputeState`, a string of which three values are named.
pub data DisputeState : Type 0 where
  open_dispute reinstated upheld : DisputeState
  other_state : String → DisputeState

-- An instant is a number; 0 is the zero time.
pub record Report : Type 0 where
  pub id : String
  pub message_id : String
  pub structure_id : String
  pub reported_by : String
  pub reporter_role_class : String
  pub reason : String
  pub note : String
  pub excerpt : String
  pub reported_at : ℕ

pub record Removal : Type 0 where
  pub id : String
  pub message_id : String
  pub structure_id : String
  pub removed_by : String
  pub actor_role_class : String
  pub reason : String
  pub removed_at : ℕ

-- `Room`.
pub room : Removal → Removal
room r = record r { removed_by = "" }

pub record Dismissal : Type 0 where
  pub id : String
  pub message_id : String
  pub structure_id : String
  pub dismissed_by : String
  pub actor_role_class : String
  pub reason : String
  pub note : String
  pub dismissed_at : ℕ

-- `Reporter`.
pub reporter : Dismissal → Dismissal
reporter d = record d { dismissed_by = ""; reason = ""; note = "" }

pub record Dispute : Type 0 where
  pub id : String
  pub removal_id : String
  pub raised_by : String
  pub statement : String
  pub review_structure_id : String
  pub held_since : ℕ
  pub raised_at : ℕ
  pub state : DisputeState
  pub decided_by : String
  pub decided_at : Option ℕ
