-- ===== src/Moderation/Acts.antt =====
-- models/moderation_act.go: the entry that each moderation act leaves in the log.
use mwanachama_backend_comm.Base.{
  List, [], ◌∷◌, ◌++◌, String, Bool, true, false, ◌==◌, if◌then◌else◌,
}
use mwanachama_backend_comm.Moderation.Types.{Removal, Dismissal, Dispute, DisputeState, reinstated}

-- `ActKind`.
pub data ActKind : Type 0 where
  post_withheld post_restored removal_left_standing report_left_standing : ActKind

pub record Actor : Type 0 where
  pub id : String
  pub label : String
  pub structure_id : String

-- `Detail` is a map from a key to a text.
pub record ActEntry : Type 0 where
  pub structure_id : String
  pub kind : ActKind
  pub actor_id : String
  pub actor_label : String
  pub actor_structure_id : String
  pub subject_ref : String
  pub subject_id : String
  pub detail : List (String × String)

-- `if text == "" { text = fallback }`.
abbrev pub default_to : String → String → String
default_to text fallback = if text == "" then fallback else text

-- `e.Detail[key] = value`, for a key that is not there.
abbrev pub with_detail : String → String → ActEntry → ActEntry
with_detail key value e = record e { detail = e.detail ++ (key, value) ∷ [] }

pub moderation_act : ActKind → Removal → String → Actor → ActEntry
moderation_act kind rem wall actor = record {
  structure_id = rem.structure_id;
  kind = kind;
  actor_id = actor.id;
  actor_label = actor.label;
  actor_structure_id = default_to actor.structure_id rem.structure_id;
  subject_ref = default_to wall rem.structure_id;
  subject_id = rem.message_id;
  detail = ("message_id", rem.message_id) ∷ [];
}

pub withheld_act : Removal → String → Actor → ActEntry
unfolding moderation_act
withheld_act rem wall actor =
    with_detail "actor_role_class" rem.actor_role_class
      (with_detail "reason" rem.reason (moderation_act post_withheld rem wall actor))

-- `disputeOutcomeAct`.
pub outcome_act : ActKind → Removal → Dispute → String → Actor → ActEntry
unfolding moderation_act
outcome_act kind rem d wall actor = with_detail "reason" rem.reason (
    with_detail "removal_id" rem.id
      (with_detail "dispute_id" d.id (moderation_act kind rem wall actor)))

pub restored_act : Removal → Dispute → String → Actor → ActEntry
unfolding outcome_act
restored_act = outcome_act post_restored

pub left_standing_act : Removal → Dispute → String → Actor → ActEntry
unfolding outcome_act
left_standing_act = outcome_act removal_left_standing

abbrev is_reinstated : DisputeState → Bool
is_reinstated reinstated = true
is_reinstated _ = false

pub dispute_outcome_act : Removal → Dispute → String → Actor → ActEntry
unfolding restored_act left_standing_act
dispute_outcome_act rem d wall actor =
    if is_reinstated d.state
    then restored_act rem d wall actor
    else left_standing_act rem d wall actor

pub report_left_standing_act : Dismissal → String → Actor → ActEntry
report_left_standing_act d wall actor = record {
  structure_id = d.structure_id;
  kind = report_left_standing;
  actor_id = actor.id;
  actor_label = actor.label;
  actor_structure_id = default_to actor.structure_id d.structure_id;
  subject_ref = default_to wall d.structure_id;
  subject_id = d.message_id;
  detail =
      ("message_id", d.message_id)
      ∷ (("reason", d.reason)
          ∷ (("actor_role_class", d.actor_role_class) ∷ (("dismissal_id", d.id) ∷ [])));
}
