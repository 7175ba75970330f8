-- ===== src/Notification/Rules.antt =====
-- models/notification_rule.go and manager_settings.go: a host's rules on who is told of an event.
use mwanachama_backend_comm.Base.{
  Bool, ◌||◌, Option, none, some, List, [], ◌∷◌, String, ◌==◌, any, find_first, if◌then◌else◌,
}
use mwanachama_backend_comm.Errors.{Result, ok, err, notification_rule_invalid, ◌>>=◌}
use mwanachama_backend_comm.Validate.{holds}

pub record NotificationRule : Type 0 where
  pub event : String
  pub told : List String
  pub fallback : List String
  pub mutable : Bool

-- encoding/json, as it is called: `Marshal` of a stored value, and `Unmarshal` of a list of rules.
pub record Json (Value : Type 0) : Type 0 where
  pub marshal : Value → Option String
  pub unmarshal : String → Option (List NotificationRule)

abbrev names_nobody : NotificationRule → Bool
names_nobody r = any (λ a. a == "") r.told || any (λ a. a == "") r.fallback

-- The loop of `ParseNotificationRules`, with the events that it has seen.
check_rules : List String → List NotificationRule → Result (Unit {0})
check_rules seen [] = ok tt
check_rules seen (r ∷ rules) =
    if (r.event == "" || holds seen r.event) || names_nobody r
    then err notification_rule_invalid
    else check_rules (r.event ∷ seen) rules

abbrev when_sound : List NotificationRule → Result (List NotificationRule)
when_sound rules = elim (check_rules [] rules) [ err e ↦ err e | ok _ ↦ ok rules ]

module _ {Value : Type 0} (json : Json Value) where
  abbrev parse_text : String → Result (List NotificationRule)
  parse_text raw = if raw == "null" then ok [] else elim (json.unmarshal raw) [
    | none ↦ err notification_rule_invalid
    | some rules ↦ when_sound rules
  ]

  pub parse_notification_rules : Value → Result (List NotificationRule)
  unfolding check_rules
  parse_notification_rules value = elim (json.marshal value) [
    | none ↦ err notification_rule_invalid
    | some raw ↦ parse_text raw
  ]

  -- What `spec.ResolveStored` returns of a setting, over its layers.
  pub record Effective (Layer : Type 0) : Type 0 where
    pub value : Value
    pub layer : Layer
    pub by : String
    pub at : String

  pub record NotificationRules (Layer : Type 0) : Type 0 where
    pub rules : List NotificationRule
    pub layer : Layer
    pub by : String
    pub at : String

  module _ {Layer : Type 0} (resolve_stored : String → Result (Effective Layer)) where
    abbrev with_rules : Effective Layer → List NotificationRule → NotificationRules Layer
    with_rules effective rules = record {
      rules = rules;
      layer = effective.layer;
      by = effective.by;
      at = effective.at;
    }

    pub notification_rules : Result (NotificationRules Layer)
    unfolding parse_notification_rules
    notification_rules = do
      effective ← resolve_stored "notification_rules"
      rules ← parse_notification_rules effective.value
      ok (with_rules effective rules)

    abbrev rule_for : String → NotificationRules Layer → Option NotificationRule
    rule_for event resolved = find_first (λ r. r.event == event) resolved.rules

    pub notification_rule : String → Result (Option NotificationRule)
    unfolding notification_rules
    notification_rule event = do resolved ← notification_rules; ok (rule_for event resolved)
