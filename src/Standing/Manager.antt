-- ===== src/Standing/Manager.antt =====
-- manager_standing.go: what a caller may do with a structure's standing messages.
use mwanachama_backend_comm.Base.{
  ℕ, Bool, true, false, not, ◌&&◌, Option, none, some, List, [], ◌∷◌, String, ◌==◌, eqb,
  if◌then◌else◌,
}
use mwanachama_backend_comm.Errors.{Result, ok, err, standing_invalid, standing_not_found}
use mwanachama_backend_comm.Exec.{Exec, pure, lift, ◌>>=◌, ◌>>◌}
use mwanachama_backend_comm.Chat.Label.{Unicode}
use mwanachama_backend_comm.Chat.Threads.{attempt}
use mwanachama_backend_comm.Chat.Manager.{ChatHost, in_structure_fence, as_lead, in_thread}
use mwanachama_backend_comm.Standing.Types.{StandingMessage, Schedule, Recur, Wire}
use mwanachama_backend_comm.Standing.Store.{
  StandingDb, StandingEngine, on_chat, get_standing, create_standing, list_standing, stop_standing,
}

abbrev or_invalid_wire :
    {Zone Rule Date : Type 0} → Option (Schedule Zone Rule Date) → Result (Schedule Zone Rule Date)
or_invalid_wire none = err standing_invalid
or_invalid_wire (some sch) = ok sch

-- Any error of a fence, as a missing standing message.
abbrev or_hidden : Result (Unit {0}) → Result (Unit {0})
or_hidden (ok u) = ok u
or_hidden (err e) = err standing_not_found

abbrev is_open_fence : Result (Unit {0}) → Bool
is_open_fence (ok u) = true
is_open_fence (err e) = false

module _ {Zone Rule Date : Type 0} (recur : Recur Zone Rule Date) (h : ChatHost)
    (g : StandingEngine) (u : Unicode) (clock : ℕ) (minted : String) where
  pub standing_fence : String → String → String → Exec StandingDb (Unit {0})
  standing_fence structure thread caller =
      if thread == ""
      then lift (in_structure_fence h structure caller)
      else on_chat (in_thread h g.chat_engine u clock minted structure thread caller)

  abbrev standing_from :
      String → String → String → String → Wire → Schedule Zone Rule Date → StandingMessage
  standing_from structure thread caller body wire sch = record {
    id = "";
    structure_id = structure;
    thread_id = thread;
    author_id = caller;
    body = body;
    rule = wire.rule;
    dates = wire.dates;
    zone = wire.zone;
    starts_at = sch.start;
    ends_at = if eqb sch.end_at 0 then none else some sch.end_at;
    last_sent_at = none;
    stopped_at = none;
    stopped_by = "";
    created_at = 0;
  }

  pub create_standing_message_for :
      String → String → String → String → Wire → Exec StandingDb StandingMessage
  create_standing_message_for structure caller thread body wire = do
    lift (as_lead h structure caller)
    standing_fence structure thread caller
    sch ← lift (or_invalid_wire (recur.wire_schedule wire))
    create_standing recur g clock minted (standing_from structure thread caller body wire sch)

  pub get_standing_message_for : String → String → String → Exec StandingDb StandingMessage
  get_standing_message_for structure id caller = do
    lift (in_structure_fence h structure caller)
    msg ← get_standing recur g clock minted structure id
    fence ← attempt (standing_fence structure msg.thread_id caller)
    lift (or_hidden fence)
    pure msg

  -- The loop of `ListStandingMessagesFor`.
  abbrev readable_ones :
      String → String → List StandingMessage → Exec StandingDb (List StandingMessage)
  readable_ones structure caller [] = pure []
  readable_ones structure caller (msg ∷ msgs) = do
    fence ←
        attempt (on_chat (in_thread h g.chat_engine u clock minted structure msg.thread_id caller))
    rest ← readable_ones structure caller msgs
    pure (if not (msg.thread_id == "") && not (is_open_fence fence) then rest else msg ∷ rest)

  pub list_standing_messages_for : String → String → Exec StandingDb (List StandingMessage)
  list_standing_messages_for structure caller = do
    lift (in_structure_fence h structure caller)
    msgs ← list_standing recur g clock minted structure
    readable_ones structure caller msgs

  pub stop_standing_message_for : String → String → String → Exec StandingDb StandingMessage
  stop_standing_message_for structure id caller = do
    lift (as_lead h structure caller)
    get_standing_message_for structure id caller
    stop_standing recur g clock minted structure id caller
