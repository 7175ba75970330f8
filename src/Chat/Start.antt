-- ===== src/Chat/Start.antt =====
-- manager_chat_start.go: starting and declining a thread, with the notifications that this raises.
use mwanachama_backend_comm.Base.{
  ℕ, Bool, true, false, not, ◌||◌, Option, none, some, List, [], ◌∷◌, String, Text, ◌==◌,
  if◌then◌else◌,
}
use mwanachama_backend_comm.Errors.{Error, Result, ok, err, notification_muted}
use mwanachama_backend_comm.Exec.{Exec, Transaction, pure, raise, lift, ◌>>=◌, ◌>>◌}
use mwanachama_backend_comm.Validate.{holds}
use mwanachama_backend_comm.Notification.Types.{Notification}
use mwanachama_backend_comm.Notification.Store.{
  NotificationDb, NotificationEngine, raise_notification,
}
use mwanachama_backend_comm.Notification.Audience.{Recipients, RaiseRoom, recipients_for, to_actor}
use mwanachama_backend_comm.Chat.Types.{ChatThread, readable_by}
use mwanachama_backend_comm.Chat.Label.{Unicode}
use mwanachama_backend_comm.Chat.Threads.{
  Threads, attempt, is_chat_not_found, start_thread, request_thread, decline_round,
}
use mwanachama_backend_comm.Chat.Messages.{ChatDb, ChatEngine, on_threads}
use mwanachama_backend_comm.Chat.Manager.{ChatHost, leads_structure, in_structure_fence, as_lead}

-- The tables of chat and of notifications, which the same database holds.
pub record ChatRoom : Type 0 where
  pub chat : ChatDb
  pub notices : NotificationDb

abbrev pub on_chat : {A : Type 0} → Exec ChatDb A → Exec ChatRoom A
on_chat m s = let (r, db) = m s.chat in (r, record s { chat = db })

abbrev pub on_notices : {A : Type 0} → Exec NotificationDb A → Exec ChatRoom A
on_notices m s = let (r, db) = m s.notices in (r, record s { notices = db })

-- What `inChatTransaction` gives back, with the thread that its work sets.
abbrev pub Starting : Type 0
Starting = ChatThread × List Notification

-- `Leads`, the host's callback, once it is set.
abbrev pub Leads : Type 0
Leads = String → Result (List String)

abbrev is_muted_error : Error → Bool
is_muted_error notification_muted = true
is_muted_error _ = false

abbrev chat_notification : String → String → String → String → Notification
chat_notification by event thread structure = record {
  id = "";
  actor_id = "";
  author_actor_id = by;
  seat_role_kind_id = "";
  seat_structure_id = "";
  category = "chat";
  event = event;
  subject_kind = "chat_thread";
  subject_id = thread;
  names = [];
  structure_id = structure;
  created_at = 0;
  read_at = none;
}

module _ (h : ChatHost) where
  -- The loop of `leadsToTell`, of those that `seen` does not hold.
  abbrev lead_each : String → List String → List String → Result (List String)
  lead_each structure seen [] = ok []
  lead_each structure seen (a ∷ named) =
      if holds seen a
      then lead_each structure seen named
      else elim (in_structure_fence h structure a) [
        | err e ↦ if is_chat_not_found e then lead_each structure (a ∷ seen) named else err e
        | ok _ ↦ elim (leads_structure h structure a) [
          | err e ↦ err e
          | ok lead ↦ elim (lead_each structure (a ∷ seen) named) [
            | err e ↦ err e
            | ok rest ↦ ok (if lead then a ∷ rest else rest)
          ]
        ]
      ]

  pub leads_to_tell : Option Leads → String → String → Result (List String)
  leads_to_tell none structure requester = ok []
  leads_to_tell (some leads_of) structure requester = elim (leads_of structure) [
    | err e ↦ err e
    | ok named ↦ lead_each structure (requester ∷ ("" ∷ [])) named
  ]

-- The clock and the minted id of each notification are given by its recipient; `again` is the second
-- call that `DeclineThread` makes of itself.
module _ (h : ChatHost) (leads_of : Option Leads) (recipients : Option Recipients) (g : ChatEngine)
    (n : NotificationEngine) (u : Unicode) (tx : Transaction ChatRoom Starting) (now : ℕ)
    (minted : String) (clock : String → ℕ) (minted_for : String → String)
    (again : Exec Threads (ChatThread × Bool)) where
  abbrev one_raised :
      Result Notification
      → Exec NotificationDb (List Notification)
      → Exec NotificationDb (List Notification)
  one_raised (ok raised) rest = do others ← rest; pure (raised ∷ others)
  one_raised (err e) rest = if is_muted_error e then rest else raise e

  -- `raiseEach`.
  abbrev pub raise_each_of : Notification → List String → Exec NotificationDb (List Notification)
  raise_each_of template [] = pure []
  raise_each_of template (actor ∷ actors) = do
    r ← attempt (raise_notification n (clock actor) (minted_for actor) (to_actor template actor))
    one_raised r (raise_each_of template actors)

  abbrev tell_leads : String → String → List String → ChatThread × Bool → Exec ChatRoom Starting
  tell_leads structure caller told (t, false) = pure (t, [])
  tell_leads structure caller told (t, true) = do
    raised ←
        on_notices (raise_each_of (chat_notification caller "thread_requested" t.id structure) told)
    pure (t, raised)

  abbrev request_work : String → Text → String → List String → Exec ChatRoom Starting
  request_work structure label caller told = do
    r ← on_chat (
        on_threads (
          request_thread g.thread_table u now minted structure label caller
            (λ t. readable_by t caller false)))
    tell_leads structure caller told r

  pub start_requested : String → String → Text → Exec ChatRoom ChatThread
  unfolding leads_to_tell
  start_requested structure caller label = do
    told ← lift (leads_to_tell h leads_of structure caller)
    out ← tx.run (request_work structure label caller told)
    pure out.0

  pub start_chat_thread_for : String → String → Text → Exec ChatRoom ChatThread
  unfolding start_requested
  start_chat_thread_for structure caller label = do
    lift (in_structure_fence h structure caller)
    leading ← lift (leads_structure h structure caller)
    if leading
        then on_chat (on_threads (start_thread g.thread_table u now minted structure label))
        else start_requested structure caller label

  abbrev decline_room : String → String → RaiseRoom
  decline_room structure thread = record {
    structure_id = structure;
    thread_id = thread;
    subject_kind = "";
    subject_id = "";
  }

  abbrev tell_requester : String → String → ChatThread × Bool → Exec ChatRoom Starting
  tell_requester structure caller (t, declined) =
      if not declined || t.requested_by == caller then pure (t, []) else (do
        told ← lift (
            recipients_for recipients "thread_declined" (decline_room structure t.id)
              (t.requested_by ∷ []))
        raised ←
            on_notices
              (raise_each_of (chat_notification caller "thread_declined" t.id structure) told)
        pure (t, raised))

  abbrev decline_work : String → String → String → Exec ChatRoom Starting
  decline_work structure thread caller = do
    r ←
        on_chat
          (on_threads (decline_round g.thread_table u now minted again structure thread caller))
    tell_requester structure caller r

  pub decline_chat_thread_for : String → String → String → Exec ChatRoom ChatThread
  decline_chat_thread_for structure thread caller = do
    lift (as_lead h structure caller)
    out ← tx.run (decline_work structure thread caller)
    pure out.0
