-- ===== src/Dm/Manager.antt =====
-- manager_dm.go: what a caller may do with a conversation.
pub mod Fence
use mwanachama_backend_comm.Base.{
  ℕ, Bool, true, false, not, ◌&&◌, Option, List, [], ◌∷◌, String, ◌==◌, any, map, leb, length,
  codes, if◌then◌else◌,
}
use mwanachama_backend_comm.Errors.{Error, Result, ok, err, dm_not_found, dm_invalid_reaction}
use mwanachama_backend_comm.Exec.{Exec, pure, raise, require, ◌>>=◌, ◌>>◌}
use mwanachama_backend_comm.Dm.Types.{DmThread, DmParticipant, DmMessage, DmReaction, DmDeviceKey}
use mwanachama_backend_comm.Dm.Roster.{is_active, re_enable}
use mwanachama_backend_comm.Dm.Messages.{
  DmDb, DmEngine, on_participants, list_participants, list_threads_for, get_thread, list_messages,
  list_reactions, get_message, set_reaction, clear_reaction, publish_device_key,
}

abbrev pub max_reaction_runes : ℕ
max_reaction_runes = 8

-- `forCaller`: which of the thread's two addresses is the caller's own.
abbrev pub for_caller : String → DmThread → DmThread
for_caller caller t =
    if caller == t.opened_via_address_owner
    then record t { my_address_index = t.opened_via_address_index }
    else if caller == t.sent_from_address_owner
    then record t { my_address_index = t.sent_from_address_index }
    else t

module _ (g : DmEngine) (now : ℕ) (minted : String) where
  pub on_roster : String → String → Exec DmDb Bool
  on_roster thread caller = do
    parts ← list_participants g now minted thread
    pure (any (λ p. p.actor_id == caller) parts)

  pub active_on_roster : String → String → Exec DmDb Bool
  active_on_roster thread caller = do
    parts ← list_participants g now minted thread
    pure (any (λ p. p.actor_id == caller && is_active p.state) parts)

  -- `fence`, of what the roster said.
  abbrev pub fence : Exec DmDb Bool → Exec DmDb (Unit {0})
  fence allowed = do on_it ← allowed; require on_it dm_not_found

  pub list_dm_threads_for : String → Exec DmDb (List DmThread)
  list_dm_threads_for caller = do
    out ← list_threads_for g now minted caller
    pure (map (for_caller caller) out)

  pub get_dm_thread_for : String → String → Exec DmDb DmThread
  unfolding on_roster
  get_dm_thread_for thread caller = do
    fence (on_roster thread caller)
    t ← get_thread g now minted thread
    pure (for_caller caller t)

  pub list_dm_participants_for : String → String → Exec DmDb (List DmParticipant)
  unfolding on_roster
  list_dm_participants_for thread caller = do
    fence (on_roster thread caller)
    list_participants g now minted thread

  pub list_dm_messages_for : String → String → Exec DmDb (List DmMessage)
  unfolding active_on_roster
  list_dm_messages_for thread caller = do
    fence (active_on_roster thread caller)
    list_messages g now minted thread

  pub list_dm_reactions_for : String → String → Exec DmDb (List DmReaction)
  unfolding active_on_roster
  list_dm_reactions_for thread caller = do
    fence (active_on_roster thread caller)
    list_reactions g now minted thread

  pub active_on_message_roster : String → String → Exec DmDb (Unit {0})
  unfolding active_on_roster
  active_on_message_roster message caller = do
    m ← get_message g now minted message
    fence (active_on_roster m.thread_id caller)

  pub set_dm_reaction_for : String → String → String → Exec DmDb (Unit {0})
  unfolding active_on_message_roster
  set_dm_reaction_for message caller emoji = do
    active_on_message_roster message caller
    require (not (emoji == "")) dm_invalid_reaction
    require (leb (length (codes emoji)) max_reaction_runes) dm_invalid_reaction
    set_reaction g now minted
        (record { message_id = message; actor_id = caller; emoji = emoji; created_at = 0 })

  pub clear_dm_reaction_for : String → String → Exec DmDb (Unit {0})
  unfolding active_on_message_roster
  clear_dm_reaction_for message caller = do
    active_on_message_roster message caller
    clear_reaction g now minted message caller

  -- `ReEnableFor`: the target is the caller where none is named.
  pub re_enable_for : String → String → String → Exec DmDb DmParticipant
  re_enable_for thread actor by =
      on_participants
        (re_enable g.participant_table now thread (if actor == "" then by else actor) by)

  pub publish_dm_device_key_for : DmDeviceKey → String → String → Exec DmDb DmDeviceKey
  publish_dm_device_key_for k caller device =
      publish_device_key g now minted
        (record k { actor_id = caller; published_by = caller; device_id = device })
