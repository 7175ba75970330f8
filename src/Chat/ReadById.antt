-- ===== src/Chat/ReadById.antt =====
-- manager_read_by_id.go: one message of a chat, for a caller who names it.
use mwanachama_backend_comm.Base.{ℕ, Bool, true, false, not, String, ◌==◌, if◌then◌else◌}
use mwanachama_backend_comm.Errors.{Result, ok, err, chat_not_found, moderation_not_found}
use mwanachama_backend_comm.Exec.{Exec, pure, require, lift, ◌>>=◌, ◌>>◌}
use mwanachama_backend_comm.Moderation.Types.{Removal}
use mwanachama_backend_comm.Moderation.Store.{
  ModerationDb, ModerationEngine, get_removal_for_message,
}
use mwanachama_backend_comm.Chat.Types.{ChatMessage}
use mwanachama_backend_comm.Chat.Label.{Unicode}
use mwanachama_backend_comm.Chat.Threads.{attempt}
use mwanachama_backend_comm.Chat.Messages.{ChatDb, ChatEngine, get_message}
use mwanachama_backend_comm.Chat.Manager.{ChatHost, in_structure_fence, in_thread}

-- The tables of chat and of moderation, which the same database holds.
pub record ReadRoom (L : Type 0) : Type 0 where
  pub chat : ChatDb
  pub moderation : ModerationDb L

module _ {L : Type 0} (h : ChatHost) (g : ChatEngine) (mod_engine : ModerationEngine L)
    (u : Unicode) (now : ℕ) (minted : String) where
  abbrev on_chat_of : {A : Type 0} → Exec ChatDb A → Exec (ReadRoom L) A
  on_chat_of m s = let (r, db) = m s.chat in (r, record s { chat = db })

  abbrev on_moderation : {A : Type 0} → Exec (ModerationDb L) A → Exec (ReadRoom L) A
  on_moderation m s = let (r, db) = m s.moderation in (r, record s { moderation = db })

  abbrev is_removed_result : Result Removal → Result Bool
  is_removed_result (ok r) = ok true
  is_removed_result (err moderation_not_found) = ok false
  is_removed_result (err e) = err e

  pub message_removed : String → Exec (ReadRoom L) Bool
  message_removed message = do
    r ← attempt (on_moderation (get_removal_for_message mod_engine message))
    lift (is_removed_result r)

  -- What one reads of a message that is one's own, and of another's.
  abbrev own_or_readable : String → String → ChatMessage → Exec (ReadRoom L) ChatMessage
  own_or_readable message caller msg =
      if msg.author_id == caller
      then (do lift (in_structure_fence h msg.structure_id caller); pure msg)
      else (do
        on_chat_of (in_thread h g u now minted msg.structure_id msg.thread_id caller)
        removed ← message_removed message
        require (not removed) chat_not_found
        pure msg)

  pub get_chat_message_for : String → String → Exec (ReadRoom L) ChatMessage
  unfolding message_removed
  get_chat_message_for message caller = do
    require (not (caller == "")) chat_not_found
    msg ← on_chat_of (get_message g now minted message)
    own_or_readable message caller msg
