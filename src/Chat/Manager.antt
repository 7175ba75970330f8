-- ===== src/Chat/Manager.antt =====
-- manager_chat.go and chat_archive_impl.go: what a caller may do with a structure's chat.
pub mod Fence
use mwanachama_backend_comm.Base.{
  ℕ, Bool, true, false, not, ◌&&◌, ◌||◌, Option, none, some, List, [], ◌∷◌, String, ◌==◌, is_blank,
  is_some, if◌then◌else◌,
}
use mwanachama_backend_comm.Errors.{
  Error, Result, ok, err, chat_not_found, chat_invalid, chat_thread_declined,
}
use mwanachama_backend_comm.Exec.{Exec, pure, raise, require, lift, ◌>>=◌, ◌>>◌}
use mwanachama_backend_comm.Validate.{holds}
use mwanachama_backend_comm.Chat.Types.{
  ChatThread, ChatMessage, ChatReadMarker, ChatArchive, ChatThreadView, for_leads, declined,
  readable_by, attachment_is_whole,
}
use mwanachama_backend_comm.Chat.Label.{Unicode}
use mwanachama_backend_comm.Chat.Threads.{thread_in, list_threads, open_thread}
use mwanachama_backend_comm.Chat.Messages.{
  ChatDb, ChatEngine, on_threads, get_message, list_messages, list_messages_after, post, mark_read,
  unread_counts, latest_posts, archive, unarchive, archived_threads,
}

-- The host's callbacks: does an actor belong to a structure, does an actor lead one. None is set
-- until `UseBelonging` and `UseLeading` are called.
pub record ChatHost : Type 0 where
  pub belonging : Option (String → String → Result Bool)
  pub leading : Option (String → String → Result Bool)

-- `counts[id]` of a map from texts to numbers.
abbrev pub entry : String → List (String × ℕ) → Option ℕ
entry id [] = none
entry id (x ∷ xs) = if x.0 == id then some x.1 else entry id xs

abbrev pub or_zero : Option ℕ → ℕ
or_zero none = 0
or_zero (some n) = n

-- The loop of `threadViews`.
abbrev pub views_of :
    String
    → Bool
    → Bool
    → List (String × ℕ)
    → List (String × ℕ)
    → List String
    → List ChatThread
    → List ChatThreadView
views_of caller leading archived_ones unread latest archived [] = []
views_of caller leading archived_ones unread latest archived (t ∷ ts) =
    let rest = views_of caller leading archived_ones unread latest archived ts in
    let wanted = if archived_ones then holds archived t.id else not (holds archived t.id) in
    if wanted && readable_by t caller leading
    then record {
      thread = t;
      unread = or_zero (entry t.id unread);
      last_message_at = entry t.id latest;
    }
      ∷ rest
    else rest

module _ (h : ChatHost) where
  -- `m.leads`.
  pub leads_structure : String → String → Result Bool
  leads_structure structure caller = elim (h.leading) [
    | none ↦ ok false
    | some leading ↦ if caller == "" || structure == "" then ok false else leading caller structure
  ]

  pub in_structure_fence : String → String → Result (Unit {0})
  in_structure_fence structure caller = elim (h.belonging) [
    | none ↦ err chat_not_found
    | some belonging ↦
        if caller == "" || structure == ""
        then err chat_not_found
        else elim (belonging caller structure) [
          | err e ↦ err e
          | ok belongs ↦ if belongs then ok tt else err chat_not_found
        ]
  ]

  pub as_lead : String → String → Result (Unit {0})
  unfolding in_structure_fence leads_structure
  as_lead structure caller = elim (in_structure_fence structure caller) [
    | err e ↦ err e
    | ok _ ↦ elim (leads_structure structure caller) [
      | err e ↦ err e
      | ok leading ↦ if leading then ok tt else err chat_not_found
    ]
  ]

module _ (h : ChatHost) (g : ChatEngine) (u : Unicode) (now : ℕ) (minted : String) where
  -- The rest of `inThread`, for the thread that was found.
  abbrev pub readable_fence : String → String → ChatThread → Exec ChatDb (Unit {0})
  readable_fence structure caller t =
      if for_leads t.audience
      then (do
        leading ← lift (leads_structure h structure caller)
        require (readable_by t caller leading) chat_not_found)
      else pure tt

  pub in_thread : String → String → String → Exec ChatDb (Unit {0})
  unfolding in_structure_fence leads_structure
  in_thread structure thread caller = do
    lift (in_structure_fence h structure caller)
    t ← on_threads (thread_in g.thread_table u now minted structure thread)
    readable_fence structure caller t

  pub thread_views : Bool → String → String → Exec ChatDb (List ChatThreadView)
  unfolding in_structure_fence leads_structure
  thread_views archived_ones structure caller = do
    lift (in_structure_fence h structure caller)
    threads ← on_threads (list_threads g.thread_table u now minted structure)
    unread ← unread_counts g now minted structure caller
    latest ← latest_posts g now minted structure
    leading ← lift (leads_structure h structure caller)
    archived ← archived_threads g now minted structure caller
    pure (views_of caller leading archived_ones unread latest archived threads)

  pub list_chat_threads_for : String → String → Exec ChatDb (List ChatThreadView)
  unfolding thread_views
  list_chat_threads_for structure caller = thread_views false structure caller

  pub list_archived_chat_threads_for : String → String → Exec ChatDb (List ChatThreadView)
  unfolding thread_views
  list_archived_chat_threads_for structure caller = thread_views true structure caller

  pub open_chat_thread_for : String → String → String → Exec ChatDb ChatThread
  unfolding as_lead
  open_chat_thread_for structure thread caller = do
    lift (as_lead h structure caller)
    on_threads (open_thread g.thread_table u now minted structure thread)

  abbrev pub of_thread : String → String → ChatMessage → Bool
  of_thread structure thread m = m.structure_id == structure && m.thread_id == thread

  -- The time up to which a reader has read: now, or that of the message named.
  pub read_until : String → String → String → Exec ChatDb ℕ
  read_until structure thread message = if message == "" then pure now else (do
    seen ← get_message g now minted message
    require (of_thread structure thread seen) chat_not_found
    pure seen.created_at)

  abbrev pub mark_until : String → String → String → String → Exec ChatDb ChatReadMarker
  mark_until structure thread reader message = do
    at ← read_until structure thread message
    mark_read g now minted structure thread reader at

  pub mark_chat_thread_read_for : String → String → String → String → Exec ChatDb ChatReadMarker
  unfolding in_thread read_until
  mark_chat_thread_read_for structure thread reader message = do
    in_thread structure thread reader
    mark_until structure thread reader message

  abbrev pub messages_from : String → String → String → Exec ChatDb (List ChatMessage)
  messages_from structure thread after_id =
      if after_id == "" then list_messages g now minted structure thread else (do
        after ← get_message g now minted after_id
        require (of_thread structure thread after) chat_not_found
        list_messages_after g now minted after)

  pub list_chat_messages_for : String → String → String → String → Exec ChatDb (List ChatMessage)
  unfolding in_thread
  list_chat_messages_for structure thread caller after_id = do
    in_thread structure thread caller
    if after_id == "" then list_messages g now minted structure thread else (do
      after ← get_message g now minted after_id
      require (of_thread structure thread after) chat_not_found
      list_messages_after g now minted after)

  abbrev pub new_message : String → String → String → String → String → String → ChatMessage
  new_message structure thread caller body kind attachment = record {
    id = "";
    structure_id = structure;
    thread_id = thread;
    author_id = caller;
    body = body;
    created_at = 0;
    attachment_kind = kind;
    attachment_id = attachment;
  }

  abbrev pub post_in : ChatMessage → ChatThread → Exec ChatDb ChatMessage
  post_in m t = do require (not (declined t)) chat_thread_declined; post g now minted m

  -- The last three steps of `PostChatMessageFor`.
  abbrev pub post_whole : String → String → ChatMessage → Exec ChatDb ChatMessage
  post_whole structure thread m = do
    lift (attachment_is_whole m)
    t ← on_threads (thread_in g.thread_table u now minted structure thread)
    post_in m t

  pub post_chat_message_for :
      String → String → String → String → String → String → Exec ChatDb ChatMessage
  unfolding in_thread
  post_chat_message_for structure thread caller body kind attachment = do
    in_thread structure thread caller
    require (not (is_blank body)) chat_invalid
    post_whole structure thread (new_message structure thread caller body kind attachment)

  pub archive_chat_thread_for : String → String → String → Exec ChatDb ChatArchive
  unfolding in_thread
  archive_chat_thread_for structure thread reader = do
    in_thread structure thread reader
    archive g now minted structure thread reader

  pub unarchive_chat_thread_for : String → String → String → Exec ChatDb (Unit {0})
  unfolding in_thread
  unarchive_chat_thread_for structure thread reader = do
    in_thread structure thread reader
    unarchive g now minted thread reader
