-- ===== src/Subject/Manager.antt =====
-- manager_subject.go and manager_read_by_id.go: what a caller may do with the threads of a record.
pub mod Reads
pub mod Fence
pub mod Replies
pub mod Posted
pub mod Whole
use mwanachama_backend_comm.Base.{
  ℕ, Bool, true, false, not, ◌&&◌, ◌||◌, Option, none, some, List, [], ◌∷◌, String, ◌==◌, map, keep,
  is_blank, if◌then◌else◌,
}
use mwanachama_backend_comm.Errors.{
  Error, Result, ok, err, subject_not_found, subject_invalid, notification_muted,
}
use mwanachama_backend_comm.Exec.{Exec, Transaction, pure, raise, require, lift, ◌>>=◌, ◌>>◌}
use mwanachama_backend_comm.Validate.{holds}
use mwanachama_backend_comm.Chat.Threads.{attempt}
use mwanachama_backend_comm.Notification.Types.{Notification}
use mwanachama_backend_comm.Notification.Store.{
  NotificationDb, NotificationEngine, raise_notification,
}
use mwanachama_backend_comm.Notification.Audience.{Recipients, RaiseRoom, recipients_for}
use mwanachama_backend_comm.Subject.Types.{
  SubjectThread, SubjectThreadView, SubjectThreadMessage, SubjectAudience, SubjectStanding,
  is_private, is_group, is_answerer, is_audience, shown_to, thread_readable_by,
}
use mwanachama_backend_comm.Subject.Store.{
  SubjectDb, SubjectEngine, open_thread, get_thread, list_threads, views, list_messages, post,
  audience_authors, is_subject_not_found,
}

-- The host's callbacks: how an actor stands to a record, and who answers for it.
pub record SubjectHost : Type 0 where
  pub standing : Option (String → String → String → Result SubjectStanding)
  pub answerers : Option (String → String → Result (List String))
  pub recipients : Option Recipients

module _ (h : SubjectHost) where
  abbrev pub or_no_standing : SubjectStanding → Result SubjectStanding
  or_no_standing st = if is_audience st || is_answerer st then ok st else err subject_not_found

  unfoldable pub standing_on : String → String → String → Result SubjectStanding
  standing_on caller kind id = elim (h.standing) [
    | none ↦ err subject_not_found
    | some standing ↦
        if caller == "" || kind == "" || id == ""
        then err subject_not_found
        else elim (standing caller kind id) [ err e ↦ err e | ok st ↦ or_no_standing st ]
  ]

  -- The loop of `answerersToTell`, of those that `seen` does not hold.
  abbrev pub tell_each : String → String → List String → List String → Result (List String)
  tell_each kind id seen [] = ok []
  tell_each kind id seen (a ∷ named) =
      if holds seen a then tell_each kind id seen named else elim (standing_on a kind id) [
        | err e ↦ if is_subject_not_found e then tell_each kind id (a ∷ seen) named else err e
        | ok st ↦ elim (tell_each kind id (a ∷ seen) named) [
          | err e ↦ err e
          | ok rest ↦ ok (if is_answerer st then a ∷ rest else rest)
        ]
      ]

  unfoldable pub answerers_to_tell : SubjectThread → String → SubjectStanding → Result (List String)
  unfolding standing_on
  answerers_to_tell t poster st = elim (h.answerers) [
    | none ↦ ok []
    | some answerers ↦
        if not (is_private t.audience) || not (is_audience st)
        then ok []
        else elim (answerers t.subject_kind t.subject_id) [
          | err e ↦ err e
          | ok named ↦ tell_each t.subject_kind t.subject_id (poster ∷ ("" ∷ [])) named
        ]
  ]

module _ (h : SubjectHost) (g : SubjectEngine) (now : ℕ) (minted : String) where
  abbrev pub readable_by_standing :
      String → SubjectThread → SubjectStanding → Exec SubjectDb (SubjectThread × SubjectStanding)
  readable_by_standing caller t st = do
    require (thread_readable_by t caller st) subject_not_found
    pure (t, st)

  unfoldable pub readable_thread :
      String → String → Exec SubjectDb (SubjectThread × SubjectStanding)
  unfolding standing_on
  readable_thread thread caller = do
    t ← get_thread g now minted thread
    st ← lift (standing_on h caller t.subject_kind t.subject_id)
    readable_by_standing caller t st

  unfoldable pub get_subject_thread_for : String → String → Exec SubjectDb SubjectThread
  unfolding readable_thread
  get_subject_thread_for thread caller = do r ← readable_thread thread caller; pure r.0

  -- The owner of a thread that is opened, if one may open it.
  abbrev pub owner_of : String → SubjectStanding → SubjectAudience → Result String
  owner_of caller st audience =
      if is_private audience && is_audience st
      then ok caller
      else if is_private audience
      then err subject_invalid
      else if not (is_group audience)
      then err subject_invalid
      else ok ""

  abbrev first_view : List SubjectThreadView → Exec SubjectDb SubjectThreadView
  first_view [] = raise subject_not_found
  first_view (v ∷ vs) = pure v

  pub open_subject_thread_for :
      String → String → String → SubjectAudience → Exec SubjectDb SubjectThreadView
  unfolding standing_on
  open_subject_thread_for kind id caller audience = do
    st ← lift (standing_on h caller kind id)
    owner ← lift (owner_of caller st audience)
    t ← open_thread g now minted kind id audience owner
    vs ← views g now minted (t ∷ [])
    first_view vs

  unfoldable pub list_subject_threads_for :
      String → String → String → Exec SubjectDb (List SubjectThreadView)
  unfolding standing_on
  list_subject_threads_for kind id caller = do
    st ← lift (standing_on h caller kind id)
    threads ← list_threads g now minted kind id
    views g now minted (keep (λ t. thread_readable_by t caller st) threads)

  abbrev pub all_shown_to : SubjectStanding → List SubjectThreadMessage → List SubjectThreadMessage
  all_shown_to st [] = []
  all_shown_to st (m ∷ ms) = shown_to m st ∷ all_shown_to st ms

  abbrev pub messages_shown :
      String → SubjectThread × SubjectStanding → Exec SubjectDb (List SubjectThreadMessage)
  messages_shown thread (t, st) = do
    msgs ← list_messages g now minted thread
    pure (all_shown_to st msgs)

  unfoldable pub list_subject_messages_for :
      String → String → Exec SubjectDb (List SubjectThreadMessage)
  unfolding readable_thread
  list_subject_messages_for thread caller = do
    r ← readable_thread thread caller
    messages_shown thread r

  abbrev pub except : String → List String → List String
  except poster = keep (λ a. not (a == poster))

  unfoldable pub reply_recipients :
      SubjectThread → String → SubjectStanding → List String → Exec SubjectDb (List String)
  reply_recipients t poster st answerers =
      if is_private t.audience
      then pure
          (if is_answerer st && not (t.owner_id == poster) then t.owner_id ∷ [] else answerers)
      else (do authors ← audience_authors g now minted t.id; pure (except poster authors))
