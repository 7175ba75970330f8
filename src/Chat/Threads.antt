-- ===== src/Chat/Threads.antt =====
-- chat_impl.go: the threads of `ChatStore`.
pub mod Decline
use mwanachama_backend_comm.Base.{
  ℕ, Bool, true, false, not, ◌&&◌, Option, none, some, List, [], ◌∷◌, String, Text, ◌==◌, eqb,
  is_some, oldest_first, if◌then◌else◌,
}
use mwanachama_backend_comm.Errors.{
  Error, Result, ok, err, chat_not_found, chat_invalid, chat_not_declinable,
}
use mwanachama_backend_comm.Errors.Classify.{classify}
use mwanachama_backend_comm.Exec.{Exec, pure, raise, require, ◌>>=◌, ◌>>◌}
use mwanachama_backend_comm.Sql.{Table}
use mwanachama_backend_comm.Sql.Statements.{classified, take, first, list, insert, update}
use mwanachama_backend_comm.Chat.Types.{
  ChatThread, ChatAudience, leads, group, for_leads, for_group, declined, declinable,
}
use mwanachama_backend_comm.Chat.Label.{Unicode, one_line, label_tag_path, aside_path, same_text}

abbrev pub Threads : Type 0
Threads = List ChatThread

abbrev pub is_thread : String → String → ChatThread → Bool
is_thread structure id t = t.id == id && t.structure_id == structure

abbrev pub at_path : String → Text → ChatThread → Bool
at_path structure path t = t.structure_id == structure && same_text t.tag_path path

abbrev pub thread_before : ChatThread → ChatThread → Bool
thread_before a b = oldest_first a.created_at a.id b.created_at b.id

abbrev pub is_chat_not_found : Error → Bool
is_chat_not_found chat_not_found = true
is_chat_not_found _ = false

-- A result that the code looks at before it returns it.
abbrev pub attempt : {S A : Type 0} → Exec S A → Exec S (Result A)
attempt m s = let (r, s') = m s in (ok r, s')

abbrev pub opened : ChatThread → ChatThread
opened t = record t { audience = group; declined_at = none; declined_by = "" }

abbrev pub set_aside : String → ℕ → Text → ChatThread → ChatThread
set_aside by at path t = record t { declined_at = some at; declined_by = by; tag_path = path }

-- The rows that `DeclineThread` may still decline.
abbrev pub undeclined : String → String → ChatThread → Bool
undeclined structure id t =
    is_thread structure id t && for_leads t.audience && not (is_some t.declined_at)

abbrev pub new_thread : String → Text → Text → ChatAudience → String → ChatThread
new_thread structure path label audience by = record {
  id = "";
  structure_id = structure;
  tag_path = path;
  label = label;
  audience = audience;
  requested_by = by;
  declined_at = none;
  declined_by = "";
  created_at = 0;
}

abbrev pub or_no_thread : Option ChatThread → Exec Threads ChatThread
or_no_thread none = raise chat_not_found
or_no_thread (some t) = pure t

module _ (t : Table ChatThread) (u : Unicode) (now : ℕ) (minted : String) where
  unfoldable pub thread_in : String → String → Exec Threads ChatThread
  thread_in structure id = do row ← take t (is_thread structure id); or_no_thread row

  pub resolve_thread : String → Text → Exec Threads ChatThread
  resolve_thread structure path = do
    row ← first t (at_path structure path) thread_before
    or_no_thread row

  pub list_threads : String → Exec Threads Threads
  list_threads structure = list t (λ x. x.structure_id == structure) thread_before

  -- A failed insert: another thread may have taken the path meanwhile.
  abbrev insert_failed :
      Error → (ChatThread → Bool) → Result ChatThread → Exec Threads (ChatThread × Bool)
  insert_failed x reusable (err e) = raise (classify x)
  insert_failed x reusable (ok existing) =
      if not (declined existing) && reusable existing
      then pure (existing, false)
      else raise (classify x)

  abbrev inserted :
      ChatThread → (ChatThread → Bool) → Result (Unit {0}) → Exec Threads (ChatThread × Bool)
  inserted new reusable (ok _) = pure (new, true)
  inserted new reusable (err x) = do
    again ← attempt (resolve_thread new.structure_id new.tag_path)
    insert_failed x reusable again

  pub insert_thread : ChatThread → (ChatThread → Bool) → Exec Threads (ChatThread × Bool)
  unfolding resolve_thread
  insert_thread new reusable = do r ← attempt (insert t new); inserted new reusable r

  -- The `switch` of `mintUnlessReusable`, on what resolving the path gave.
  mint_after :
      ChatThread → (ChatThread → Bool) → Result ChatThread → Exec Threads (ChatThread × Bool)
  unfolding insert_thread
  mint_after new reusable (ok existing) =
      if not (declined existing) && reusable existing
      then pure (existing, false)
      else insert_thread
          (record new { tag_path = aside_path new.tag_path new.id; created_at = now }) reusable
  mint_after new reusable (err e) =
      if is_chat_not_found e
      then insert_thread (record new { created_at = now }) reusable
      else raise e

  pub mint_unless_reusable : ChatThread → (ChatThread → Bool) → Exec Threads (ChatThread × Bool)
  unfolding mint_after resolve_thread
  mint_unless_reusable new reusable = do
    existing ← attempt (resolve_thread new.structure_id new.tag_path)
    mint_after (record new { id = minted }) reusable existing

  pub mint_with : String → Text → Text → ChatAudience → Exec Threads ChatThread
  unfolding mint_unless_reusable
  mint_with structure path label audience = do
    (thread, new) ← mint_unless_reusable (new_thread structure path label audience "") (λ x. true)
    pure thread

  pub mint_thread : String → Text → Exec Threads ChatThread
  unfolding mint_with
  mint_thread structure path = mint_with structure path [] group

  abbrev start_at : String → Text → Option Text → Exec Threads ChatThread
  start_at structure label none = raise chat_invalid
  start_at structure label (some path) = mint_with structure path label leads

  pub start_thread : String → Text → Exec Threads ChatThread
  unfolding mint_with
  start_thread structure label =
      let line = one_line label in start_at structure line (label_tag_path u line)

  abbrev request_at :
      String → Text → String → (ChatThread → Bool) → Option Text → Exec Threads (ChatThread × Bool)
  request_at structure label by reusable none = raise chat_invalid
  request_at structure label by reusable (some path) = do
    require (not (by == "")) chat_not_found
    mint_unless_reusable (new_thread structure path label leads by) reusable

  pub request_thread :
      String → Text → String → (ChatThread → Bool) → Exec Threads (ChatThread × Bool)
  unfolding mint_unless_reusable
  request_thread structure label by reusable =
      let line = one_line label in request_at structure line by reusable (label_tag_path u line)

  pub open_thread : String → String → Exec Threads ChatThread
  unfolding thread_in
  open_thread structure id = do
    found ← thread_in structure id
    if for_group found.audience
        then pure found
        else (do classified (update t (is_thread structure id) opened); pure (opened found))

  -- `DeclineThread`, which calls itself once more (`again`) when its update met no row.
  pub decline_round :
      Exec Threads (ChatThread × Bool) → String → String → String → Exec Threads (ChatThread × Bool)
  unfolding thread_in
  decline_round again structure id by = do
    found ← thread_in structure id
    if declined found then pure (found, false) else (do
      require (declinable found) chat_not_declinable
      affected ← classified (
          update t (undeclined structure id)
            (set_aside by now (aside_path found.tag_path found.id)))
      if eqb affected 0
          then again
          else pure (set_aside by now (aside_path found.tag_path found.id) found, true))
