-- ===== src/Dm/Messages.antt =====
-- dm_impl.go and dm_message_impl.go: the threads of `DMStore`, their messages, device keys and
-- reactions. The database is not scoped to a test run.
pub mod Keys
use mwanachama_backend_comm.Base.{
  ℕ, zero, ◌+◌, Bool, true, false, not, ◌&&◌, Option, none, some, List, [], ◌∷◌, String, ◌==◌, ℤ,
  pos, eqb, ltb, any, keep, map, is_some, oldest_first, text_before, ltb_ℤ, if◌then◌else◌, time_or,
  id_or, ◌*◌, ◌%◌, ◌^◌, ◌-◌,
}
use mwanachama_backend_comm.Base
use mwanachama_backend_comm.Errors.{Error, Result, ok, err, dm_not_found}
use mwanachama_backend_comm.Exec.{Exec, Transaction, pure, raise, require, ◌>>=◌, ◌>>◌}
use mwanachama_backend_comm.Sql.{Table}
use mwanachama_backend_comm.Sql.Statements.{classified, take, list, insert, update, upsert, delete}
use mwanachama_backend_comm.Validate.{holds}
use mwanachama_backend_comm.Dm.Types.{
  DmParticipantState, invited, active, DmThread, with_derived, DmParticipant, DmMessage, DmReaction,
  DmDeviceKey,
}
use mwanachama_backend_comm.Dm.Roster.{is_active}

pub record DmDb : Type 0 where
  pub threads : List DmThread
  pub participants : List DmParticipant
  pub messages : List DmMessage
  pub reactions : List DmReaction
  pub keys : List DmDeviceKey

pub record DmEngine : Type 0 where
  pub thread_table : Table DmThread
  pub participant_table : Table DmParticipant
  pub message_table : Table DmMessage
  pub reaction_table : Table DmReaction
  pub key_table : Table DmDeviceKey
  pub thread_tx : Transaction DmDb DmThread

-- A statement on one table.
abbrev pub on_threads : {A : Type 0} → Exec (List DmThread) A → Exec DmDb A
on_threads m s = let (r, rows) = m s.threads in (r, record s { threads = rows })

abbrev pub on_participants : {A : Type 0} → Exec (List DmParticipant) A → Exec DmDb A
on_participants m s = let (r, rows) = m s.participants in (r, record s { participants = rows })

abbrev pub on_messages : {A : Type 0} → Exec (List DmMessage) A → Exec DmDb A
on_messages m s = let (r, rows) = m s.messages in (r, record s { messages = rows })

abbrev pub on_reactions : {A : Type 0} → Exec (List DmReaction) A → Exec DmDb A
on_reactions m s = let (r, rows) = m s.reactions in (r, record s { reactions = rows })

abbrev pub on_keys : {A : Type 0} → Exec (List DmDeviceKey) A → Exec DmDb A
on_keys m s = let (r, rows) = m s.keys in (r, record s { keys = rows })

abbrev pub found : {A : Type 0} → Option A → Exec DmDb A
found none = raise dm_not_found
found (some a) = pure a

abbrev is_here : DmParticipantState → Bool
is_here active = true
is_here invited = true
is_here _ = false

-- The value modulo 2^64 that an int64 keeps, and the int64 that has it.
abbrev wrapped : ℤ → ℕ
wrapped (pos n) = n % 2 ^ 64
wrapped (ℤ.negsuc n) = (2 ^ 64 - (n + 1) % 2 ^ 64) % 2 ^ 64

abbrev int64_of : ℕ → ℤ
int64_of n = if ltb n (2 ^ 63) then pos n else ℤ.negsuc (2 ^ 64 - n - 1)

-- `time.Duration(n) * time.Second`, whose product wraps around.
abbrev pub seconds : ℤ → ℤ
seconds n = int64_of (wrapped n * 1_000_000_000 % 2 ^ 64)

-- Is `created.Add(d)` not after now.
abbrev is_past : ℤ → ℕ → ℕ → Bool
is_past (pos d) created now = not (ltb now (created + d))
is_past (ℤ.negsuc d) created now = not (ltb (now + (d + 1)) created)

-- The deadline of a message is not after now.
abbrev pub over : Option ℤ → ℕ → ℕ → Bool
over none created now = false
over (some n) created now = is_past (seconds n) created now

-- The loop of `ListMessages`.
abbrev pub unexpired : Option ℤ → ℕ → List DmMessage → List DmMessage
unexpired ttl now [] = []
unexpired ttl now (m ∷ ms) =
    let rest = unexpired ttl now ms in if over ttl m.created_at now then rest else m ∷ rest

abbrev pub ttl_of : Option DmThread → Option ℤ
ttl_of none = none
ttl_of (some t) = t.message_ttl_seconds

abbrev pub is_key : String → String → DmDeviceKey → Bool
is_key actor id k = k.actor_id == actor && k.key_id == id

-- A published key that is there already keeps its `created_at`.
abbrev pub republished : DmDeviceKey → DmDeviceKey → DmDeviceKey
republished new old = record old {
  public_key = new.public_key;
  published_by = new.published_by;
  device_id = new.device_id;
  retired_at = new.retired_at;
}

-- The device's other keys that are not retired.
abbrev pub superseded : DmDeviceKey → DmDeviceKey → Bool
superseded new k =
    k.actor_id == new.actor_id
    && k.device_id == new.device_id
    && not (k.key_id == new.key_id)
    && not (is_some k.retired_at)

abbrev pub retired_key : ℕ → DmDeviceKey → DmDeviceKey
retired_key at k = record k { retired_at = some at }

abbrev pub is_reaction : String → String → DmReaction → Bool
is_reaction message actor r = r.message_id == message && r.actor_id == actor

module _ (g : DmEngine) (now : ℕ) (minted : String) where
  -- `add` of `CreateThread`.
  pub add_participant : String → DmParticipantState → Bool → String → Exec DmDb (Unit {0})
  add_participant thread state admin actor = on_participants (
      insert g.participant_table (record {
        thread_id = thread;
        actor_id = actor;
        state = state;
        is_admin = admin;
        updated_at = now;
      }))

  pub invite_all : String → String → List String → Exec DmDb (Unit {0})
  unfolding add_participant
  invite_all thread creator [] = pure tt
  invite_all thread creator (m ∷ ms) =
      if m == creator
      then invite_all thread creator ms
      else (do add_participant thread invited false m; invite_all thread creator ms)

  pub creation_work : DmThread → List String → Exec DmDb DmThread
  unfolding add_participant invite_all
  creation_work t initial = do
    on_threads (insert g.thread_table t)
    if t.created_by == "" then pure tt else add_participant t.id active true t.created_by
    invite_all t.id t.created_by initial
    pure t

  pub create_thread : DmThread → List String → Exec DmDb DmThread
  unfolding creation_work
  create_thread t initial =
      let new : DmThread = record t {
        created_at = time_or t.created_at now;
        id = id_or t.id minted;
      } in
      classified (g.thread_tx.run (creation_work new initial))

  pub get_thread : String → Exec DmDb DmThread
  get_thread id = do
    row ← on_threads (take g.thread_table (λ t. t.id == id))
    t ← found row
    pure (with_derived t)

  -- `IN (SELECT …)`: the threads in which the actor is active or invited.
  pub list_threads_for : String → Exec DmDb (List DmThread)
  list_threads_for actor s =
      (do
        rows ← on_threads (
            list g.thread_table
              (λ t.
                any (λ p. p.thread_id == t.id && (p.actor_id == actor && is_here p.state))
                  s.participants)
              (λ a b. oldest_first a.created_at a.id b.created_at b.id))
        pure (map with_derived rows))
        s

  unfoldable pub list_participants : String → Exec DmDb (List DmParticipant)
  list_participants thread = on_participants (
      list g.participant_table (λ p. p.thread_id == thread)
        (λ a b. oldest_first a.updated_at a.actor_id b.updated_at b.actor_id))

  pub post : DmMessage → Exec DmDb DmMessage
  post given = do
    let m : DmMessage = record given { created_at = now; id = id_or given.id minted }
    classified (on_messages (insert g.message_table m))
    pure m

  -- A thread that is not there has no timer.
  pub list_messages : String → Exec DmDb (List DmMessage)
  list_messages thread = do
    t ← on_threads (take g.thread_table (λ t. t.id == thread))
    rows ← on_messages (
        list g.message_table (λ m. m.thread_id == thread)
          (λ a b. oldest_first a.created_at a.id b.created_at b.id))
    pure (unexpired (ttl_of t) now rows)

  unfoldable pub get_message : String → Exec DmDb DmMessage
  get_message id = do row ← on_messages (take g.message_table (λ m. m.id == id)); found row

  -- The last step of `PublishDeviceKey`.
  abbrev pub supersede : DmDeviceKey → Exec DmDb DmDeviceKey
  supersede published = if published.device_id == "" then pure published else (do
    classified (on_keys (update g.key_table (superseded published) (retired_key now)))
    pure published)

  unfoldable pub publish_device_key : DmDeviceKey → Exec DmDb DmDeviceKey
  publish_device_key given = do
    let k : DmDeviceKey = record given {
      created_at = time_or given.created_at now;
      key_id = id_or given.key_id minted;
      retired_at = none;
    }
    classified (on_keys (upsert g.key_table (is_key k.actor_id k.key_id) (republished k) k))
    row ← on_keys (take g.key_table (is_key k.actor_id k.key_id))
    published ← found row
    supersede published

  pub lookup_device_keys : List String → Exec DmDb (List DmDeviceKey)
  lookup_device_keys [] = pure []
  lookup_device_keys (a ∷ actors) = on_keys (
      list g.key_table (λ k. holds (a ∷ actors) k.actor_id && not (is_some k.retired_at))
        (λ k l.
          if k.actor_id == l.actor_id
          then text_before k.key_id l.key_id
          else text_before k.actor_id l.actor_id))

  pub retire_device_keys_for_device : String → ℕ → Exec DmDb ℕ
  retire_device_keys_for_device device at =
      if device == ""
      then pure 0
      else classified (
          on_keys (
            update g.key_table (λ k. k.device_id == device && not (is_some k.retired_at))
              (retired_key (time_or at now))))

  pub set_reaction : DmReaction → Exec DmDb (Unit {0})
  unfolding get_message
  set_reaction given = do
    get_message given.message_id
    let r : DmReaction = record given { created_at = time_or given.created_at now }
    classified (
        on_reactions (
          upsert g.reaction_table (is_reaction r.message_id r.actor_id)
            (λ old. record old { emoji = r.emoji; created_at = r.created_at }) r))

  pub clear_reaction : String → String → Exec DmDb (Unit {0})
  clear_reaction message actor = do
    classified (on_reactions (delete g.reaction_table (is_reaction message actor)))
    pure tt

  pub list_reactions : String → Exec DmDb (List DmReaction)
  list_reactions thread s =
      classified
        (on_reactions (
          list g.reaction_table
            (λ r. any (λ m. m.thread_id == thread && m.id == r.message_id) s.messages)
            (λ a b.
              if a.message_id == b.message_id
              then text_before a.actor_id b.actor_id
              else text_before a.message_id b.message_id)))
        s
