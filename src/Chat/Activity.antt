-- ===== src/Chat/Activity.antt =====
-- chat_impl.go and models/chat_activity.go: the summary of what is going on in the chats.
use mwanachama_backend_comm.Base.{
  ℕ, ◌+◌, Bool, true, false, ◌||◌, Option, none, some, List, [], ◌∷◌, ◌++◌, String, ◌==◌, ℤ,
  pos_part, eqb, ltb, max, map, keep, count, length, take, drop, text_before, if◌then◌else◌,
}
use mwanachama_backend_comm.Exec.{Exec}
use mwanachama_backend_comm.Validate.{holds}
use mwanachama_backend_comm.Sql.Rows.{sort}
use mwanachama_backend_comm.Chat.Types.{ChatThread, ChatMessage}
use mwanachama_backend_comm.Chat.Messages.{ChatDb, ChatEngine, select}

pub record ChatActivityQuery : Type 0 where
  pub structure_id : String
  pub limit : Option ℤ
  pub offset : ℤ

pub record ChatActivityRow : Type 0 where
  pub structure_id : String
  pub threads : ℕ
  pub messages : ℕ
  pub last_post_at : Option ℕ

pub record ChatActivityPage : Type 0 where
  pub rows : List ChatActivityRow
  pub total : ℕ
  pub threads : ℕ
  pub messages : ℕ
  pub last_post_at : Option ℕ

abbrev thread_structure : ChatThread → String
thread_structure t = t.structure_id

abbrev message_structure : ChatMessage → String
message_structure m = m.structure_id

abbrev each_once : List String → List String
each_once [] = []
each_once (id ∷ ids) = let rest = each_once ids in if holds ids id then rest else id ∷ rest

-- `max(created_at)` of a structure's messages.
abbrev last_post_in : String → List ChatMessage → Option ℕ
last_post_in structure [] = none
last_post_in structure (m ∷ ms) =
    let rest = last_post_in structure ms in
    if m.structure_id == structure
    then (elim rest [ none ↦ some m.created_at | some at ↦ some (max m.created_at at) ])
    else rest

abbrev activity_row_of : ChatDb → String → ChatActivityRow
activity_row_of s structure = record {
  structure_id = structure;
  threads = count (λ t. t.structure_id == structure) s.threads;
  messages = count (λ m. m.structure_id == structure) s.messages;
  last_post_at = last_post_in structure s.messages;
}

-- The latest post first, a structure without posts last, then by the structure's id.
abbrev quieter : Option ℕ → String → Option ℕ → String → Bool
quieter none a none b = text_before a b
quieter none a (some y) b = false
quieter (some x) a none b = true
quieter (some x) a (some y) b = if eqb x y then text_before a b else ltb y x

abbrev row_before : ChatActivityRow → ChatActivityRow → Bool
row_before a b = quieter a.last_post_at a.structure_id b.last_post_at b.structure_id

-- The rows of the statement: the structures that have a thread or a message.
abbrev activity_rows : String → ChatDb → List ChatActivityRow
activity_rows wanted s =
    let structures = map thread_structure s.threads ++ map message_structure s.messages in
    sort row_before
      (map (activity_row_of s) (keep (λ id. wanted == "" || id == wanted) (each_once structures)))

abbrev sum_of : (ChatActivityRow → ℕ) → List ChatActivityRow → ℕ
sum_of f [] = 0
sum_of f (r ∷ rs) = f r + sum_of f rs

abbrev later_of : Option ℕ → Option ℕ → Option ℕ
later_of none b = b
later_of (some a) none = some a
later_of (some a) (some b) = some (max a b)

abbrev latest_row : List ChatActivityRow → Option ℕ
latest_row [] = none
latest_row (r ∷ rs) = later_of r.last_post_at (latest_row rs)

-- The rows that the page keeps; a limit that is negative keeps none.
abbrev page_of : ChatActivityQuery → List ChatActivityRow → List ChatActivityRow
page_of q rows = elim q.limit [
  | none ↦ drop (pos_part q.offset) rows
  | some limit ↦ take (pos_part limit) (drop (pos_part q.offset) rows)
]

abbrev threads_of : ChatActivityRow → ℕ
threads_of r = r.threads

abbrev messages_of : ChatActivityRow → ℕ
messages_of r = r.messages

abbrev summary_of : ChatActivityQuery → List ChatActivityRow → ChatActivityPage
summary_of q rows = record {
  rows = page_of q rows;
  total = length rows;
  threads = sum_of threads_of rows;
  messages = sum_of messages_of rows;
  last_post_at = latest_row rows;
}

pub activity : ChatEngine → ChatActivityQuery → Exec ChatDb ChatActivityPage
activity g q = select g (λ s. summary_of q (activity_rows q.structure_id s))
