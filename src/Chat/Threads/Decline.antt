-- ===== src/Chat/Threads/Decline.antt =====
-- chat_impl.go: declining a thread.
use mwanachama_backend_comm.Base.{
  ℕ, Bool, true, false, ◌≡◌, inl, inr, some, [], ◌∷◌, String, arith, find_first, count, eqb,
  Bool-cases, Option-cases,
}
use mwanachama_backend_comm.Exec.{Exec}
use mwanachama_backend_comm.Sql.{Table}
use mwanachama_backend_comm.Chat.Types.{ChatThread, declined, declinable}
use mwanachama_backend_comm.Chat.Label.{Unicode, aside_path}
use mwanachama_backend_comm.Chat.Threads.{
  Threads, is_thread, undeclined, set_aside, thread_in, decline_round,
}

undeclined-count :
    (structure id : String) (s : Threads) (t : ChatThread)
    → find_first (is_thread structure id) s ≡ some t
    → declinable t ≡ true
    → eqb (count (undeclined structure id) s) 0 ≡ false
undeclined-count structure id [] t h d = cc
undeclined-count structure id (x ∷ s) t h d = elim (Bool-cases (is_thread structure id x)) [
  | inl met ↦ ground arith
  | inr other ↦ ground (arith, undeclined-count structure id s t)
]

-- Where no other statement comes between the read and the update, `DeclineThread` never calls
-- itself again: whatever the second round would do, the result is the same.
pub decline_round_ends :
    (t : Table ChatThread) (u : Unicode) (now : ℕ) (minted : String)
    (again again' : Exec Threads (ChatThread × Bool)) (structure id by : String) (s : Threads)
    → decline_round t u now minted again structure id by s
      ≡ decline_round t u now minted again' structure id by s
unfolding decline_round thread_in
decline_round_ends t u now minted again again' structure id by s =
    elim (t.take_law (is_thread structure id) s) [
      | inr (x, failed) ↦ ground arith
      | inl read ↦ elim (Option-cases (find_first (is_thread structure id) s)) [
        | inl absent ↦ ground arith
        | inr (r, there) ↦ elim (Bool-cases (declined r)) [
          | inl already ↦ ground arith
          | inr open_still ↦ elim (Bool-cases (declinable r)) [
            | inr not_so ↦ ground arith
            | inl may ↦
                elim (t.update_law (undeclined structure id)
                  (set_aside by now (aside_path r.tag_path r.id)) s) [
                    | inr (x, failed) ↦ ground arith
                    | inl done ↦ ground (arith, undeclined-count structure id s r there may)
                  ]
          ]
        ]
      ]
    ]
