-- ===== src/Standing/Store/Once.antt =====
-- Workers that send standing messages at the same time: each reads rows when it likes and sends
-- them later, while messages are created and stopped.
use mwanachama_backend_comm.Base.{
  ℕ, ◌+◌, ◌≤◌, true, false, ◌&&◌, ◌≡◌, ◌⊎◌, inl, inr, Option, none, some, List, [], ◌∷◌, ◌++◌,
  String, arith, ltb, leb, count, any, Bool-cases, Option-cases, ◌==◌, find_first, is_blank,
}
use mwanachama_backend_comm.Errors.{Result, ok}
use mwanachama_backend_comm.Exec.Steps.{Result-cases}
use mwanachama_backend_comm.Sql.Rows.{map_where}
use mwanachama_backend_comm.Chat.Types.{ChatMessage}
use mwanachama_backend_comm.Standing.Types.{StandingMessage, Recur}
use mwanachama_backend_comm.Standing.Store.{
  StandingDb, StandingEngine, create_standing, stop_standing, send_due, due_occurrence,
  stamped_standing, due_from, stopped_by_at, get_standing, is_standing, running_as,
}
use mwanachama_backend_comm.Standing.Store.Reached.{has_id, last_of-leb, any_mono}
use mwanachama_backend_comm.Standing.Store.Claims.{Sent, send_due-Sent, failed, idle, taken, sent}
use mwanachama_backend_comm.Standing.Schedule.{schedule_of}
use mwanachama_backend_comm.Validate.{check}
use mwanachama_backend_comm.Roles.{standing_message}
use mwanachama_backend_comm.Standing.Store.Tracked.{
  Log, Increasing, Tracked, Tracked-works, Tracked-stops, Tracked-creates,
}

module _ {Zone Rule Date : Type 0} (recur : Recur Zone Rule Date) (g : StandingEngine) where
  abbrev pub logged_at : StandingMessage → Option ℕ → Log → Log
  logged_at m none log = log
  logged_at m (some at) log = (m.id, at) ∷ log

  -- What a call of `sendDue` adds to the log.
  abbrev pub logged : StandingMessage → ℕ → Result (Option ChatMessage) → Log → Log
  logged m now (ok (some posted)) log = logged_at m (due_occurrence recur m now) log
  logged m now _ log = log

  -- The states that calls of the store reach, in any order. A worker sends `m`, a row that it read
  -- at some time before, or any other.
  pub data Reaches (start : StandingDb) : StandingDb → Log → Type 0 where
    begin : Reaches start start []
    creates :
        (s : StandingDb) (log : Log) (clock : ℕ) (minted : String) (given : StandingMessage)
        → Reaches start s log
        → Reaches start (create_standing recur g clock minted given s).1 log
    stops :
        (s : StandingDb) (log : Log) (clock : ℕ) (minted structure id by : String)
        → Reaches start s log
        → Reaches start (stop_standing recur g clock minted structure id by s).1 log
    works :
        (s : StandingDb) (log : Log) (clock now : ℕ) (minted : String) (m : StandingMessage)
        → Reaches start s log
        → Reaches start
            (send_due recur g clock minted m now s).1
            (logged m now (send_due recur g clock minted m now s).0 log)

  due_occurrence-due :
      (m : StandingMessage) (now at : ℕ) → due_occurrence recur m now ≡ some at → due_from m ≤ at
  unfolding due_occurrence
  due_occurrence-due m now at h = elim (Result-cases (schedule_of recur m)) [
    | inl (e, bad) ↦ absurd (ground arith)
    | inr (sch, good) ↦
        let within = recur.between_within sch (due_from m) (now + 1) in
        let met =
          last_of-leb (λ x. leb (due_from m) x && ltb x (now + 1))
            (recur.between sch (due_from m) (now + 1)) at within (ground arith) in
        ground arith
  ]

  create_standing-rows :
      (s : StandingDb) (clock : ℕ) (minted : String) (given : StandingMessage)
      → let new = stamped_standing recur g clock minted given in
        let after = (create_standing recur g clock minted given s).1.standings in
        (after ≡ s.standings)
        ⊎ ((after ≡ s.standings ++ new ∷ [])
            × (g.standing_table.insert new s.standings ≡ ok (s.standings ++ new ∷ [])))
  unfolding create_standing get_standing
  create_standing-rows s clock minted given =
      let new = stamped_standing recur g clock minted given in
      elim (Result-cases (check g.spec standing_message (g.encode_standing new))) [
        | inl (e, bad) ↦ inl (ground arith)
        | inr (u, valid) ↦ elim (Result-cases (schedule_of recur new)) [
          | inl (e, bad) ↦ inl (ground arith)
          | inr (sch, good) ↦ elim (g.standing_table.insert_law new s.standings) [
            | inr (d, fails) ↦ inl (ground arith)
            | inl done ↦ inr (
              elim (g.standing_table.take_law (is_standing new.structure_id new.id)
                  (s.standings ++ new ∷ [])) [
                    | inl read ↦
                        elim (Option-cases (
                          find_first (is_standing new.structure_id new.id)
                            (s.standings ++ new ∷ []))) [
                              | inl e ↦ ground arith
                              | inr (r, e) ↦ ground arith
                            ]
                    | inr (d, fails) ↦ ground arith
                  ],
              done,
            )
          ]
        ]
      ]

  stop_standing-rows :
      (s : StandingDb) (clock : ℕ) (minted structure id by : String)
      → let after = (stop_standing recur g clock minted structure id by s).1.standings in
        (after ≡ s.standings)
        ⊎ (after ≡ map_where (running_as structure id) (stopped_by_at by clock) s.standings)
  unfolding stop_standing get_standing
  stop_standing-rows s clock minted structure id by = elim (Bool-cases (is_blank by)) [
    | inl nobody ↦ inl (ground arith)
    | inr somebody ↦
        elim (g.standing_table.update_law (running_as structure id) (stopped_by_at by clock)
          s.standings) [
            | inr (d, fails) ↦ inl (ground arith)
            | inl done ↦
                let rows =
                  map_where (running_as structure id) (stopped_by_at by clock) s.standings in
                inr (elim (g.standing_table.take_law (is_standing structure id) rows) [
                  | inl read ↦ elim (Option-cases (find_first (is_standing structure id) rows)) [
                    | inl e ↦ ground arith
                    | inr (r, e) ↦
                        elim (Bool-cases (ltb 0 (count (running_as structure id) s.standings))) [
                          | inl some_met ↦ ground arith
                          | inr none_met ↦ ground arith
                        ]
                  ]
                  | inr (d, fails) ↦ ground arith
                ])
          ]
  ]

  module _
      (unique_ids : (a b : StandingMessage)
        → b.id == a.id ≡ true
        → g.standing_table.clash a b ≡ true) where
    -- A row that is inserted has an id that no other has.
    fresh_id :
        (new : StandingMessage) (rows rows' : List StandingMessage)
        → g.standing_table.insert new rows ≡ ok rows'
        → any (has_id new.id) rows ≡ false
    fresh_id new rows rows' h = elim (Bool-cases (any (has_id new.id) rows)) [
      | inr fresh ↦ fresh
      | inl used ↦
          let (d, clashes, x) =
            g.standing_table.insert_clash new rows
              (any_mono (has_id new.id) (g.standing_table.clash new) rows (unique_ids new) used) in
          cc
    ]

    Tracked-create_standing :
        (s : StandingDb) (log : Log) (clock : ℕ) (minted : String) (given : StandingMessage)
        → Tracked s.standings log
        → Tracked (create_standing recur g clock minted given s).1.standings log
    Tracked-create_standing s log clock minted given t =
        elim (create_standing-rows s clock minted given) [
          | inl same ↦ rw same t
          | inr (after, inserted) ↦
              let new = stamped_standing recur g clock minted given in
              rw after (
                Tracked-creates new s.standings log
                  (fresh_id new s.standings (s.standings ++ new ∷ []) inserted) t)
        ]

    Tracked-stop_standing :
        (s : StandingDb) (log : Log) (clock : ℕ) (minted structure id by : String)
        → Tracked s.standings log
        → Tracked (stop_standing recur g clock minted structure id by s).1.standings log
    Tracked-stop_standing s log clock minted structure id by t =
        elim (stop_standing-rows s clock minted structure id by) [
          | inl same ↦ rw same t
          | inr after ↦
              rw after (Tracked-stops (running_as structure id) by clock s.standings log t)
        ]

    Tracked-send_due :
        (s : StandingDb) (log : Log) (clock now : ℕ) (minted : String) (m : StandingMessage)
        → Tracked s.standings log
        → (r : Result (Option ChatMessage) × StandingDb) → Sent recur g clock minted m now s r
        → Tracked r.1.standings (logged m now r.0 log)
    Tracked-send_due s log clock now minted m t r (failed e) = t
    Tracked-send_due s log clock now minted m t r (idle none_due) = t
    Tracked-send_due s log clock now minted m t r (taken at due none_met) = t
    Tracked-send_due s log clock now minted m t r (sent at due met) =
        rw due (Tracked-works m at s.standings log (due_occurrence-due m now at due) met t)

    Reaches-Tracked :
        (start s : StandingDb) (log : Log)
        → ((id : String) → count (has_id id) start.standings ≤ 1)
        → Reaches start s log
        → Tracked s.standings log
    Reaches-Tracked start s log unique begin = record {
      unique = unique;
      tracked = tt;
      increasing = tt;
    }
    Reaches-Tracked start s now_log unique (creates before log clock minted given path) =
        Tracked-create_standing before log clock minted given
          (Reaches-Tracked start before log unique path)
    Reaches-Tracked start s now_log unique (stops before log clock minted structure id by path) =
        Tracked-stop_standing before log clock minted structure id by
          (Reaches-Tracked start before log unique path)
    Reaches-Tracked start s log unique (works before past clock now minted m path) =
        Tracked-send_due before past clock now minted m
          (Reaches-Tracked start before past unique path)
          (send_due recur g clock minted m now before)
          (send_due-Sent recur g clock minted m now before)

    -- No occurrence of a standing message is posted twice, nor one after a later one: from a table
    -- whose ids differ, and where the table refuses a second row of an id, whatever calls create,
    -- stop and send messages in whatever order, and however old the rows that the workers read
    -- before they send them, every occurrence that is sent is after all those of its message that
    -- were sent before.
    pub Reaches-Increasing :
        (start s : StandingDb) (log : Log)
        → ((id : String) → count (has_id id) start.standings ≤ 1)
        → Reaches start s log
        → Increasing log
    Reaches-Increasing start s log unique path =
        (Reaches-Tracked start s log unique path).increasing
