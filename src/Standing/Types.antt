-- ===== src/Standing/Types.antt =====
-- models/standing.go: a standing message; and what the package recur says of its schedule.
use mwanachama_backend_comm.Base.{
  ℕ, Bool, true, ◌&&◌, ◌≡◌, Option, List, String, is_some, leb, ltb, all,
}

pub record StandingMessage : Type 0 where
  pub id : String
  pub structure_id : String
  pub thread_id : String
  pub author_id : String
  pub body : String
  pub rule : String
  pub dates : List String
  pub zone : String
  pub starts_at : ℕ
  pub ends_at : Option ℕ
  pub last_sent_at : Option ℕ
  pub stopped_at : Option ℕ
  pub stopped_by : String
  pub created_at : ℕ

-- `Stopped`.
abbrev pub stopped : StandingMessage → Bool
stopped m = is_some m.stopped_at

-- `recur.Schedule`, over its zones, rules and dates. An end that is zero is none.
pub record Schedule (Zone Rule Date : Type 0) : Type 0 where
  pub start : ℕ
  pub zone : Zone
  pub rule : Option Rule
  pub dates : List Date
  pub end_at : ℕ

-- `recur.Wire`, the texts of a schedule.
pub record Wire : Type 0 where
  pub start : String
  pub end_at : String
  pub zone : String
  pub rule : String
  pub dates : List String

-- `time.LoadLocation`, and the functions of recur that are called. `Between(from, to)` gives the
-- occurrences from `from` on and before `to`.
pub record Recur (Zone Rule Date : Type 0) : Type 0 where
  pub load_location : String → Option Zone
  pub parse_rule : String → Option Rule
  pub parse_date : String → Option Date
  pub wire_schedule : Wire → Option (Schedule Zone Rule Date)
  pub is_valid : Schedule Zone Rule Date → Bool
  pub between : Schedule Zone Rule Date → ℕ → ℕ → List ℕ
  pub between_within :
      (sch : Schedule Zone Rule Date) (from to : ℕ)
      → all (λ at. leb from at && ltb at to) (between sch from to) ≡ true
