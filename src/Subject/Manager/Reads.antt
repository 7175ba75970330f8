-- ===== src/Subject/Manager/Reads.antt =====
-- Who may read a thread about a record.
use mwanachama_backend_comm.Base.{
  ℕ, true, ◌&&◌, ◌||◌, ◌≡◌, ◌⊎◌, sym, ap, ◌∙◌, inl, inr, some, String, ◌==◌, arith, find_first,
  Bool-cases, Option-cases,
}
use mwanachama_backend_comm.Errors.{Result, ok}
use mwanachama_backend_comm.Exec.Steps.{Result-cases}
use mwanachama_backend_comm.Subject.Types.{
  SubjectThread, SubjectStanding, is_private, is_group, is_answerer, is_audience,
  thread_readable_by,
}
use mwanachama_backend_comm.Subject.Store.{SubjectDb, SubjectEngine, get_thread}
use mwanachama_backend_comm.Subject.Manager.{SubjectHost, standing_on, readable_thread}

-- The host has given a caller a standing on the record of a thread, and the thread is open to it: to
-- an answerer always, and otherwise to its owner, or to the group.
abbrev pub MayReadThread : SubjectHost → String → SubjectThread → SubjectStanding → Type 0
MayReadThread h caller t st =
    (f : String → String → String → Result SubjectStanding) × (h.standing ≡ some f)
    × (f caller t.subject_kind t.subject_id ≡ ok st)
    × ((is_answerer st ≡ true)
        ⊎ ((is_audience st ≡ true)
            × ((is_private t.audience && t.owner_id == caller) || is_group t.audience ≡ true)))

standing_on-ok :
    (h : SubjectHost) (caller kind id : String) (st : SubjectStanding)
    → standing_on h caller kind id ≡ ok st
    → (f : String → String → String → Result SubjectStanding) × (h.standing ≡ some f)
      × (f caller kind id ≡ ok st)
      × (is_audience st || is_answerer st ≡ true)
unfolding standing_on
standing_on-ok h caller kind id st e = elim (Option-cases h.standing) [
  | inl unset ↦ absurd (ground arith)
  | inr (f, set) ↦ elim (Bool-cases (caller == "" || kind == "" || id == "")) [
    | inl unnamed ↦ absurd (ground arith)
    | inr named ↦ elim (Result-cases (f caller kind id)) [
      | inl (x, fails) ↦ absurd (ground arith)
      | inr (got, works) ↦ elim (Bool-cases (is_audience got || is_answerer got)) [
        | inr neither ↦ absurd (ground arith)
        | inl one ↦
            let same : got ≡ st = ground arith in (f, set, works ∙ ap ok same, rw (sym same) one)
      ]
    ]
  ]
]

readable-cases :
    (t : SubjectThread) (caller : String) (st : SubjectStanding)
    → thread_readable_by t caller st ≡ true
    → is_audience st || is_answerer st ≡ true
    → (is_answerer st ≡ true)
      ⊎ ((is_audience st ≡ true)
          × ((is_private t.audience && t.owner_id == caller) || is_group t.audience ≡ true))
unfolding thread_readable_by
readable-cases t caller st h e = elim (Bool-cases (is_answerer st)) [
  | inl yes_one ↦ inl yes_one
  | inr other ↦ inr (ground arith, ground arith)
]

pub readable_thread-ok :
    (h : SubjectHost) (g : SubjectEngine) (now : ℕ) (minted thread caller : String)
    (t : SubjectThread) (st : SubjectStanding) (s s' : SubjectDb)
    → readable_thread h g now minted thread caller s ≡ (ok (t, st), s')
    → (find_first (λ x. x.id == thread) s.threads ≡ some t) × MayReadThread h caller t st × (s' ≡ s)
unfolding readable_thread get_thread
readable_thread-ok h g now minted thread caller t st s s' e =
    elim (g.thread_table.take_law (λ x. x.id == thread) s.threads) [
      | inr (d, fails) ↦ absurd (ground arith)
      | inl read ↦ elim (Option-cases (find_first (λ x. x.id == thread) s.threads)) [
        | inl missing ↦ absurd (ground arith)
        | inr (found, there) ↦
            elim (Result-cases (standing_on h caller found.subject_kind found.subject_id)) [
              | inl (x, fails) ↦ absurd (ground arith)
              | inr (got, stands) ↦ elim (Bool-cases (thread_readable_by found caller got)) [
                | inr closed ↦ absurd (ground arith)
                | inl opened ↦
                    let same : found ≡ t = ground arith in
                    let also : got ≡ st = ground arith in
                    let stands' : standing_on h caller t.subject_kind t.subject_id ≡ ok st = cc in
                    let opened' : thread_readable_by t caller st ≡ true = cc in
                    let (f, set, answers, one) =
                      standing_on-ok h caller t.subject_kind t.subject_id st stands' in
                    (
                      there ∙ ap some same,
                      (f, set, answers, readable-cases t caller st opened' one),
                      ground arith,
                    )
              ]
            ]
      ]
    ]
