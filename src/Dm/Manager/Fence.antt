-- ===== src/Dm/Manager/Fence.antt =====
-- Nothing that is said in a conversation is read or answered but by its active participants.
use mwanachama_backend_comm.Base.{
  ℕ, Bool, true, false, not, ◌&&◌, ◌≡◌, refl, inl, inr, some, List, [], ◌∷◌, String, ◌==◌, arith,
  any, keep, leb, length, codes, find_first, oldest_first, Bool-cases, Option-cases, ◌∙◌,
}
use mwanachama_backend_comm.Errors.{ok, dm_invalid_reaction}
use mwanachama_backend_comm.Exec.{Exec, require, ◌>>◌}
use mwanachama_backend_comm.Exec.Steps.{Outcome-cases, bind-ok}
use mwanachama_backend_comm.Sql.Rows.{sort, insert_sorted}
use mwanachama_backend_comm.Dm.Types.{DmParticipant, DmMessage, DmReaction}
use mwanachama_backend_comm.Dm.Roster.{is_active}
use mwanachama_backend_comm.Dm.Messages.{
  DmDb, DmEngine, list_participants, list_messages, list_reactions, get_message, set_reaction,
  clear_reaction,
}
use mwanachama_backend_comm.Dm.Manager.{
  active_on_roster, active_on_message_roster, fence, list_dm_messages_for, list_dm_reactions_for,
  set_dm_reaction_for, clear_dm_reaction_for, max_reaction_runes,
}

any-insert_sorted :
    (q : DmParticipant → Bool) (before : DmParticipant → DmParticipant → Bool) (r : DmParticipant)
    (rs : List DmParticipant)
    → any q (insert_sorted before r rs) ≡ true
    → any q (r ∷ rs) ≡ true
any-insert_sorted q before r [] h = h
any-insert_sorted q before r (x ∷ rs) h = ground (arith, any-insert_sorted q before r rs)

any-sort :
    (q : DmParticipant → Bool) (before : DmParticipant → DmParticipant → Bool)
    (rs : List DmParticipant)
    → any q (sort before rs) ≡ true
    → any q rs ≡ true
any-sort q before [] h = h
any-sort q before (r ∷ rs) h =
    ground (arith, any-insert_sorted q before r (sort before rs), any-sort q before rs)

any-keep :
    (p q : DmParticipant → Bool) (rs : List DmParticipant)
    → any q (keep p rs) ≡ true
    → any (λ r. p r && q r) rs ≡ true
any-keep p q [] h = h
any-keep p q (r ∷ rs) h = ground (arith, any-keep p q rs)

-- The actor has a row of the thread that is active.
abbrev pub IsActiveIn : DmDb → String → String → Type 0
IsActiveIn s thread caller =
    any (λ p. p.thread_id == thread && (p.actor_id == caller && is_active p.state)) s.participants
    ≡ true

-- The message is of a thread in which the actor is active.
abbrev pub IsActiveFor : DmDb → String → String → Type 0
IsActiveFor s message caller =
    (m : DmMessage) × (find_first (λ m. m.id == message) s.messages ≡ some m)
    × IsActiveIn s m.thread_id caller

module _ (g : DmEngine) (now : ℕ) (minted : String) where
  fence-IsActiveIn :
      (thread caller : String) (s s' : DmDb) (x : Unit {0})
      → fence g now minted (active_on_roster g now minted thread caller) s ≡ (ok x, s')
      → IsActiveIn s thread caller × (s' ≡ s)
  unfolding active_on_roster list_participants
  fence-IsActiveIn thread caller s s' x h =
      let mine = λ (p : DmParticipant). p.thread_id == thread in
      let here = λ (p : DmParticipant). p.actor_id == caller && is_active p.state in
      let before =
        λ (a b : DmParticipant). oldest_first a.updated_at a.actor_id b.updated_at b.actor_id in
      elim (g.participant_table.list_law mine before s.participants) [
        | inr (d, failed) ↦ absurd (ground arith)
        | inl read ↦ elim (Bool-cases (any here (sort before (keep mine s.participants)))) [
          | inr absent ↦ absurd (ground arith)
          | inl there ↦
              (any-keep mine here s.participants (any-sort here before _ there), ground arith)
        ]
      ]

  -- What follows the fence is reached only by an active participant.
  fenced :
      {A : Type 0} (thread caller : String) (k : Exec DmDb A) (s : DmDb) (a : A)
      → ((do fence g now minted (active_on_roster g now minted thread caller); k) s).0 ≡ ok a
      → IsActiveIn s thread caller
  fenced thread caller k s a h =
      let m = fence g now minted (active_on_roster g now minted thread caller) in
      elim (Outcome-cases (m s)) [
        | inl (x, s', fails) ↦ absurd (ground arith)
        | inr (x, s', works) ↦ (fence-IsActiveIn thread caller s s' x works).0
      ]

  get_message-ok :
      (id : String) (s s' : DmDb) (m : DmMessage)
      → get_message g now minted id s ≡ (ok m, s')
      → (find_first (λ m. m.id == id) s.messages ≡ some m) × (s' ≡ s)
  unfolding get_message
  get_message-ok id s s' m h = elim (g.message_table.take_law (λ m. m.id == id) s.messages) [
    | inr (x, failed) ↦ absurd (ground arith)
    | inl read ↦ elim (Option-cases (find_first (λ (m : DmMessage). m.id == id) s.messages)) [
      | inl absent ↦ absurd (ground arith)
      | inr (e, there) ↦ (ground arith, ground arith)
    ]
  ]

  message_fenced :
      {A : Type 0} (message caller : String) (k : Exec DmDb A) (s : DmDb) (a : A)
      → ((do active_on_message_roster g now minted message caller; k) s).0 ≡ ok a
      → IsActiveFor s message caller × ((k s).0 ≡ ok a)
  unfolding active_on_message_roster
  message_fenced message caller k s a h =
      let guard = active_on_message_roster g now minted message caller in
      elim (Outcome-cases (guard s)) [
        | inl (x, s', fails) ↦ absurd (ground arith)
        | inr (x, s', works) ↦
            let (m, s₁, h₁, r₁) =
              bind-ok (get_message g now minted message)
                (λ m. fence g now minted (active_on_roster g now minted m.thread_id caller)) s s' x
                works in
            let (there, e₁) = get_message-ok message s s₁ m h₁ in
            let (act, e₂) = fence-IsActiveIn m.thread_id caller s₁ s' x r₁ in
            let same : s' ≡ s = e₂ ∙ e₁ in ((m, there, rw e₁ at act), ground (arith, works, same))
      ]

  reaction_steps :
      (empty short : Bool) (k : Exec DmDb (Unit {0})) (s : DmDb)
      → ((do require (not empty) dm_invalid_reaction; require short dm_invalid_reaction; k) s).0
        ≡ ok tt
      → (empty ≡ false) × (short ≡ true)
  reaction_steps true short k s h = cc
  reaction_steps false true k s h = (refl, refl)
  reaction_steps false false k s h = cc

  -- The messages and the reactions of a thread are returned only to an active participant of it; a
  -- reaction is set or cleared only by an active participant of its message's thread; and a
  -- reaction that is set has one to eight runes.
  pub said_fenced :
      (thread message caller emoji : String) (s : DmDb)
      → ((out : List DmMessage)
          → (list_dm_messages_for g now minted thread caller s).0 ≡ ok out
          → IsActiveIn s thread caller)
        × ((out : List DmReaction)
            → (list_dm_reactions_for g now minted thread caller s).0 ≡ ok out
            → IsActiveIn s thread caller)
        × ((clear_dm_reaction_for g now minted message caller s).0 ≡ ok tt
            → IsActiveFor s message caller)
        × ((set_dm_reaction_for g now minted message caller emoji s).0 ≡ ok tt
            → IsActiveFor s message caller
              × ((emoji == "") ≡ false)
              × (leb (length (codes emoji)) max_reaction_runes ≡ true))
  unfolding list_dm_messages_for list_dm_reactions_for clear_dm_reaction_for set_dm_reaction_for
  said_fenced thread message caller emoji s =
      let new : DmReaction = record {
        message_id = message;
        actor_id = caller;
        emoji = emoji;
        created_at = 0;
      } in
      let set = set_reaction g now minted new in
      let short = leb (length (codes emoji)) max_reaction_runes in
      (
        λ out h. fenced thread caller (list_messages g now minted thread) s out h,
        λ out h. fenced thread caller (list_reactions g now minted thread) s out h,
        λ h. (message_fenced message caller (clear_reaction g now minted message caller) s tt h).0,
        λ h.
            let (act, rest) =
              message_fenced message caller
                (do
                  require (not (emoji == "")) dm_invalid_reaction
                  require short dm_invalid_reaction
                  set)
                s tt h in
            let (some_text, fits) = reaction_steps (emoji == "") short set s rest in
            (act, some_text, fits),
      )
