-- ===== src/Chat/Manager/Fence.antt =====
-- Nothing of a thread is reached but by those who may read it.
use mwanachama_backend_comm.Base.{
  ℕ, Bool, true, false, not, ◌≡◌, ◌≢◌, ◌⊎◌, refl, inl, inr, some, List, String, ◌==◌, arith,
  find_first, Bool-cases, Option-cases, ◌∙◌, is_blank, eq_iff,
}
use mwanachama_backend_comm.Errors.{Result, ok, chat_thread_declined, chat_invalid}
use mwanachama_backend_comm.Exec.{Exec, require, lift, ◌>>=◌, ◌>>◌}
use mwanachama_backend_comm.Exec.Steps.{
  Outcome-cases, Result-cases, bind-ok, require-ok, lift-ok, ok-pair,
}
use mwanachama_backend_comm.Chat.Types.{
  ChatThread, ChatMessage, ChatReadMarker, ChatArchive, for_leads, declined, attachment_is_whole,
}
use mwanachama_backend_comm.Chat.Label.{Unicode}
use mwanachama_backend_comm.Chat.Threads.{is_thread, thread_in}
use mwanachama_backend_comm.Chat.Messages.{ChatDb, ChatEngine, on_threads, archive, unarchive, post}
use mwanachama_backend_comm.Chat.Manager.{
  ChatHost, leads_structure, in_structure_fence, readable_fence, in_thread, post_chat_message_for,
  list_chat_messages_for, mark_chat_thread_read_for, archive_chat_thread_for,
  unarchive_chat_thread_for, messages_from, mark_until, post_in, post_whole, new_message,
}

not-true : (b : Bool) → not b ≡ true → b ≡ false
not-true true h = cc
not-true false h = refl

-- The host says that the actor belongs to the structure.
abbrev pub Belongs : ChatHost → String → String → Type 0
Belongs h structure caller =
    (belonging : String → String → Result Bool) × (h.belonging ≡ some belonging)
    × (belonging caller structure ≡ ok true)
    × (caller ≢ "")

-- The host says that the actor leads the structure.
abbrev pub LeadsIt : ChatHost → String → String → Type 0
LeadsIt h structure caller =
    (leading : String → String → Result Bool) × (h.leading ≡ some leading)
    × (leading caller structure ≡ ok true)

in_structure_fence-Belongs :
    (h : ChatHost) (structure caller : String)
    → in_structure_fence h structure caller ≡ ok tt
    → Belongs h structure caller
unfolding in_structure_fence
in_structure_fence-Belongs h structure caller e = elim (Option-cases (h.belonging)) [
  | inl unset ↦ absurd (ground arith)
  | inr (belonging, set) ↦ elim (Result-cases (belonging caller structure)) [
    | inl (x, fails) ↦ absurd (ground arith)
    | inr (b, says) ↦ (belonging, set, ground arith, ground (arith, eq_iff caller ""))
  ]
]

leads_structure-LeadsIt :
    (h : ChatHost) (structure caller : String)
    → leads_structure h structure caller ≡ ok true
    → LeadsIt h structure caller
unfolding leads_structure
leads_structure-LeadsIt h structure caller e = elim (Option-cases (h.leading)) [
  | inl unset ↦ absurd (ground arith)
  | inr (leading, set) ↦ (leading, set, ground arith)
]

-- Anybody of the structure reads a thread, unless it is still with the leads: then one who leads
-- the structure does, or the one who asked for it.
abbrev pub MayRead : ChatHost → ChatDb → String → String → String → Type 0
MayRead h s structure thread caller =
    (t : ChatThread) × (find_first (is_thread structure thread) s.threads ≡ some t)
    × Belongs h structure caller
    × ((for_leads t.audience ≡ false)
        ⊎ LeadsIt h structure caller
        ⊎ ((caller == t.requested_by) ≡ true))

module _ (h : ChatHost) (g : ChatEngine) (u : Unicode) (now : ℕ) (minted : String) where
  thread_in-ok :
      (structure thread : String) (s s' : ChatDb) (t : ChatThread)
      → on_threads (thread_in g.thread_table u now minted structure thread) s ≡ (ok t, s')
      → (find_first (is_thread structure thread) s.threads ≡ some t) × (s' ≡ s)
  unfolding thread_in
  thread_in-ok structure thread s s' t e =
      elim (g.thread_table.take_law (is_thread structure thread) s.threads) [
        | inr (x, failed) ↦ absurd (ground arith)
        | inl read ↦ elim (Option-cases (find_first (is_thread structure thread) s.threads)) [
          | inl absent ↦ absurd (ground arith)
          | inr (r, there) ↦ (ground arith, ground arith)
        ]
      ]

  readable_fence-ok :
      (structure caller : String) (t : ChatThread) (s s' : ChatDb) (x : Unit {0})
      → readable_fence h g u now minted structure caller t s ≡ (ok x, s')
      → ((for_leads t.audience ≡ false)
          ⊎ LeadsIt h structure caller
          ⊎ ((caller == t.requested_by) ≡ true))
        × (s' ≡ s)
  readable_fence-ok structure caller t s s' x e = elim (Bool-cases (for_leads t.audience)) [
    | inr anybody ↦ (inl anybody, ground arith)
    | inl kept ↦ elim (Result-cases (leads_structure h structure caller)) [
      | inl (y, fails) ↦ absurd (ground arith)
      | inr (true, leading) ↦
          (inr (inl (leads_structure-LeadsIt h structure caller leading)), ground arith)
      | inr (false, other) ↦ (inr (inr (ground arith)), ground arith)
    ]
  ]

  in_thread-ok :
      (structure thread caller : String) (s s' : ChatDb) (x : Unit {0})
      → in_thread h g u now minted structure thread caller s ≡ (ok x, s')
      → MayRead h s structure thread caller × (s' ≡ s)
  unfolding in_thread
  in_thread-ok structure thread caller s s' x e =
      let (y, s₁, h₁, r₁) =
        bind-ok (lift (in_structure_fence h structure caller))
          (λ y. do
            t ← on_threads (thread_in g.thread_table u now minted structure thread)
            readable_fence h g u now minted structure caller t)
          s s' x e in
      let (t, s₂, h₂, r₂) =
        bind-ok (on_threads (thread_in g.thread_table u now minted structure thread))
          (readable_fence h g u now minted structure caller) s₁ s' x r₁ in
      let (belongs, e₁) = lift-ok (in_structure_fence h structure caller) s s₁ y h₁ in
      let (there, e₂) = thread_in-ok structure thread s₁ s₂ t h₂ in
      let (may, e₃) = readable_fence-ok structure caller t s₂ s' x r₂ in
      (
        (t, rw e₁ at there, in_structure_fence-Belongs h structure caller belongs, may),
        e₃ ∙ (e₂ ∙ e₁),
      )

  -- What follows the fence is reached only by one who may read the thread.
  fenced :
      {A : Type 0} (structure thread caller : String) (k : Exec ChatDb A) (s : ChatDb) (a : A)
      → ((do in_thread h g u now minted structure thread caller; k) s).0 ≡ ok a
      → MayRead h s structure thread caller × ((k s).0 ≡ ok a)
  fenced structure thread caller k s a e =
      let m = in_thread h g u now minted structure thread caller in
      elim (Outcome-cases (m s)) [
        | inl (x, s', fails) ↦ absurd (ground arith)
        | inr (x, s', works) ↦
            let (may, same) = in_thread-ok structure thread caller s s' x works in
            (may, ground arith)
      ]

  post_steps :
      (structure thread : String) (blank : Bool) (m : ChatMessage) (s : ChatDb) (out : ChatMessage)
      → ((do require (not blank) chat_invalid; post_whole h g u now minted structure thread m) s).0
        ≡ ok out
      → (blank ≡ false)
        × (t : ChatThread) × (find_first (is_thread structure thread) s.threads ≡ some t)
        × (declined t ≡ false)
  post_steps structure thread true m s out e = cc
  post_steps structure thread false m s out e =
      let whole = post_whole h g u now minted structure thread m in
      let (x, s₁, h₁, r₁) =
        bind-ok (lift (attachment_is_whole m))
          (λ x. do
            t ← on_threads (thread_in g.thread_table u now minted structure thread)
            post_in h g u now minted m t)
          s (whole s).1 out (ok-pair (whole s) out e) in
      let (t, s₂, h₂, r₂) =
        bind-ok (on_threads (thread_in g.thread_table u now minted structure thread))
          (post_in h g u now minted m) s₁ (whole s).1 out r₁ in
      let (y, s₃, h₃, r₃) =
        bind-ok (require (not (declined t)) chat_thread_declined) (λ y. post g now minted m) s₂
          (whole s).1 out r₂ in
      let (is, e₁) = lift-ok (attachment_is_whole m) s s₁ x h₁ in
      let (there, e₂) = thread_in-ok structure thread s₁ s₂ t h₂ in
      let (open_still, e₃) = require-ok (not (declined t)) chat_thread_declined s₂ s₃ y h₃ in
      (refl, t, rw e₁ at there, not-true (declined t) open_still)

  -- Reading a thread's messages, marking it read, archiving it, taking it back and posting in it
  -- return a value only to a caller who may read the thread; and a post, only in a thread that is
  -- not declined, and with a body that is not blank.
  pub access_fenced :
      (structure thread caller id body kind attachment : String) (s : ChatDb)
      → ((out : List ChatMessage)
          → (list_chat_messages_for h g u now minted structure thread caller id s).0 ≡ ok out
          → MayRead h s structure thread caller)
        × ((out : ChatReadMarker)
            → (mark_chat_thread_read_for h g u now minted structure thread caller id s).0 ≡ ok out
            → MayRead h s structure thread caller)
        × ((out : ChatArchive)
            → (archive_chat_thread_for h g u now minted structure thread caller s).0 ≡ ok out
            → MayRead h s structure thread caller)
        × ((out : Unit {0})
            → (unarchive_chat_thread_for h g u now minted structure thread caller s).0 ≡ ok out
            → MayRead h s structure thread caller)
        × ((out : ChatMessage)
            → (post_chat_message_for h g u now minted structure thread caller body kind attachment
                s).0
              ≡ ok out
            → MayRead h s structure thread caller
              × (is_blank body ≡ false)
              × (t : ChatThread) × (find_first (is_thread structure thread) s.threads ≡ some t)
              × (declined t ≡ false))
  unfolding list_chat_messages_for mark_chat_thread_read_for archive_chat_thread_for
      unarchive_chat_thread_for post_chat_message_for
  access_fenced structure thread caller id body kind attachment s = (
    λ out e.
        (fenced structure thread caller (messages_from h g u now minted structure thread id) s out
          e).0,
    λ out e.
        (fenced structure thread caller (mark_until h g u now minted structure thread caller id) s
          out e).0,
    λ out e.
        (fenced structure thread caller (archive g now minted structure thread caller) s out e).0,
    λ out e. (fenced structure thread caller (unarchive g now minted thread caller) s out e).0,
    λ out e.
        let m = new_message h g u now minted structure thread caller body kind attachment in
        let rest = post_whole h g u now minted structure thread m in
        let (may, e') =
          fenced structure thread caller (do require (not (is_blank body)) chat_invalid; rest) s out
            e in
        let (full, t, there, stands) = post_steps structure thread (is_blank body) m s out e' in
        (may, full, t, there, stands),
  )
