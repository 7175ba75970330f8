-- ===== src/Notification/Audience/Everybody.antt =====
-- Whom an audience raise has told.
use mwanachama_backend_comm.Base.{
  ℕ, ◌+◌, Bool, true, not, ◌&&◌, ◌≡◌, refl, ap, ◌∙◌, inl, inr, Option, none, some, List, [], ◌∷◌,
  String, ◌==◌, eq_iff, arith, count, length, Bool-cases, if◌then◌else◌, ◌||◌,
}
use mwanachama_backend_comm.Errors.{ok, notification_invalid}
use mwanachama_backend_comm.Exec.Steps.{Outcome-cases, Result-cases, bind-ok, lift-ok}
use mwanachama_backend_comm.Validate.{check, holds}
use mwanachama_backend_comm.Roles.{Role}
use mwanachama_backend_comm.Notification.Types.{Notification, notification_validate}
use mwanachama_backend_comm.Notification.Store.{
  NotificationDb, NotificationEngine, raise_notification,
}
use mwanachama_backend_comm.Notification.Audience.{
  Audience, AudienceRaise, unseen, audience_of, complete, to_actor, raise_each, raise_to_audience,
  is_miss, probe_of, raise_probed, or_nobody,
}
use mwanachama_backend_comm.Notification.Store.Muting.{raise_notification-ok}
use mwanachama_backend_comm.Exec.{require, lift, ◌>>=◌, ◌>>◌}

abbrev pub is_actor : String → String → Bool
is_actor a b = b == a

-- How often an actor was told, and how often missed.
abbrev pub told : String → AudienceRaise → ℕ
told a out = count (λ n. n.actor_id == a) out.raised + count (λ m. m.0 == a) out.missed

holds-same : (seen : List String) (a b : String) → a == b ≡ true → holds seen a ≡ holds seen b
holds-same seen a b h = ap (holds seen) ((eq_iff a b).0 h)

-- An actor that is named and was not seen before is kept once.
pub count-unseen :
    (a : String) (named seen : List String)
    → count (is_actor a) (unseen seen named)
      ≡ (if holds named a && not (holds seen a) then 1 else 0)
unfolding holds
count-unseen a [] seen = refl
count-unseen a (x ∷ named) seen = elim (Bool-cases (x == a)) [
  | inl e ↦
      let same = holds-same seen x a e in
      elim (Bool-cases (holds seen x)) [
        | inl before ↦ ground (arith, count-unseen a named seen, count-unseen a named (x ∷ seen))
        | inr new ↦ ground (arith, count-unseen a named seen, count-unseen a named (x ∷ seen))
      ]
  | inr e ↦ elim (Bool-cases (holds seen x)) [
    | inl before ↦ ground (arith, count-unseen a named seen, count-unseen a named (x ∷ seen))
    | inr new ↦ ground (arith, count-unseen a named seen, count-unseen a named (x ∷ seen))
  ]
]

module _ (g : NotificationEngine) (audience : Option Audience) (clock : String → ℕ)
    (minted : String → String) where
  -- The recipients that a loop without an error went through are each told or missed, as often as
  -- they stand in the list.
  raise_each-told :
      (template : Notification) (resolved : ℕ) (named : List String) (s s' : NotificationDb)
      (out : AudienceRaise)
      → raise_each g audience clock minted template resolved named s ≡ (ok (out, none), s')
      → (out.resolved ≡ resolved)
        × (length out.raised + length out.missed ≡ length named)
        × ((a : String) → told a out ≡ count (is_actor a) named)
  raise_each-told template resolved [] s s' out h = (ground arith, ground arith, λ a. ground arith)
  raise_each-told template resolved (actor ∷ named) s s' out h =
      elim (Outcome-cases
        (raise_notification g (clock actor) (minted actor) (to_actor template actor) s)) [
          | inl (e, s₁, fails) ↦ elim (Bool-cases (is_miss e)) [
            | inr stops ↦ absurd (ground arith)
            | inl miss ↦
                elim (Outcome-cases
                  (raise_each g audience clock minted template resolved named s₁)) [
                    | inl (x, s₂, bad) ↦ absurd (ground arith)
                    | inr ((later, stop), s₂, rest) ↦
                        let ends : stop ≡ none = ground arith in
                        let shape : out ≡ record later { missed = (actor, e) ∷ later.missed } =
                          ground arith in
                        let (kept, sum, each) =
                          raise_each-told template resolved named s₁ s₂ later
                            (rest ∙ ap (λ st. (ok (later, st), s₂)) ends) in
                        (
                          rw shape kept,
                          rw shape (ground arith),
                          λ a. rw shape (ground (arith, each a)),
                        )
                  ]
          ]
          | inr (n, s₁, works) ↦
              elim (Outcome-cases (raise_each g audience clock minted template resolved named s₁)) [
                | inl (x, s₂, bad) ↦ absurd (ground arith)
                | inr ((later, stop), s₂, rest) ↦
                    let ends : stop ≡ none = ground arith in
                    let shape : out ≡ record later { raised = n ∷ later.raised } = ground arith in
                    let (kept, sum, each) =
                      raise_each-told template resolved named s₁ s₂ later
                        (rest ∙ ap (λ st. (ok (later, st), s₂)) ends) in
                    let (same, after) =
                      raise_notification-ok g (clock actor) (minted actor) (to_actor template actor)
                        n s s₁ works in
                    let mine : n.actor_id ≡ actor = ap (λ x. x.actor_id) same in
                    (
                      rw shape kept,
                      rw shape (ground arith),
                      λ a. rw shape (ground (arith, each a, mine)),
                    )
              ]
        ]

  raise_probed-told :
      (template : Notification) (named : List String) (s s' : NotificationDb) (out : AudienceRaise)
      → raise_probed g audience clock minted template named s ≡ (ok (out, none), s')
      → (out.resolved ≡ length named)
        × (length out.raised + length out.missed ≡ length named)
        × ((a : String) → told a out ≡ count (is_actor a) named)
  raise_probed-told template named s s' out h =
      let probe = probe_of template named in
      let each = raise_each g audience clock minted template (length named) named in
      let checked = check g.spec Role.notification (g.encode_notification probe) in
      let (x, s₁, h₁, r₁) =
        bind-ok (lift checked) (λ x. do lift (notification_validate probe); each) s s' (out, none)
          h in
      let (y, s₂, h₂, r₂) =
        bind-ok (lift (notification_validate probe)) (λ y. each) s₁ s' (out, none) r₁ in
      raise_each-told template (length named) named s₂ s' out r₂

not_empty :
    (a : String) (b : Bool)
    → ◌≡◌ {A = ℕ}
        (if b && not (holds ("" ∷ []) a) then 1 else 0)
        (if b && not ("" == a) then 1 else 0)
unfolding holds
not_empty a b = ground arith

same_list : (found recipients : List String) → or_nobody found ≡ ok recipients → recipients ≡ found
same_list [] recipients h = cc
same_list (a ∷ found) recipients h = ground arith

audience_of-ok :
    (host : Audience) (kind id : String) (recipients : List String)
    → audience_of (some host) kind id ≡ ok recipients
    → (named : List String) × (host kind id ≡ ok named) × (recipients ≡ unseen ("" ∷ []) named)
unfolding audience_of
audience_of-ok host kind id recipients h = elim (Result-cases (host kind id)) [
  | inl (e, fails) ↦ absurd (ground arith)
  | inr (named, works) ↦
      (named, works, same_list (unseen ("" ∷ []) named) recipients (ground arith))
]

module _ (g : NotificationEngine) (host : Audience) (clock : String → ℕ)
    (minted : String → String) where
  -- A raise to an audience that ended without an error is complete, and it has told, or noted as
  -- missed, each actor that the host named, exactly once, and nobody else; the empty name counts
  -- for nobody.
  pub raise_to_audience-once :
      (template : Notification) (s s' : NotificationDb) (out : AudienceRaise)
      → raise_to_audience g (some host) clock minted template s ≡ (ok (out, none), s')
      → (named : List String) × (host template.subject_kind template.subject_id ≡ ok named)
        × (complete out ≡ true)
        × ((a : String) → told a out ≡ (if holds named a && not ("" == a) then 1 else 0))
  unfolding raise_to_audience holds
  raise_to_audience-once template s s' out h =
      let audience = some host in
      let found = audience_of audience template.subject_kind template.subject_id in
      let probed = raise_probed g audience clock minted template in
      let named_ok = not (template.subject_kind == "" || template.subject_id == "") in
      let (x, s₁, h₁, r₁) =
        bind-ok (require (template.actor_id == "") notification_invalid)
          (λ x. do
            require named_ok notification_invalid
            recipients ← lift found
            probed recipients)
          s s' (out, none) h in
      let (y, s₂, h₂, r₂) =
        bind-ok (require named_ok notification_invalid)
          (λ y. do recipients ← lift found; probed recipients) s₁ s' (out, none) r₁ in
      let (recipients, s₃, h₃, r₃) = bind-ok (lift found) probed s₂ s' (out, none) r₂ in
      let (is_found, e₃) = lift-ok found s₂ s₃ recipients h₃ in
      let (named, asked, listed) =
        audience_of-ok host template.subject_kind template.subject_id recipients is_found in
      let (resolved, sum, each) =
        raise_probed-told g audience clock minted template recipients s₃ s' out r₃ in
      (
        named,
        asked,
        ground arith,
        λ a. each a ∙ rw listed (count-unseen a named ("" ∷ [])) ∙ not_empty a (holds named a),
      )
