-- ===== src/Notification/Store/Muting.antt =====
-- notification_impl.go: what is muted is not raised.
use mwanachama_backend_comm.Base.{
  ℕ, true, ◌≡◌, ◌⊎◌, inl, inr, String, arith, count, Bool-cases, ◌∙◌, ◌++◌, [], ◌∷◌, ap, ltb, ◌||◌,
}
use mwanachama_backend_comm.Errors.{ok, err, Error}
use mwanachama_backend_comm.Exec.{Exec, pure, lift, ◌>>◌}
use mwanachama_backend_comm.Exec.Steps.{bind-ok, lift-ok, ok-pair, Outcome-cases, Result-cases}
use mwanachama_backend_comm.Roles.{Role}
use mwanachama_backend_comm.Validate.{check}
use mwanachama_backend_comm.Sql.Statements.{insert}
use mwanachama_backend_comm.Notification.Category.{notification_event_unmutable}
use mwanachama_backend_comm.Notification.Types.{Notification, notification_validate}
use mwanachama_backend_comm.Notification.Store.{
  NotificationDb, NotificationEngine, is_muting, is_muted, refuse_if_muted, raise_notification,
  stamped, written, on_notifications, host_says_unmutable,
}

-- The event reaches everybody: by the vocabulary, or by the host's word.
abbrev pub ReachesAll : NotificationEngine → String → Type 0
ReachesAll g event =
    (notification_event_unmutable event ≡ true) ⊎ (host_says_unmutable g.mutable event ≡ true)

-- A notification stored.
abbrev pub added : Notification → NotificationDb → NotificationDb
added n s = record s { notifications = s.notifications ++ n ∷ [] }

module _ (g : NotificationEngine) (now : ℕ) (minted : String) where
  refuse_if_muted-ok :
      (n : Notification) (s s' : NotificationDb) (x : Unit {0})
      → refuse_if_muted g now minted n s ≡ (ok x, s')
      → (ReachesAll g n.event ⊎ (count (is_muting n.actor_id n.category) s.preferences ≡ 0))
        × (s' ≡ s)
  unfolding refuse_if_muted is_muted
  refuse_if_muted-ok n s s' x h = elim (Bool-cases (notification_event_unmutable n.event)) [
    | inl always ↦ (inl (inl always), ground arith)
    | inr may ↦ elim (Bool-cases (host_says_unmutable g.mutable n.event)) [
      | inl always ↦ (inl (inr always), ground arith)
      | inr may' ↦
          elim (g.preference_table.count_law (is_muting n.actor_id n.category) s.preferences) [
            | inr (d, failed) ↦ absurd (ground arith)
            | inl counted ↦ (inr (ground arith), ground arith)
          ]
    ]
  ]

  -- The last steps of `Raise`.
  abbrev store : Notification → Exec NotificationDb Notification
  store n = do
    written (on_notifications (insert g.notification_table (stamped g now minted n)))
    pure (stamped g now minted n)

  abbrev unless_muted : Notification → Exec NotificationDb Notification
  unless_muted n = do refuse_if_muted g now minted n; store n

  -- A notification that is raised is valid, and its recipient has not muted its category, unless its
  -- event is one that reaches everybody.
  pub raise_notification_unmuted :
      (n out : Notification) (s : NotificationDb)
      → (raise_notification g now minted n s).0 ≡ ok out
      → (notification_validate n ≡ ok tt)
        × (ReachesAll g n.event ⊎ (count (is_muting n.actor_id n.category) s.preferences ≡ 0))
  unfolding raise_notification
  raise_notification_unmuted n out s h =
      let s' = (raise_notification g now minted n s).1 in
      let checked = check g.spec Role.notification (g.encode_notification n) in
      let (x, s₁, h₁, r₁) =
        bind-ok (lift checked) (λ x. do lift (notification_validate n); unless_muted n) s s' out
          (ok-pair _ out h) in
      let (y, s₂, h₂, r₂) =
        bind-ok (lift (notification_validate n)) (λ y. unless_muted n) s₁ s' out r₁ in
      let (z, s₃, h₃, r₃) = bind-ok (refuse_if_muted g now minted n) (λ z. store n) s₂ s' out r₂ in
      let (passed, e₁) = lift-ok checked s s₁ x h₁ in
      let (valid, e₂) = lift-ok (notification_validate n) s₁ s₂ y h₂ in
      let (free, e₃) = refuse_if_muted-ok n s₂ s₃ z h₃ in
      let same : s₂ ≡ s = e₂ ∙ e₁ in (valid, rw same at free)

  store-ok :
      (n out : Notification) (s s' : NotificationDb)
      → store n s ≡ (ok out, s')
      → (out ≡ stamped g now minted n) × (s' ≡ added out s)
  store-ok n out s s' h =
      elim (g.notification_table.insert_law (stamped g now minted n) s.notifications) [
        | inr (d, failed) ↦ absurd (ground arith)
        | inl done ↦
            let same : out ≡ stamped g now minted n = ground arith in
            let after : s' ≡ added (stamped g now minted n) s = ground arith in
            (same, rw same after)
      ]

  -- What `Raise` returns is what it was given, stamped, and that is what it stores.
  pub raise_notification-ok :
      (n out : Notification) (s s' : NotificationDb)
      → raise_notification g now minted n s ≡ (ok out, s')
      → (out ≡ stamped g now minted n) × (s' ≡ added out s)
  unfolding raise_notification
  raise_notification-ok n out s s' h =
      let checked = check g.spec Role.notification (g.encode_notification n) in
      let (x, s₁, h₁, r₁) =
        bind-ok (lift checked) (λ x. do lift (notification_validate n); unless_muted n) s s' out
          h in
      let (y, s₂, h₂, r₂) =
        bind-ok (lift (notification_validate n)) (λ y. unless_muted n) s₁ s' out r₁ in
      let (z, s₃, h₃, r₃) = bind-ok (refuse_if_muted g now minted n) (λ z. store n) s₂ s' out r₂ in
      let (passed, e₁) = lift-ok checked s s₁ x h₁ in
      let (valid, e₂) = lift-ok (notification_validate n) s₁ s₂ y h₂ in
      let (free, e₃) = refuse_if_muted-ok n s₂ s₃ z h₃ in
      let (same, after) = store-ok n out s₃ s' r₃ in (same, after ∙ ap (added out) (e₃ ∙ e₂ ∙ e₁))

  refuse_if_muted-state :
      (n : Notification) (s : NotificationDb) → (refuse_if_muted g now minted n s).1 ≡ s
  unfolding refuse_if_muted is_muted
  refuse_if_muted-state n s =
      elim (Bool-cases
        (notification_event_unmutable n.event || host_says_unmutable g.mutable n.event)) [
          | inl always ↦ ground arith
          | inr may ↦
              elim (g.preference_table.count_law (is_muting n.actor_id n.category) s.preferences) [
                | inr (d, failed) ↦ ground arith
                | inl counted ↦
                    elim (Bool-cases
                      (ltb 0 (count (is_muting n.actor_id n.category) s.preferences))) [
                        | inl muted ↦ ground arith
                        | inr free ↦ ground arith
                      ]
              ]
        ]

  store-err :
      (n : Notification) (e : Error) (s s' : NotificationDb) → store n s ≡ (err e, s') → s' ≡ s
  store-err n e s s' h =
      elim (g.notification_table.insert_law (stamped g now minted n) s.notifications) [
        | inr (d, failed) ↦ ground arith
        | inl done ↦ absurd (ground arith)
      ]

  -- A notification that is not raised leaves the tables as they were.
  pub raise_notification-err :
      (n : Notification) (e : Error) (s s' : NotificationDb)
      → raise_notification g now minted n s ≡ (err e, s')
      → s' ≡ s
  unfolding raise_notification
  raise_notification-err n e s s' h =
      elim (Result-cases (check g.spec Role.notification (g.encode_notification n))) [
        | inl (x, bad) ↦ ground arith
        | inr (u, passed) ↦ elim (Result-cases (notification_validate n)) [
          | inl (x, bad) ↦ ground arith
          | inr (v, valid) ↦ elim (Outcome-cases (refuse_if_muted g now minted n s)) [
            | inl (x, y, refused) ↦ let same = refuse_if_muted-state n s in ground arith
            | inr (w, y, free) ↦
                let same = refuse_if_muted-state n s in
                let here : y ≡ s = ground arith in store-err n e y s' (ground arith) ∙ here
          ]
        ]
      ]
