-- ===== src/Notification/Receipts/Again.antt =====
-- A notification is acknowledged once.
use mwanachama_backend_comm.Base.{
  ℕ, Bool, true, not, ◌||◌, ◌≡◌, ◌≢◌, refl, sym, ap, ◌∙◌, inl, inr, Option, none, some, [], ◌∷◌,
  ◌++◌, String, ◌==◌, arith, find_first, Bool-cases, Option-cases, eq_refl,
}
use mwanachama_backend_comm.Errors.{ok, driver, notification_not_found}
use mwanachama_backend_comm.Exec.Steps.{Outcome-cases, Result-cases, bind-ok, guarded}
use mwanachama_backend_comm.Sql.Rows.{find_first-append}
use mwanachama_backend_comm.Validate.{check}
use mwanachama_backend_comm.Roles.{notification_ack}
use mwanachama_backend_comm.Notification.Types.{NotificationAcknowledgement}
use mwanachama_backend_comm.Notification.Store.{
  NotificationDb, NotificationEngine, acknowledgement_of, classify_notification_write,
}
use mwanachama_backend_comm.Notification.Receipts.{
  is_own, acknowledge_notification, acknowledge_unless_held, new_acknowledgement,
  or_zero_acknowledgement, zero_acknowledgement, is_cap_spent, acknowledge_own,
}
use mwanachama_backend_comm.Exec.{pure, ◌>>=◌}

abbrev pub is_for : String → NotificationAcknowledgement → Bool
is_for id a = a.notification_id == id

module _ (g : NotificationEngine) (now : ℕ) (minted : String) where
  acknowledgement_of-ok :
      (id : String) (s s' : NotificationDb) (o : Option NotificationAcknowledgement)
      → acknowledgement_of g now minted id s ≡ (ok o, s')
      → (o ≡ find_first (is_for id) s.acknowledgements) × (s' ≡ s)
  unfolding acknowledgement_of
  acknowledgement_of-ok id s s' o h =
      elim (g.acknowledgement_table.take_law (is_for id) s.acknowledgements) [
        | inr (d, fails) ↦ absurd (ground arith)
        | inl read ↦ (ground arith, ground arith)
      ]

  -- The acknowledgement that is read again after the insert met another.
  reread :
      (id : String) (s s' : NotificationDb) (a : NotificationAcknowledgement)
      → "" ≢ id
      → a.notification_id ≡ id
      → (do held ← acknowledgement_of g now minted id; pure (or_zero_acknowledgement held)) s
        ≡ (ok a, s')
      → find_first (is_for id) s'.acknowledgements ≡ some a
  reread id s s' a real mine h = elim (Outcome-cases (acknowledgement_of g now minted id s)) [
    | inl (e, x, fails) ↦ absurd (ground arith)
    | inr (o, x, works) ↦
        let (found, same) = acknowledgement_of-ok id s x o works in
        elim (Option-cases o) [
          | inl nothing ↦
              let empty : a ≡ zero_acknowledgement = ground arith in
              absurd (real (ap (λ x. x.notification_id) (sym empty) ∙ mine))
          | inr (b, held) ↦
              let same_one : b ≡ a = ground arith in
              let still : s' ≡ s = ground arith in ground arith
        ]
  ]

  insert_or_reread :
      (actor id : String) (s s' : NotificationDb) (a : NotificationAcknowledgement)
      → "" ≢ id
      → a.notification_id ≡ id
      → find_first (is_for id) s.acknowledgements ≡ none
      → acknowledge_unless_held g now minted actor id none s ≡ (ok a, s')
      → find_first (is_for id) s'.acknowledgements ≡ some a
  insert_or_reread actor id s s' a real mine free h =
      let new = new_acknowledgement g now minted actor id in
      elim (Result-cases (check g.spec notification_ack (g.encode_acknowledgement new))) [
        | inl (e, bad) ↦ absurd (ground arith)
        | inr (u, valid) ↦ elim (g.acknowledgement_table.insert_law new s.acknowledgements) [
          | inl done ↦
              let same : a ≡ new = ground arith in
              let rows : s'.acknowledgements ≡ s.acknowledgements ++ new ∷ [] = ground arith in
              rw
                (
                  rows,
                  find_first-append (is_for id) s.acknowledgements (new ∷ []) free,
                  eq_refl id,
                  same,
                )
                refl
          | inr (d, fails) ↦
              elim (Bool-cases (is_cap_spent (classify_notification_write (driver d)))) [
                | inl spent ↦ reread id s s' a real mine (ground arith)
                | inr other ↦ absurd (ground arith)
              ]
        ]
      ]

  -- What is returned was looked for among the acknowledgements, of a notification that is the actor's.
  acknowledge_own-ok :
      (actor id : String) (s s' : NotificationDb) (a : NotificationAcknowledgement)
      → acknowledge_own g now minted actor id s ≡ (ok a, s')
      → acknowledge_unless_held g now minted actor id (find_first (is_for id) s.acknowledgements) s
        ≡ (ok a, s')
  acknowledge_own-ok actor id s s' a h =
      elim (g.notification_table.take_law (is_own actor id) s.notifications) [
        | inr (d, fails) ↦ absurd (ground arith)
        | inl read ↦ elim (Option-cases (find_first (is_own actor id) s.notifications)) [
          | inl missing ↦ absurd (ground arith)
          | inr (n, own) ↦
              let (o, x, looks, goes) =
                bind-ok (acknowledgement_of g now minted id)
                  (acknowledge_unless_held g now minted actor id) s s' a (ground arith) in
              let (found, same) = acknowledgement_of-ok id s x o looks in rw (found, same) at goes
        ]
      ]

  named_both : (actor id : String) → not (actor == "" || id == "") ≡ true → "" ≢ id
  named_both actor id h e =
      let empty : id == "" ≡ true = ap (λ x. id == x) e ∙ eq_refl id in ground arith

  acknowledge_notification-ok :
      (actor id : String) (s s' : NotificationDb) (a : NotificationAcknowledgement)
      → acknowledge_notification g now minted actor id s ≡ (ok a, s')
      → ("" ≢ id)
        × (acknowledge_unless_held g now minted actor id
              (find_first (is_for id) s.acknowledgements)
              s
            ≡ (ok a, s'))
  unfolding acknowledge_notification
  acknowledge_notification-ok actor id s s' a h =
      let (met, goes) =
        guarded (not (actor == "" || id == "")) notification_not_found
          (λ u. acknowledge_own g now minted actor id) s s' a h in
      (named_both actor id met, acknowledge_own-ok actor id s s' a goes)

  acknowledged-recorded :
      (actor id : String) (s s' : NotificationDb) (a : NotificationAcknowledgement)
      → "" ≢ id
      → a.notification_id ≡ id
      → (o : Option NotificationAcknowledgement) → find_first (is_for id) s.acknowledgements ≡ o
      → acknowledge_unless_held g now minted actor id o s ≡ (ok a, s')
      → find_first (is_for id) s'.acknowledgements ≡ some a
  acknowledged-recorded actor id s s' a real mine none free h =
      insert_or_reread actor id s s' a real mine free h
  acknowledged-recorded actor id s s' a real mine (some b) held h = ground arith

  recorded :
      (actor id : String) (s s' : NotificationDb) (a : NotificationAcknowledgement)
      → a.notification_id ≡ id
      → acknowledge_notification g now minted actor id s ≡ (ok a, s')
      → find_first (is_for id) s'.acknowledgements ≡ some a
  recorded actor id s s' a mine h =
      let (real, goes) = acknowledge_notification-ok actor id s s' a h in
      acknowledged-recorded actor id s s' a real mine (find_first (is_for id) s.acknowledgements)
        refl goes

  held_again :
      (actor id : String) (s s' : NotificationDb) (a b : NotificationAcknowledgement)
      → find_first (is_for id) s.acknowledgements ≡ some a
      → acknowledge_notification g now minted actor id s ≡ (ok b, s')
      → (b ≡ a) × (s' ≡ s)
  held_again actor id s s' a b held h =
      let (real, goes) = acknowledge_notification-ok actor id s s' b h in
      let again = rw held at goes in (ground arith, ground arith)

module _ (g : NotificationEngine) (now later : ℕ) (minted minted' : String) where
  -- A notification is acknowledged once: after an acknowledgement of it was returned, that one is
  -- stored, and any later call by the same actor that returns one returns that one and changes
  -- nothing.
  pub acknowledge_notification-again :
      (actor id : String) (s s' s'' : NotificationDb) (a b : NotificationAcknowledgement)
      → a.notification_id ≡ id
      → acknowledge_notification g now minted actor id s ≡ (ok a, s')
      → acknowledge_notification g later minted' actor id s' ≡ (ok b, s'')
      → (find_first (is_for id) s'.acknowledgements ≡ some a) × (b ≡ a) × (s'' ≡ s')
  acknowledge_notification-again actor id s s' s'' a b mine first second =
      let kept = recorded g now minted actor id s s' a mine first in
      let (same, still) = held_again g later minted' actor id s' s'' a b kept second in
      (kept, same, still)
