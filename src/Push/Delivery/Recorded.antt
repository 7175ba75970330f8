-- ===== src/Push/Delivery/Recorded.antt =====
-- What a delivery leaves in the tables, where the database does what it is asked.
use mwanachama_backend_comm.Base.{
  ℕ, Bool, true, false, not, ◌&&◌, ◌||◌, ◌≡◌, refl, sym, ap, ◌∙◌, inl, inr, List, [], ◌∷◌, ◌++◌,
  String, ◌==◌, arith, map, keep, any, Bool-cases, append_nil, append_snoc,
}
use mwanachama_backend_comm.Errors.{Error, Result, ok, err}
use mwanachama_backend_comm.Exec.{Exec, pure, ◌>>=◌}
use mwanachama_backend_comm.Exec.Steps.{Result-cases, bind-pure, bind-step}
use mwanachama_backend_comm.Roles.{push_delivery}
use mwanachama_backend_comm.Validate.{check}
use mwanachama_backend_comm.Sql.Memory.{memory}
use mwanachama_backend_comm.Sql.Rows.{sort}
use mwanachama_backend_comm.Notification.Types.{Notification}
use mwanachama_backend_comm.Push.Types.{PushSubscription, PushDelivery}
use mwanachama_backend_comm.Push.Store.{
  PushDb, PushEngine, has_actor, has_subscription_id, subscription_before, list_push_subscriptions,
  drop_push_subscription, record_push_delivery,
}
use mwanachama_backend_comm.Push.Delivery.{
  is_gone, state_of, new_delivery, after_send, record_state, deliver_each, deliver_to, deliver,
}

-- The engine, with its tables held in memory.
abbrev pub reliable_push : PushEngine → (PushSubscription → PushSubscription → Bool) → PushEngine
reliable_push g same = record g {
  subscription_table = memory same;
  delivery_table = memory (λ a b. false);
}

abbrev pub ends_gone : Result (Unit {0}) → Bool
ends_gone (ok u) = false
ends_gone (err e) = is_gone e

either : (a b : Bool) → not (a || false) && not b ≡ not (a || b)
either true b = refl
either false b = refl

any_never : {A : Type 0} (xs : List A) → any (λ x. false) xs ≡ false
any_never [] = refl
any_never (x ∷ xs) = any_never xs

keep-keep :
    {A : Type 0} (p q : A → Bool) (xs : List A) → keep q (keep p xs) ≡ keep (λ x. p x && q x) xs
keep-keep p q [] = refl
keep-keep p q (x ∷ xs) = ground (arith, keep-keep p q xs)

keep_all : {A : Type 0} (p : A → Bool) (xs : List A) → ((x : A) → p x ≡ true) → keep p xs ≡ xs
keep_all p [] h = refl
keep_all p (x ∷ xs) h = ground (arith, h x, keep_all p xs h)

keep-same :
    {A : Type 0} (p q : A → Bool) (xs : List A) → ((x : A) → p x ≡ q x) → keep p xs ≡ keep q xs
keep-same p q [] h = refl
keep-same p q (x ∷ xs) h = ground (arith, h x, keep-same p q xs h)

module _ {Payload : Type 0} (given : PushEngine) (same : PushSubscription → PushSubscription → Bool)
    (payload_of : Notification → Result Payload)
    (send : PushSubscription → Payload → Result (Unit {0})) (now : ℕ) (minted : String)
    (clock : PushSubscription → ℕ) (minted_for : PushSubscription → String) where
  abbrev g : PushEngine
  g = reliable_push given same

  -- The record of one sending.
  abbrev pub recorded : Notification → Payload → PushSubscription → PushDelivery
  recorded n payload sub = record (new_delivery n sub (state_of (send sub payload))) {
    id = minted_for sub;
    at = clock sub;
  }

  -- The subscriptions that are left: not those that the push service no longer knows.
  abbrev pub is_left : Payload → List PushSubscription → PushSubscription → Bool
  is_left payload subs r = not (any (λ sub. ends_gone (send sub payload) && r.id == sub.id) subs)

  abbrev pub delivered : Notification → Payload → List PushSubscription → PushDb → PushDb
  delivered n payload subs s = record {
    subscriptions = keep (is_left payload subs) s.subscriptions;
    deliveries = s.deliveries ++ map (recorded n payload) subs;
  }

  left_when :
      (payload : Payload) (sub r : PushSubscription)
      → ends_gone (send sub payload) ≡ true
      → not (has_subscription_id sub.id r) ≡ is_left payload (sub ∷ []) r
  left_when payload sub r h = ground arith

  -- The records of these sendings meet the rules that their role declares.
  abbrev pub AreAccepted : Notification → Payload → List PushSubscription → Type 0
  AreAccepted n payload [] = Unit
  AreAccepted n payload (sub ∷ subs) =
      (check given.spec push_delivery (given.encode_delivery (recorded n payload sub)) ≡ ok tt)
      × AreAccepted n payload subs

  record_state-stores :
      (n : Notification) (payload : Payload) (sub : PushSubscription) (s : PushDb)
      → check given.spec push_delivery (given.encode_delivery (recorded n payload sub)) ≡ ok tt
      → record_state g payload_of send now minted clock minted_for n sub
          (state_of (send sub payload))
          s
        ≡ (ok [], record s { deliveries = s.deliveries ++ recorded n payload sub ∷ [] })
  unfolding record_push_delivery
  record_state-stores n payload sub s valid = let free = any_never s.deliveries in ground arith

  after_send-drops :
      (payload : Payload) (sub : PushSubscription) (s : PushDb)
      → (failures : List Error) × (after_send g payload_of send now minted clock minted_for sub
            (send sub payload)
            s
          ≡ (
            ok failures,
            record s { subscriptions = keep (is_left payload (sub ∷ [])) s.subscriptions },
          ))
  unfolding drop_push_subscription
  after_send-drops payload sub s = elim (Result-cases (send sub payload)) [
    | inr (u, works) ↦
        let every = keep_all (is_left payload (sub ∷ [])) s.subscriptions (λ r. rw works refl) in
        ([], rw (works, every) refl)
    | inl (e, fails) ↦ elim (Bool-cases (is_gone e)) [
      | inl unknown ↦
          let rest =
            keep-same (λ r. not (has_subscription_id sub.id r)) (is_left payload (sub ∷ []))
              s.subscriptions (λ r. left_when payload sub r (rw fails unknown)) in
          ([], rw (fails, unknown, sym rest) refl)
      | inr known ↦
          let every =
            keep_all (is_left payload (sub ∷ [])) s.subscriptions (λ r. rw (fails, known) refl) in
          (e ∷ [], rw (fails, known, every) refl)
    ]
  ]

  deliver_each-delivered :
      (n : Notification) (payload : Payload) (subs : List PushSubscription) (s : PushDb)
      → AreAccepted n payload subs
      → (deliver_each g payload_of send now minted clock minted_for n payload subs s).1
        ≡ delivered n payload subs s
  deliver_each-delivered n payload [] s valid =
      rw (keep_all (is_left payload []) s.subscriptions (λ r. refl), append_nil s.deliveries) refl
  deliver_each-delivered n payload (sub ∷ subs) s (first_valid, valid) =
      let (dropping, first) = after_send-drops payload sub s in
      let between : PushDb = record s {
        subscriptions = keep (is_left payload (sub ∷ [])) s.subscriptions;
      } in
      let stored = record_state-stores n payload sub between first_valid in
      let after : PushDb = record between {
        deliveries = s.deliveries ++ recorded n payload sub ∷ [];
      } in
      let rest = deliver_each-delivered n payload subs after valid in
      let fewer = keep-keep (is_left payload (sub ∷ [])) (is_left payload subs) s.subscriptions in
      let longer =
        append_snoc s.deliveries (map (recorded n payload) subs) (recorded n payload sub) in
      let each = deliver_each g payload_of send now minted clock minted_for n payload subs in
      let last = bind-pure each (λ rest. dropping ++ ([] ++ rest)) after in
      let both =
        keep-same (λ r. is_left payload (sub ∷ []) r && is_left payload subs r)
          (is_left payload (sub ∷ subs)) s.subscriptions
          (λ r.
            either (ends_gone (send sub payload) && r.id == sub.id)
              (any (λ x. ends_gone (send x payload) && r.id == x.id) subs)) in
      let then_rest : List Error → List Error → Exec PushDb (List Error) =
        λ dropping recording. each >>= (λ rest. pure (dropping ++ (recording ++ rest))) in
      let then_record : List Error → Exec PushDb (List Error) = λ dropping.
        record_state g payload_of send now minted clock minted_for n sub
          (state_of (send sub payload))
        >>= then_rest dropping in
      let start : (deliver_each g payload_of send now minted clock minted_for n payload (sub ∷ subs)
            s).1
          ≡ (each after).1 =
        ap (λ x. x.1)
          (bind-step
            (after_send g payload_of send now minted clock minted_for sub (send sub payload))
            then_record s between dropping first)
        ∙ ap (λ x. x.1)
            (bind-step
              (record_state g payload_of send now minted clock minted_for n sub
                (state_of (send sub payload)))
              (then_rest dropping) between after [] stored)
        ∙ last in
      start ∙ rest ∙ rw (fewer, both, longer) refl

  delivered_to :
      (n : Notification) (payload : Payload) (subs : List PushSubscription) (s : PushDb)
      → payload_of n ≡ ok payload
      → AreAccepted n payload subs
      → (deliver_to g payload_of send now minted clock minted_for n (ok subs) s).1
        ≡ delivered n payload subs s
  delivered_to n payload [] s h valid = deliver_each-delivered n payload [] s valid
  delivered_to n payload (sub ∷ subs) s h valid =
      rw h (deliver_each-delivered n payload (sub ∷ subs) s valid)

  -- Over tables in memory, a delivery of a notification that can be encoded, where the records of
  -- its sendings to its recipient's subscriptions meet the rules that their role declares, records
  -- one delivery for each subscription of its recipient, in their order, whose state is what came
  -- of its sending, and drops just the subscriptions that the push service no longer knows.
  pub deliver-recorded :
      (n : Notification) (payload : Payload) (s : PushDb)
      → payload_of n ≡ ok payload
      → AreAccepted n payload
          (sort subscription_before (keep (has_actor n.actor_id) s.subscriptions))
      → (deliver g payload_of send now minted clock minted_for n s).1
        ≡ delivered n payload
            (sort subscription_before (keep (has_actor n.actor_id) s.subscriptions))
            s
  unfolding deliver list_push_subscriptions
  deliver-recorded n payload s h valid =
      delivered_to n payload
        (sort subscription_before (keep (has_actor n.actor_id) s.subscriptions)) s h valid
