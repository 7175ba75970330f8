-- ===== src/Push/Store.antt =====
-- push_impl.go and manager_push.go: what `PushStore` does. The database is not scoped to a test run.
use mwanachama_backend_comm.Base.{
  ℕ, ◌-◌, ◌*◌, Bool, not, ◌&&◌, Option, none, some, List, String, ◌==◌, ltb, is_blank, trimmed,
  oldest_first,
}
use mwanachama_backend_comm.Errors.{push_subscription_invalid}
use mwanachama_backend_comm.Exec.{Exec, pure, raise, require, lift, ◌>>=◌, ◌>>◌}
use mwanachama_backend_comm.Roles.{push_subscription, push_delivery}
use mwanachama_backend_comm.Validate.{Spec, Row, check}
use mwanachama_backend_comm.Sql.{Table}
use mwanachama_backend_comm.Sql.Statements.{classified, take, list, insert, delete, upsert}
use mwanachama_backend_comm.Push.Types.{
  PushSubscription, PushDelivery, PushKeys, Web, subscription_validate,
}

pub record PushDb : Type 0 where
  pub subscriptions : List PushSubscription
  pub deliveries : List PushDelivery

pub record PushEngine : Type 0 where
  pub subscription_table : Table PushSubscription
  pub delivery_table : Table PushDelivery
  pub spec : Spec
  pub encode_subscription : PushSubscription → Row
  pub encode_delivery : PushDelivery → Row
  pub web : Web

abbrev pub on_subscriptions : {A : Type 0} → Exec (List PushSubscription) A → Exec PushDb A
on_subscriptions m s = let (r, rows) = m s.subscriptions in (r, record s { subscriptions = rows })

abbrev pub on_deliveries : {A : Type 0} → Exec (List PushDelivery) A → Exec PushDb A
on_deliveries m s = let (r, rows) = m s.deliveries in (r, record s { deliveries = rows })

abbrev pub or_invalid : Option PushSubscription → Exec PushDb PushSubscription
or_invalid none = raise push_subscription_invalid
or_invalid (some sub) = pure sub

-- What an endpoint's row becomes when it is subscribed again.
abbrev pub resubscribed : PushSubscription → PushSubscription → PushSubscription
resubscribed new old = record old {
  actor_id = new.actor_id;
  device_id = new.device_id;
  public_key = new.public_key;
  auth_secret = new.auth_secret;
  created_at = new.created_at;
}

abbrev pub at_endpoint : String → PushSubscription → Bool
at_endpoint endpoint sub = sub.endpoint == endpoint

abbrev pub has_actor : String → PushSubscription → Bool
has_actor actor sub = sub.actor_id == actor

abbrev pub has_subscription_id : String → PushSubscription → Bool
has_subscription_id id sub = sub.id == id

abbrev pub subscription_before : PushSubscription → PushSubscription → Bool
subscription_before a b = oldest_first a.created_at a.id b.created_at b.id

-- 90 days, in nanoseconds.
abbrev pub push_delivery_retention : ℕ
push_delivery_retention = 90 * 24 * 3600 * 1_000_000_000

module _ (g : PushEngine) (now : ℕ) (minted : String) where
  abbrev pub stamped_subscription : PushSubscription → PushSubscription
  stamped_subscription sub = record sub {
    endpoint = trimmed sub.endpoint;
    id = minted;
    created_at = now;
  }

  pub subscribe_push : PushSubscription → Exec PushDb PushSubscription
  subscribe_push given = do
    let sub : PushSubscription = stamped_subscription given
    lift (check g.spec push_subscription (g.encode_subscription sub))
    lift (subscription_validate g.web sub)
    classified (
        on_subscriptions
          (upsert g.subscription_table (at_endpoint sub.endpoint) (resubscribed sub) sub))
    row ← classified (on_subscriptions (take g.subscription_table (at_endpoint sub.endpoint)))
    or_invalid row

  pub unsubscribe_push : String → String → Exec PushDb (Unit {0})
  unsubscribe_push actor endpoint = do
    require (not (is_blank actor)) push_subscription_invalid
    classified (
        on_subscriptions (
          delete g.subscription_table
            (λ sub. has_actor actor sub && at_endpoint (trimmed endpoint) sub)))
    pure tt

  unfoldable pub list_push_subscriptions : String → Exec PushDb (List PushSubscription)
  list_push_subscriptions actor =
      classified
        (on_subscriptions (list g.subscription_table (has_actor actor) subscription_before))

  unfoldable pub drop_push_subscription : String → Exec PushDb (Unit {0})
  drop_push_subscription id = do
    classified (on_subscriptions (delete g.subscription_table (has_subscription_id id)))
    pure tt

  abbrev pub stamped_delivery : PushDelivery → PushDelivery
  stamped_delivery d = record d { id = minted; at = now }

  unfoldable pub record_push_delivery : PushDelivery → Exec PushDb PushDelivery
  record_push_delivery d = do
    lift (check g.spec push_delivery (g.encode_delivery (stamped_delivery d)))
    classified (on_deliveries (insert g.delivery_table (stamped_delivery d)))
    pure (stamped_delivery d)

  pub list_push_deliveries : String → Exec PushDb (List PushDelivery)
  list_push_deliveries notification = classified (
      on_deliveries (
        list g.delivery_table (λ d. d.notification_id == notification)
          (λ a b. oldest_first a.at a.id b.at b.id)))

  pub prune_push_deliveries : ℕ → Exec PushDb ℕ
  prune_push_deliveries before =
      classified (on_deliveries (delete g.delivery_table (λ d. ltb d.at before)))

  -- The methods of the manager, which ask nothing of their caller.
  pub subscribe_push_for : String → String → String → PushKeys → Exec PushDb PushSubscription
  unfolding subscribe_push
  subscribe_push_for caller device endpoint keys = subscribe_push record {
    id = "";
    actor_id = caller;
    device_id = device;
    endpoint = endpoint;
    public_key = keys.p256dh;
    auth_secret = keys.auth;
    created_at = 0;
  }

  pub prune_old_push_deliveries : Exec PushDb ℕ
  unfolding prune_push_deliveries
  prune_old_push_deliveries = prune_push_deliveries (now - push_delivery_retention)
