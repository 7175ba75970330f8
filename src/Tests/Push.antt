-- ===== src/Tests/Push.antt =====
-- Two browsers of one actor, of which the push service has forgotten one.
use mwanachama_backend_comm.Base.{
  false, ◌≡◌, refl, [], ◌∷◌, none, some, String, ◌==◌, keep, if◌then◌else◌, true, List, Option,
}
use mwanachama_backend_comm.Errors.{Result, ok, err, push_subscription_gone}
use mwanachama_backend_comm.Roles.{Role}
use mwanachama_backend_comm.Validate.{unheld, check, Row, Field, text}
use mwanachama_backend_comm.Sql.Memory.{memory}
use mwanachama_backend_comm.Sql.Rows.{sort}
use mwanachama_backend_comm.Notification.Types.{Notification}
use mwanachama_backend_comm.Push.Types.{PushSubscription, PushDelivery}
use mwanachama_backend_comm.Push.Store.{PushDb, PushEngine, has_actor, subscription_before}
use mwanachama_backend_comm.Push.Delivery.{deliver}
use mwanachama_backend_comm.Push.Delivery.Recorded.{delivered, deliver-recorded, AreAccepted}

abbrev required : String → Field
required name = record { name = name; required = true; values = []; matches = "" }

-- A delivery names its notification, its actor and its subscription.
abbrev declared : Role → Option (List Field)
declared role =
    some (required "notification_id" ∷ (required "actor_id" ∷ (required "subscription_id" ∷ [])))

abbrev encoded : PushDelivery → Row
encoded d field =
    if field == "notification_id"
    then text d.notification_id
    else if field == "actor_id"
    then text d.actor_id
    else if field == "subscription_id"
    then text d.subscription_id
    else unheld

abbrev engine : PushEngine
engine = record {
  subscription_table = memory (λ a b. a.id == b.id);
  delivery_table = memory (λ a b. false);
  spec = declared;
  encode_subscription = λ sub field. unheld;
  encode_delivery = encoded;
  web = record {
    parse_url = λ s. none;
    is_ip = λ s. false;
    equal_fold = λ s t. s == t;
    decode_url = λ s. none;
    decode_std = λ s. none;
  };
}

abbrev browser : String → PushSubscription
browser id = record {
  id = id;
  actor_id = "a";
  device_id = "";
  endpoint = id;
  public_key = "";
  auth_secret = "";
  created_at = 1;
}

abbrev db : PushDb
db = record { subscriptions = browser "p" ∷ (browser "q" ∷ []); deliveries = [] }

abbrev news : Notification
news = record {
  id = "n";
  actor_id = "a";
  author_actor_id = "";
  seat_role_kind_id = "";
  seat_structure_id = "";
  category = "chat";
  event = "thread_reply";
  subject_kind = "subject_thread";
  subject_id = "s";
  names = [];
  structure_id = "";
  created_at = 2;
  read_at = none;
}

abbrev send : PushSubscription → String → Result (Unit {0})
send sub payload = if sub.id == "p" then err push_subscription_gone else ok tt

accepted :
    AreAccepted engine
      (λ a b. a.id == b.id)
      (λ n. ok "text")
      send
      5
      "i"
      (λ sub. 6)
      (λ sub. sub.id)
      news
      "text"
      (browser "p" ∷ (browser "q" ∷ []))
unfolding check
accepted = (refl, (refl, tt))

deliver-recorded_example :
    (deliver engine (λ n. ok "text") send 5 "i" (λ sub. 6) (λ sub. sub.id) news db).1
    ≡ delivered engine
        (λ a b. a.id == b.id)
        (λ n. ok "text")
        send
        5
        "i"
        (λ sub. 6)
        (λ sub. sub.id)
        news
        "text"
        (sort subscription_before (keep (has_actor "a") db.subscriptions))
        db
deliver-recorded_example =
    deliver-recorded engine (λ a b. a.id == b.id) (λ n. ok "text") send 5 "i" (λ sub. 6)
      (λ sub. sub.id) news "text" db refl accepted
