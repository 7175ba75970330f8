-- ===== src/Tests/Direct.antt =====
-- One conversation with a message, a device with one key.
use mwanachama_backend_comm.Base.{
  true, false, ◌≡◌, refl, List, [], ◌∷◌, none, String, ◌==◌, ◌&&◌, count, leb, length, codes, some,
  pos,
}
use mwanachama_backend_comm.Errors.{ok}
use mwanachama_backend_comm.Sql.Memory.{memory}
use mwanachama_backend_comm.Sql.Commit.{in_memory}
use mwanachama_backend_comm.Dm.Types.{DmMessage, DmReaction, DmDeviceKey, active}
use mwanachama_backend_comm.Dm.Messages.{DmDb, DmEngine, publish_device_key, superseded, over}
use mwanachama_backend_comm.Dm.Messages.Keys.{publish_device_key_alone}
use mwanachama_backend_comm.Dm.Manager.{
  list_dm_messages_for, list_dm_reactions_for, set_dm_reaction_for, clear_dm_reaction_for,
  max_reaction_runes,
}
use mwanachama_backend_comm.Dm.Manager.Fence.{IsActiveIn, IsActiveFor, said_fenced}

abbrev engine : DmEngine
engine = record {
  thread_table = memory (λ a b. a.id == b.id);
  participant_table = memory (λ a b. a.thread_id == b.thread_id && a.actor_id == b.actor_id);
  message_table = memory (λ a b. a.id == b.id);
  reaction_table = memory (λ a b. a.message_id == b.message_id && a.actor_id == b.actor_id);
  key_table = memory (λ a b. a.actor_id == b.actor_id && a.key_id == b.key_id);
  thread_tx = in_memory;
}

abbrev key : String → DmDeviceKey
key id = record {
  actor_id = "a";
  key_id = id;
  public_key = "pk";
  created_at = 1;
  published_by = "a";
  device_id = "phone";
  retired_at = none;
}

abbrev db : DmDb
db = record {
  threads = [];
  participants =
      record { thread_id = "t"; actor_id = "a"; state = active; is_admin = true; updated_at = 1 }
      ∷ [];
  messages =
      record {
        id = "m";
        thread_id = "t";
        sender_id = "a";
        sender_device_key_id = "k1";
        payload_ciphertext = "x";
        per_recipient_keys = [];
        created_at = 1;
      }
      ∷ [];
  reactions = [];
  keys = key "k1" ∷ [];
}

published : (publish_device_key engine 5 "id" (key "k2") db).0 ≡ ok (key "k2")
unfolding publish_device_key
published = refl

publish_device_key_alone_example :
    count (superseded (key "k2")) (publish_device_key engine 5 "id" (key "k2") db).1.keys ≡ 0
publish_device_key_alone_example =
    publish_device_key_alone engine 5 "id" (key "k2") (key "k2") db published refl

said_fenced_example :
    ((out : List DmMessage)
      → (list_dm_messages_for engine 5 "id" "t" "a" db).0 ≡ ok out
      → IsActiveIn db "t" "a")
    × ((out : List DmReaction)
        → (list_dm_reactions_for engine 5 "id" "t" "a" db).0 ≡ ok out
        → IsActiveIn db "t" "a")
    × ((clear_dm_reaction_for engine 5 "id" "m" "a" db).0 ≡ ok tt → IsActiveFor db "m" "a")
    × ((set_dm_reaction_for engine 5 "id" "m" "a" "+1" db).0 ≡ ok tt
        → IsActiveFor db "m" "a"
          × (("+1" == "") ≡ false)
          × (leb (length (codes "+1")) max_reaction_runes ≡ true))
said_fenced_example = said_fenced engine 5 "id" "t" "m" "a" "+1" db

-- A minute is over after a minute, and a timer too large for an int64 of nanoseconds at once.
minute-over : over (some (pos 60)) 1 60_000_000_001 ≡ true
minute-over = refl

minute_left : over (some (pos 60)) 1 60_000_000_000 ≡ false
minute_left = refl

centuries-over : over (some (pos 9_223_372_037)) 1 1 ≡ true
centuries-over = refl
