-- ===== src/Events/Enqueue.antt =====
-- `enqueue` of baobab/events/outbox.ts and `create` of baobab/events/outbox-record-adapter.ts. Which
-- events are valid and their semantic fingerprint are parameters.
use baobab_trade.Prelude.{String, Bool, not, ◌==◌, Option, none, some, if◌then◌else◌}
use baobab_trade.Events.Outbox.{OutboxRecord, Store, Updated, updated, fails}

pub data EnqueueRefusal : Type 0 where
  nonconforming no_key collision : EnqueueRefusal
  database : String → EnqueueRefusal

pub data Enqueued (Event : Type 0) : Type 0 where
  ok : OutboxRecord Event → Enqueued Event
  throws : EnqueueRefusal → Enqueued Event

-- What the code reads of an event.
pub record Reading (Event : Type 0) : Type 0 where
  pub is_valid : Event → Bool
  pub idempotency_key : Event → Option String
  pub fingerprint : Event → String

module _ {Event : Type 0} (reading : Reading Event) (store : Store Event) where
  -- The record that is found under the key, if it carries the same event.
  unfoldable pub answer_existing : Event → OutboxRecord Event → Enqueued Event
  answer_existing e existing =
      if not (reading.fingerprint existing.envelope == reading.fingerprint e)
      then throws collision
      else ok existing

  unfoldable pub settle_insert : Updated Event × store.Db → Enqueued Event × store.Db
  settle_insert (updated r, db) = (ok r, db)
  settle_insert (fails code, db) = (throws (database code), db)

  unfoldable pub create_answer :
      store.Db → Event → String → Option (OutboxRecord Event) → Enqueued Event × store.Db
  create_answer db e key (some existing) = (answer_existing e existing, db)
  create_answer db e key none = settle_insert (store.insert db e key)

  -- `create`, under the lock of the key.
  unfoldable pub create : store.Db → Event → String → Enqueued Event × store.Db
  create db e key = create_answer db e key (store.by_key db key)

  unfoldable pub enqueue_answer :
      store.Db → Event → String → Option (OutboxRecord Event) → Enqueued Event × store.Db
  enqueue_answer db e key (some existing) = (answer_existing e existing, db)
  enqueue_answer db e key none = create db e key

  unfoldable pub enqueue_keyed : store.Db → Event → Option String → Enqueued Event × store.Db
  enqueue_keyed db e none = (throws no_key, db)
  enqueue_keyed db e (some key) =
      if key == "" then (throws no_key, db) else enqueue_answer db e key (store.by_key db key)

  -- `enqueue`.
  unfoldable pub enqueue : store.Db → Event → Enqueued Event × store.Db
  enqueue db e =
      if not (reading.is_valid e)
      then (throws nonconforming, db)
      else enqueue_keyed db e (reading.idempotency_key e)
