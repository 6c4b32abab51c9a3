-- ===== src/Events/Outbox.antt =====
-- baobab/events/outbox.ts and baobab/events/outbox-record-adapter.ts: the records of the outbox, what
-- is due, and the claims and marks of the adapter. The type of an event, its fingerprint and its
-- validity are parameters, and so is the service that keeps the records.
use Prim.Native.Nat.{min}
use baobab_trade.Prelude.{
  ℕ, ◌-◌, ◌*◌, ◌^◌, max, String, Bool, true, false, not, ◌&&◌, ◌||◌, Option, none, some, List,
  if◌then◌else◌, leb, ℤ, pos_part, filter, take,
}

pub data OutboxStatus : Type 0 where
  pending publishing published retry dead_letter : OutboxStatus

module _ (Event : Type 0) where
  pub record OutboxRecord : Type 0 where
    pub id : String
    pub event_id : String
    pub event_type : String
    pub subject : String
    pub tenant_id : Option String
    pub correlation_id : String
    pub causation_id : Option String
    pub idempotency_key : String
    pub envelope : Event
    pub status : OutboxStatus
    pub attempt_count : ℕ
    pub next_attempt_at : ℕ
    pub published_at : Option ℕ
    pub lease_expires_at : Option ℕ
    pub last_error_code : Option String

pub record RetryPolicy : Type 0 where
  pub max_attempts : ℕ
  pub initial_delay_ms : ℕ
  pub max_delay_ms : ℕ
  pub lease_duration_ms : ℕ

abbrev pub default_retry_policy : RetryPolicy
default_retry_policy = record {
  max_attempts = 8;
  initial_delay_ms = 1000;
  max_delay_ms = 300000;
  lease_duration_ms = 60000;
}

abbrev pub is_waiting : OutboxStatus → Bool
is_waiting pending = true
is_waiting retry = true
is_waiting _ = false

abbrev pub is_publishing : OutboxStatus → Bool
is_publishing publishing = true
is_publishing _ = false

-- `date !== null && date <= now`.
abbrev pub is_past : Option ℕ → ℕ → Bool
is_past none now = false
is_past (some t) now = leb t now

-- The delay before the attempt after number `attempt`.
unfoldable pub delay_after : RetryPolicy → ℕ → ℕ
delay_after p attempt = min (p.initial_delay_ms * 2 ^ max 0 (attempt - 1)) p.max_delay_ms

-- `Math.max(0, Math.min(limit, 500))`.
unfoldable pub clamp_limit : ℤ → ℕ
clamp_limit limit = min (pos_part limit) 500

-- The values that an update of a record writes.
pub data Change : Type 0 where
  claims : ℕ → ℕ → Change
  marks_published : ℕ → Change
  marks_retry : ℕ → String → Change
  marks_dead_letter : String → Change

pub data Reconciliation : Type 0 where
  action_required matched : Reconciliation
  retry_due pending_still : Option String → Reconciliation

module _ {Event : Type 0} where
  unfoldable pub is_due : OutboxRecord Event → ℕ → Bool
  is_due r now =
      is_waiting r.status && leb r.next_attempt_at now
      || is_publishing r.status && is_past r.lease_expires_at now

  unfoldable pub apply : Change → OutboxRecord Event → OutboxRecord Event
  apply (claims attempt lease) r = record r {
    status = publishing;
    attempt_count = attempt;
    lease_expires_at = some lease;
  }
  apply (marks_published at) r = record r {
    status = published;
    published_at = some at;
    lease_expires_at = none;
    last_error_code = none;
  }
  apply (marks_retry at code) r = record r {
    status = retry;
    next_attempt_at = at;
    lease_expires_at = none;
    last_error_code = some code;
  }
  apply (marks_dead_letter code) r = record r {
    status = dead_letter;
    lease_expires_at = none;
    last_error_code = some code;
  }

  unfoldable pub reconcile_waiting : OutboxRecord Event → ℕ → Reconciliation
  reconcile_waiting r now =
      if leb r.next_attempt_at now
      then retry_due r.last_error_code
      else pending_still r.last_error_code

  unfoldable pub reconcile_by : OutboxStatus → OutboxRecord Event → ℕ → Reconciliation
  reconcile_by dead_letter r now = action_required
  reconcile_by published r now = matched
  reconcile_by publishing r now =
      if is_past r.lease_expires_at now
      then retry_due (some "PUBLISH_LEASE_EXPIRED")
      else reconcile_waiting r now
  reconcile_by pending r now = reconcile_waiting r now
  reconcile_by retry r now = reconcile_waiting r now

  -- `reconcileOutboxRecord`.
  unfoldable pub reconcile_outbox_record : OutboxRecord Event → ℕ → Reconciliation
  reconcile_outbox_record r now = reconcile_by r.status r now

-- How an update ends: with the record, or by an error with its code.
pub data Updated (Event : Type 0) : Type 0 where
  updated : OutboxRecord Event → Updated Event
  fails : String → Updated Event

-- The calls of EventOutboxModuleService. `page n` is the list of the first `n` records.
pub record Store (Event : Type 0) : Type 1 where
  pub Db : Type 0
  pub record_of : Db → String → Option (OutboxRecord Event)
  pub by_key : Db → String → Option (OutboxRecord Event)
  pub page : Db → ℕ → List (OutboxRecord Event)
  pub update : Db → String → Change → Updated Event × Db
  pub insert : Db → Event → String → Updated Event × Db

pub data Claimed (Event : Type 0) : Type 0 where
  claimed : OutboxRecord Event → Claimed Event
  not_due : Claimed Event
  claim_fails : Claimed Event

module _ {Event : Type 0} (store : Store Event) where
  unfoldable pub list_due : store.Db → ℕ → ℕ → List (OutboxRecord Event)
  list_due db now limit = take limit (filter (λ r. is_due r now) (store.page db (limit * 2)))

  unfoldable pub settle_claim : Updated Event × store.Db → Claimed Event × store.Db
  settle_claim (updated r, db) = (claimed r, db)
  settle_claim (fails code, db) = (claim_fails, db)

  unfoldable pub claim_current :
      store.Db → String → ℕ → ℕ → ℕ → Option (OutboxRecord Event) → Claimed Event × store.Db
  claim_current db id now attempt lease none = (not_due, db)
  claim_current db id now attempt lease (some current) =
      if not (is_due current now)
      then (not_due, db)
      else settle_claim (store.update db id (claims attempt lease))

  -- `claim`, under the lock of the record.
  unfoldable pub claim : store.Db → String → ℕ → ℕ → ℕ → Claimed Event × store.Db
  claim db id now attempt lease = claim_current db id now attempt lease (store.record_of db id)
