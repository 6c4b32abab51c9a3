-- ===== src/Events/Dispatch.antt =====
-- `AtLeastOnceOutboxDispatcher` of baobab/events/outbox.ts. The outcome of a publication is a
-- parameter: none, or the code of the error.
use baobab_trade.Prelude.{ℕ, ◌+◌, String, Option, none, some, List, [], ◌∷◌, if◌then◌else◌, leb, ℤ}
use baobab_trade.Events.Outbox.{
  OutboxRecord, RetryPolicy, Store, Updated, updated, fails, Claimed, claimed, not_due, claim_fails,
  marks_published, marks_retry, marks_dead_letter, delay_after, clamp_limit, list_due, claim,
}

-- How the body of the loop ends: with nothing, with a record for the results, or by an error.
pub data Handled (Event : Type 0) : Type 0 where
  skipped : Handled Event
  pushed : OutboxRecord Event → Handled Event
  throws : Handled Event

module _ {Event : Type 0} (store : Store Event) (policy : RetryPolicy) (now : ℕ)
    (publish : OutboxRecord Event → Option String) where
  unfoldable pub settle_mark : Updated Event × store.Db → Handled Event × store.Db
  settle_mark (updated r, db) = (pushed r, db)
  settle_mark (fails code, db) = (throws, db)

  -- The catch: a dead letter after the last attempt, another attempt later before it.
  unfoldable pub failed : store.Db → String → ℕ → String → Handled Event × store.Db
  failed db id attempt code = settle_mark (
      store.update db id (
        if leb policy.max_attempts attempt
        then marks_dead_letter code
        else marks_retry (now + delay_after policy attempt) code))

  unfoldable pub settle_published : String → ℕ → Updated Event × store.Db → Handled Event × store.Db
  settle_published id attempt (updated r, db) = (pushed r, db)
  settle_published id attempt (fails code, db) = failed db id attempt code

  unfoldable pub attempted : store.Db → String → ℕ → Option String → Handled Event × store.Db
  attempted db id attempt none =
      settle_published id attempt (store.update db id (marks_published now))
  attempted db id attempt (some code) = failed db id attempt code

  unfoldable pub handle : ℕ → Claimed Event × store.Db → Handled Event × store.Db
  handle attempt (not_due, db) = (skipped, db)
  handle attempt (claim_fails, db) = (throws, db)
  handle attempt (claimed r, db) = attempted db r.id attempt (publish r)

  -- The body of the loop, for one candidate.
  unfoldable pub dispatch_one : store.Db → OutboxRecord Event → Handled Event × store.Db
  dispatch_one db c =
      handle (c.attempt_count + 1)
        (claim store db c.id now (c.attempt_count + 1) (now + policy.lease_duration_ms))

  abbrev with_record :
      OutboxRecord Event
      → Option (List (OutboxRecord Event)) × store.Db
      → Option (List (OutboxRecord Event)) × store.Db
  with_record r (none, db) = (none, db)
  with_record r (some rs, db) = (some (r ∷ rs), db)

  unfoldable pub after :
      (store.Db → Option (List (OutboxRecord Event)) × store.Db)
      → Handled Event × store.Db
      → Option (List (OutboxRecord Event)) × store.Db
  after rest (skipped, db) = rest db
  after rest (pushed r, db) = with_record r (rest db)
  after rest (throws, db) = (none, db)

  unfoldable pub dispatch_each :
      List (OutboxRecord Event) → store.Db → Option (List (OutboxRecord Event)) × store.Db
  dispatch_each [] db = (some [], db)
  dispatch_each (c ∷ cs) db = after (dispatch_each cs) (dispatch_one db c)

  -- `dispatchDue`; no results means that it throws.
  unfoldable pub dispatch_due : store.Db → ℤ → Option (List (OutboxRecord Event)) × store.Db
  dispatch_due db limit = dispatch_each (list_due store db now (clamp_limit limit)) db
