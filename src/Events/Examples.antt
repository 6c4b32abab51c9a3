-- ===== src/Events/Examples.antt =====
-- Runs of the outbox over a list of records, and the theorems about them.
use Prim.Native.Nat.{min}
use baobab_trade.Prelude.{
  ◌≡◌, refl, ap, ◌+◌, ◌*◌, ◌≤◌, String, true, Option, none, some, arith, List, [], ◌∷◌, pos, All,
  if◌then◌else◌, ◌==◌, not,
}
use baobab_trade.Events.Outbox.{
  OutboxRecord, OutboxStatus, pending, publishing, published, retry, dead_letter, RetryPolicy,
  default_retry_policy, delay_after, retry_due, not_due, claim, is_due, reconcile_outbox_record,
  is_past,
}
use baobab_trade.Events.Outbox.{is_publishing}
use baobab_trade.Prelude.{◌&&◌, ◌||◌, leb, false}
use baobab_trade.Events.Dispatch.{dispatch_due, dispatch_one}
use baobab_trade.Events.Enqueue.{ok, throws, collision, enqueue}
use baobab_trade.Events.Kept.{Kept, is_settled}
use baobab_trade.Events.Histories.{History, still, first, dispatches, history-Kept}
use baobab_trade.Events.Taken.{enqueued-IsAnswered}
use baobab_trade.Events.Delays.{delay_after-IsBounded}
use baobab_trade.Events.Due.{reconcile-IsDue, dispatch_due-IsStarved, reports_due}
use baobab_trade.Events.Rounds.{Rounds, done, round, rounds-IsBounded}
use baobab_trade.Events.Rows.{Message, message_reading, new_row, list_store}
use baobab_trade.Events.Tables.{list_store-IsStore, list_store_updates}

abbrev message : Message
message = record { key = "k1"; body = "b" }

abbrev other_message : Message
other_message = record { key = "k1"; body = "another" }

abbrev rows : List (OutboxRecord Message)
rows = new_row message "k1" ∷ []

abbrev refuses : OutboxRecord Message → Option String
refuses r = some "PUBLISH_FAILED"

abbrev accepts : OutboxRecord Message → Option String
accepts r = none

abbrev waiting : OutboxRecord Message
waiting = record (new_row message "k1") {
  status = retry;
  attempt_count = 1;
  next_attempt_at = 1010;
  last_error_code = some "PUBLISH_FAILED";
}

enqueued_run : enqueue message_reading list_store [] message ≡ (ok (new_row message "k1"), rows)
unfolding enqueue baobab_trade.Events.Enqueue.enqueue_keyed
    baobab_trade.Events.Enqueue.enqueue_answer baobab_trade.Events.Enqueue.create
    baobab_trade.Events.Enqueue.create_answer baobab_trade.Events.Enqueue.settle_insert
    baobab_trade.Events.Rows.insert_row
enqueued_run = refl

dispatched_run :
    dispatch_due list_store default_retry_policy 10 refuses rows (pos 100)
    ≡ (some (waiting ∷ []), waiting ∷ [])
unfolding dispatch_due baobab_trade.Events.Dispatch.dispatch_each
    baobab_trade.Events.Outbox.clamp_limit baobab_trade.Events.Outbox.list_due is_due dispatch_one
    claim baobab_trade.Events.Outbox.claim_current baobab_trade.Events.Outbox.settle_claim
    baobab_trade.Events.Outbox.apply baobab_trade.Events.Dispatch.handle
    baobab_trade.Events.Dispatch.attempted baobab_trade.Events.Dispatch.failed
    baobab_trade.Events.Dispatch.settle_mark baobab_trade.Events.Dispatch.after delay_after
    baobab_trade.Events.Rows.set_rows baobab_trade.Events.Rows.update_rows
dispatched_run = refl

abbrev run : History message_reading list_store default_retry_policy rows (waiting ∷ [])
run = first (dispatches 10 refuses (pos 100) (ap (λ x. x.1) dispatched_run)) still

history-Kept_example : Kept list_store list_store-IsStore 8 rows (waiting ∷ [])
history-Kept_example =
    history-Kept message_reading list_store default_retry_policy list_store-IsStore run

enqueued-IsAnswered_example :
    (r' : OutboxRecord Message) × (r'.id ≡ "k1")
    × (enqueue message_reading list_store (waiting ∷ []) other_message
        ≡ (if not ("b" == "another") then throws collision else ok r', waiting ∷ []))
enqueued-IsAnswered_example =
    enqueued-IsAnswered message_reading list_store list_store-IsStore default_retry_policy []
      message other_message enqueued_run run refl refl

delay_after-IsBounded_example :
    (1000 ≤ delay_after default_retry_policy 3)
    × (delay_after default_retry_policy 3 ≤ 300000)
    × (delay_after default_retry_policy 1 ≡ 1000)
    × (delay_after default_retry_policy 4 ≡ min (2 * delay_after default_retry_policy 3) 300000)
delay_after-IsBounded_example = delay_after-IsBounded default_retry_policy (omega arith) 2

last_delay : delay_after default_retry_policy 10 ≡ 300000
unfolding delay_after
last_delay = refl

abbrev in_flight : OutboxRecord Message
in_flight = record (new_row message "k1") {
  status = publishing;
  attempt_count = 1;
  lease_expires_at = some 60010;
}

reconcile-IsDue_example :
    reports_due (reconcile_outbox_record in_flight 20)
    ≡ (is_due in_flight 20 || is_publishing in_flight.status && leb in_flight.next_attempt_at 20)
reconcile-IsDue_example = reconcile-IsDue in_flight 20

-- Under a lease that runs: reported due, and not due to a claim.
reported_early :
    (reports_due (reconcile_outbox_record in_flight 20) ≡ true) × (is_due in_flight 20 ≡ false)
unfolding reconcile_outbox_record baobab_trade.Events.Outbox.reconcile_by
    baobab_trade.Events.Outbox.reconcile_waiting is_due
reported_early = (refl, refl)

abbrev old_row : OutboxRecord Message
old_row = record (new_row message "k0") { id = "k0"; status = published }

abbrev crowded : List (OutboxRecord Message)
crowded = old_row ∷ old_row ∷ new_row message "k1" ∷ []

crowded-IsSettled :
    All
      (λ (r : OutboxRecord Message). is_settled r.status ≡ true)
      (list_store.page crowded (baobab_trade.Events.Outbox.clamp_limit (pos 1) * 2))
unfolding baobab_trade.Events.Outbox.clamp_limit
crowded-IsSettled = (refl, (refl, tt))

dispatch_due-IsStarved_example :
    dispatch_due list_store default_retry_policy 10 accepts crowded (pos 1) ≡ (some [], crowded)
dispatch_due-IsStarved_example =
    dispatch_due-IsStarved list_store default_retry_policy 10 accepts crowded (pos 1)
      crowded-IsSettled

first_is_due : is_due (new_row message "k1") 10 ≡ true
unfolding is_due
first_is_due = refl

abbrev one_round :
    Rounds list_store list_store-IsStore default_retry_policy "k1" rows 1
      (dispatch_one list_store default_retry_policy 10 refuses rows (new_row message "k1")).1
one_round = round (new_row message "k1") 10 refuses refl first_is_due refl done

rounds-IsBounded_example :
    (0 + 1 ≤ 8)
    × (0 + 1 ≡ 8
        → (r' : OutboxRecord Message) × (list_store.record_of
              (dispatch_one list_store default_retry_policy 10 refuses rows
                (new_row message "k1")).1
              "k1"
            ≡ some r')
          × (is_settled r'.status ≡ true))
rounds-IsBounded_example =
    rounds-IsBounded list_store list_store-IsStore default_retry_policy
      (λ db id ch r at. list_store_updates db id ch r at) "k1" (new_row message "k1") refl refl
      (omega arith) one_round
