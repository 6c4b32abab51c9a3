-- ===== src/Events/Due.antt =====
-- What is due to the claims of baobab/events/outbox-record-adapter.ts, against what
-- `reconcileOutboxRecord` of baobab/events/outbox.ts reports, and against what a run lists.
use baobab_trade.Prelude.{
  ◌&&◌, ◌||◌, Bool-cases, inl, inr, ℕ, zero, suc, ◌*◌, ◌≡◌, refl, String, Bool, true, false, Option,
  some, List, [], ◌∷◌, leb, ℤ, arith, filter, take, All,
}
use baobab_trade.Events.Outbox.{
  is_publishing, OutboxStatus, pending, publishing, published, retry, dead_letter, OutboxRecord,
  RetryPolicy, Store, is_due, is_past, reconcile_outbox_record, reconcile_by, reconcile_waiting,
  Reconciliation, retry_due, clamp_limit, list_due,
}
use baobab_trade.Events.Dispatch.{dispatch_due, dispatch_each}
use baobab_trade.Events.Kept.{is_settled}

abbrev pub reports_due : Reconciliation → Bool
reports_due (retry_due reason) = true
reports_due _ = false

module _ {Event : Type 0} where
  reconcile_by_lem :
      (r : OutboxRecord Event) (now : ℕ) (s : OutboxStatus)
      → r.status ≡ s
      → reports_due (reconcile_by s r now)
        ≡ (is_due r now || is_publishing r.status && leb r.next_attempt_at now)
  unfolding reconcile_by reconcile_waiting is_due
  reconcile_by_lem r now pending e = ground arith
  reconcile_by_lem r now retry e = ground arith
  reconcile_by_lem r now published e = ground arith
  reconcile_by_lem r now dead_letter e = ground arith
  reconcile_by_lem r now publishing e = elim (Bool-cases (is_past r.lease_expires_at now)) [
    | inl past ↦ rw (e, past) refl
    | inr running ↦ rw (e, running) (ground arith)
  ]

  -- A record is reported due for a retry exactly when a claim finds it due, or when it is being
  -- published and the attempt was due by now, though its lease still runs.
  pub reconcile-IsDue :
      (r : OutboxRecord Event) (now : ℕ)
      → reports_due (reconcile_outbox_record r now)
        ≡ (is_due r now || is_publishing r.status && leb r.next_attempt_at now)
  unfolding reconcile_outbox_record
  reconcile-IsDue r now = reconcile_by_lem r now r.status refl

  none_due :
      (rs : List (OutboxRecord Event)) (now : ℕ)
      → All (λ r. is_settled r.status ≡ true) rs
      → filter (λ r. is_due r now) rs ≡ []
  unfolding is_due
  none_due [] now h = refl
  none_due (r ∷ rs) now (settled, h) =
      let idle : is_due r now ≡ false = ground arith in rw idle (none_due rs now h)

  take_nil : (n : ℕ) → ◌≡◌ {A = List (OutboxRecord Event)} (take n []) []
  take_nil zero = refl
  take_nil (suc n) = refl

  -- Where the first records that the service lists, twice as many as the limit, are all published or
  -- dead, a run does nothing, whichever other records are due.
  pub dispatch_due-IsStarved :
      (s : Store Event) (policy : RetryPolicy) (now : ℕ)
      (publish : OutboxRecord Event → Option String) (db : s.Db) (limit : ℤ)
      → All (λ r. is_settled r.status ≡ true) (s.page db (clamp_limit limit * 2))
      → dispatch_due s policy now publish db limit ≡ (some [], db)
  unfolding dispatch_due dispatch_each list_due
  dispatch_due-IsStarved s policy now publish db limit h =
      rw (none_due _ now h, take_nil (clamp_limit limit)) refl
