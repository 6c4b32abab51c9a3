-- ===== src/Events/Rounds.antt =====
-- How often one record of baobab/events/outbox.ts is dispatched, where the updates go through.
use baobab_trade.Prelude.{
  ℕ, zero, suc, ◌+◌, ◌≤◌, ◌<◌, ◌≡◌, refl, sym, ap, ◌∙◌, String, Bool, true, false, Option, none,
  some, leb, inl, inr, ◌⊎◌, Bool-cases, arith, ==_refl,
}
use baobab_trade.Events.Outbox.{
  OutboxRecord, RetryPolicy, Store, updated, Change, claims, marks_published, marks_retry,
  marks_dead_letter, delay_after, claim, claim_current, settle_claim, is_due, apply, is_waiting,
}
use baobab_trade.Events.Dispatch.{
  settle_mark, failed, settle_published, attempted, handle, dispatch_one,
}
use baobab_trade.Events.Kept.{is_settled, IsStore}

module _ {Event : Type 0} (s : Store Event) (laws : IsStore s) (policy : RetryPolicy) where
  -- Every update of a record that is there goes through.
  abbrev pub IsReliable : Type 0
  IsReliable =
      (db : s.Db) (id : String) (ch : Change) (r : OutboxRecord Event)
      → s.record_of db id ≡ some r
      → (db' : s.Db) × (s.update db id ch ≡ (updated (apply ch r), db'))

  -- `n` dispatches of the record, each at a time when it is due, with any publisher.
  pub data Rounds (id : String) : s.Db → ℕ → s.Db → Type 0 where
    done : {db : s.Db} → Rounds id db zero db
    round :
        {db db1 db2 : s.Db} {n : ℕ} (r : OutboxRecord Event) (now : ℕ)
        (publish : OutboxRecord Event → Option String)
        → s.record_of db id ≡ some r
        → is_due r now ≡ true
        → (dispatch_one s policy now publish db r).1 ≡ db1
        → Rounds id db1 n db2
        → Rounds id db (suc n) db2

  -- A record after `n` attempts: it waits for another one, within the policy's most, or is settled.
  abbrev pub Stands : OutboxRecord Event → ℕ → Type 0
  Stands r n =
      ((is_waiting r.status ≡ true) × (r.attempt_count ≡ n) × (n < policy.max_attempts))
      ⊎ (is_settled r.status ≡ true)

  module _ (reliable : IsReliable) where
    written :
        (db : s.Db) (id : String) (ch : Change) (r : OutboxRecord Event)
        → s.record_of db id ≡ some r
        → (db' : s.Db) × (s.update db id ch ≡ (updated (apply ch r), db'))
          × (s.record_of db' id ≡ some (apply ch r))
    written db id ch r at =
        let (db', e) = reliable db id ch r at in
        (db', e, laws.update_found db id ch (apply ch r) db' id e ∙ rw (==_refl id) refl)

    module _ (now : ℕ) (publish : OutboxRecord Event → Option String) where
      failed-Stands :
          (db : s.Db) (id code : String) (attempt : ℕ) (r : OutboxRecord Event)
          → s.record_of db id ≡ some r
          → r.attempt_count ≡ attempt
          → (r' : OutboxRecord Event) × (s.record_of
                (failed s policy now publish db id attempt code).1
                id
              ≡ some r')
            × Stands r' attempt
      unfolding failed settle_mark apply
      failed-Stands db id code attempt r at counted =
          elim (Bool-cases (leb policy.max_attempts attempt)) [
            | inl last ↦
                let ch = marks_dead_letter code in
                let (db', e, found) = written db id ch r at in
                (apply ch r, rw (last, e) found, inr refl)
            | inr more ↦
                let ch = marks_retry (now + delay_after policy attempt) code in
                let (db', e, found) = written db id ch r at in
                (apply ch r, rw (more, e) found, inl (refl, counted, ground arith))
          ]

      attempted-Stands :
          (db : s.Db) (id : String) (attempt : ℕ) (r : OutboxRecord Event) (o : Option String)
          → s.record_of db id ≡ some r
          → r.attempt_count ≡ attempt
          → (r' : OutboxRecord Event) × (s.record_of
                (attempted s policy now publish db id attempt o).1
                id
              ≡ some r')
            × Stands r' attempt
      unfolding attempted settle_published apply
      attempted-Stands db id attempt r (some code) at counted =
          failed-Stands db id code attempt r at counted
      attempted-Stands db id attempt r none at counted =
          let ch = marks_published now in
          let (db', e, found) = written db id ch r at in (apply ch r, rw e found, inr refl)

      own_Stands :
          (db : s.Db) (r : OutboxRecord Event)
          → s.record_of db r.id ≡ some r
          → is_due r now ≡ true
          → (r' : OutboxRecord Event) × (s.record_of (dispatch_one s policy now publish db r).1 r.id
              ≡ some r')
            × Stands r' (r.attempt_count + 1)
      unfolding dispatch_one claim claim_current settle_claim handle apply
      own_Stands db r at due =
          let ch = claims (r.attempt_count + 1) (now + policy.lease_duration_ms) in
          let (db', e, found) = written db r.id ch r at in
          rw (at, due, e)
            (attempted-Stands db' r.id (r.attempt_count + 1) (apply ch r) (publish (apply ch r))
              found refl)

      round_Stands :
          (db : s.Db) (id : String) (r : OutboxRecord Event)
          → s.record_of db id ≡ some r
          → is_due r now ≡ true
          → (r' : OutboxRecord Event) × (s.record_of (dispatch_one s policy now publish db r).1 id
              ≡ some r')
            × Stands r' (r.attempt_count + 1)
      round_Stands db id r at due =
          let same : r.id ≡ id = laws.record_id db id r at in
          let own = own_Stands db r (ap (λ x. s.record_of db x) same ∙ at) due in
          (
            own.0,
            ap (λ x. s.record_of (dispatch_one s policy now publish db r).1 x) (sym same) ∙ own.1,
            own.2,
          )

    settled_idle :
        (r : OutboxRecord Event) (now : ℕ) → is_settled r.status ≡ true → is_due r now ≡ false
    unfolding is_due
    settled_idle r now h = ground arith

    settled_Rounds :
        (id : String) {db db2 : s.Db} {n : ℕ} (r : OutboxRecord Event)
        → s.record_of db id ≡ some r
        → is_settled r.status ≡ true
        → Rounds id db n db2
        → (n ≡ 0) × (db2 ≡ db)
    settled_Rounds id r at h done = (refl, refl)
    settled_Rounds id r at h (round r' now publish at' due e rest) =
        let q : some r ≡ some r' = sym at ∙ at' in
        let q' : r ≡ r' = cc in
        absurd (clash (ap (λ x. is_due x now) q' ∙ due) (settled_idle r now h))
      where
        clash : {t : Bool} → t ≡ true → t ≡ false → ⊥
        clash p q = ground arith

    -- Where the updates go through, a record that waits after `k` attempts, fewer than the policy's
    -- most, is dispatched at most as often as attempts are left, whenever it is due and whatever the
    -- publisher does; and once it was dispatched so often it is published or dead.
    pub rounds-IsBounded :
        (id : String) {db db2 : s.Db} {n : ℕ} (r : OutboxRecord Event)
        → s.record_of db id ≡ some r
        → is_waiting r.status ≡ true
        → r.attempt_count < policy.max_attempts
        → Rounds id db n db2
        → (r.attempt_count + n ≤ policy.max_attempts)
          × (r.attempt_count + n ≡ policy.max_attempts
              → (r' : OutboxRecord Event) × (s.record_of db2 id ≡ some r')
                × (is_settled r'.status ≡ true))
    rounds-IsBounded id r at waits few done = (omega arith, λ e. absurd (omega arith))
    rounds-IsBounded id {db} r at waits few (round {n = n} r1 now publish at1 due e rest) =
        let q : some r ≡ some r1 = sym at ∙ at1 in
        let q' : r ≡ r1 = cc in
        let (r2, at2, stands) = round_Stands now publish db id r1 at1 due in
        let at3 : s.record_of _ id ≡ some r2 = ap (λ x. s.record_of x id) (sym e) ∙ at2 in
        let same : r.attempt_count ≡ r1.attempt_count = ap (λ x. x.attempt_count) q' in
        elim stands [
          | inr settled ↦
              let (none_left, still) = settled_Rounds id r2 at3 settled rest in
              (omega arith, λ _. (r2, ap (λ x. s.record_of x id) still ∙ at3, settled))
          | inl (waits2, counted, few2) ↦
              let (bound, ends) = rounds-IsBounded id r2 at3 waits2 (omega arith) rest in
              (omega arith, λ f. ends (omega arith))
        ]
