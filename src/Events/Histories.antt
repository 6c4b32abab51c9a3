-- ===== src/Events/Histories.antt =====
-- Histories of enqueues and dispatches of baobab/events/outbox.ts: what becomes of every record, and
-- what a key that was taken answers.
use baobab_trade.Prelude.{
  ℕ, ◌≡◌, refl, ap, ◌∙◌, String, ◌==◌, Option, none, some, ℤ, inl, inr, Bool-cases, subst,
}
use baobab_trade.Events.Outbox.{OutboxRecord, RetryPolicy, Store, Updated, updated, fails}
use baobab_trade.Events.Dispatch.{dispatch_due}
use baobab_trade.Events.Kept.{IsStore, Kept, Kept-refl, Kept-trans, Moves-refl}
use baobab_trade.Events.Dispatched.{dispatch_due-Kept}
use baobab_trade.Events.Enqueue.{
  Reading, Enqueued, settle_insert, create_answer, create, enqueue_answer, enqueue_keyed, enqueue,
}

module _ {Event : Type 0} (reading : Reading Event) (s : Store Event) (policy : RetryPolicy) where
  -- One call: an enqueue, or a run of the dispatcher at some time with some publisher.
  pub data Step : s.Db → s.Db → Type 0 where
    enqueues : {db db' : s.Db} (e : Event) → (enqueue reading s db e).1 ≡ db' → Step db db'
    dispatches :
        {db db' : s.Db} (now : ℕ) (publish : OutboxRecord Event → Option String) (limit : ℤ)
        → (dispatch_due s policy now publish db limit).1 ≡ db'
        → Step db db'

  pub data History : s.Db → s.Db → Type 0 where
    still : {db : s.Db} → History db db
    first : {x y z : s.Db} → Step x y → History y z → History x z

  module _ (laws : IsStore s) where
    abbrev Keeps : s.Db → s.Db → Type 0
    Keeps = Kept s laws policy.max_attempts

    inserted_Kept :
        (db : s.Db) (e : Event) (key : String) (w : Updated Event × s.Db)
        → s.insert db e key ≡ w
        → Keeps db (settle_insert reading s w).1
    unfolding settle_insert
    inserted_Kept db e key w h =
        subst (λ x. Keeps db (settled x).1) h
          (record {
            turns = λ j r at. (
              r,
              ap (λ x. s.record_of x j) (same (s.insert db e key))
                  ∙ laws.insert_keeps db e key j r at,
              Moves-refl policy.max_attempts r,
            );
            keyed = λ k r at. (
              r,
              ap (λ x. s.by_key x k) (same (s.insert db e key)) ∙ laws.insert_keys db e key k r at,
              refl,
              refl,
            );
          })
      where
        settled : Updated Event × s.Db → Enqueued Event × s.Db
        settled w = settle_insert reading s w

        same : (w : Updated Event × s.Db) → (settled w).1 ≡ w.1
        same (updated r, d) = refl
        same (fails c, d) = refl

    created_Kept :
        (db : s.Db) (e : Event) (key : String) (o : Option (OutboxRecord Event))
        → Keeps db (create_answer reading s db e key o).1
    unfolding create_answer
    created_Kept db e key none = inserted_Kept db e key _ refl
    created_Kept db e key (some r) = Kept-refl s laws _ db

    answered_Kept :
        (db : s.Db) (e : Event) (key : String) (o : Option (OutboxRecord Event))
        → Keeps db (enqueue_answer reading s db e key o).1
    unfolding enqueue_answer create
    answered_Kept db e key none = created_Kept db e key (s.by_key db key)
    answered_Kept db e key (some r) = Kept-refl s laws _ db

    keyed_Kept :
        (db : s.Db) (e : Event) (k : Option String) → Keeps db (enqueue_keyed reading s db e k).1
    unfolding enqueue_keyed
    keyed_Kept db e none = Kept-refl s laws _ db
    keyed_Kept db e (some key) = elim (Bool-cases (key == "")) [
      | inl empty ↦ rw empty (Kept-refl s laws _ db)
      | inr full ↦ rw full (answered_Kept db e key (s.by_key db key))
    ]

    enqueue_Kept : (db : s.Db) (e : Event) → Keeps db (enqueue reading s db e).1
    unfolding enqueue
    enqueue_Kept db e = elim (Bool-cases (reading.is_valid e)) [
      | inl valid ↦ rw valid (keyed_Kept db e (reading.idempotency_key e))
      | inr other ↦ rw other (Kept-refl s laws _ db)
    ]

    -- Over any history of enqueues and dispatches, whatever is published and whichever writes fail,
    -- every record keeps its event, a published or dead record stays as it is, a record that waits
    -- keeps to fewer attempts than the policy's most, and an event is found under its key.
    pub history-Kept : {x y : s.Db} → History x y → Keeps x y
    history-Kept {x} still = Kept-refl s laws _ x
    history-Kept (first (enqueues {db = x} e h) rest) =
        Kept-trans s laws _ (subst (λ d. Keeps x d) h (enqueue_Kept x e)) (history-Kept rest)
    history-Kept (first (dispatches {db = x} now publish limit h) rest) =
        Kept-trans s laws _
          (subst (λ d. Keeps x d) h (dispatch_due-Kept s laws policy now publish x limit))
          (history-Kept rest)
