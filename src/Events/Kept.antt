-- ===== src/Events/Kept.antt =====
-- What a dispatch of baobab/events/outbox.ts keeps of the records, whatever the publisher and the
-- service of the records answer.
use baobab_trade.Prelude.{
  ℕ, ◌+◌, ◌<◌, ◌≡◌, refl, sym, ap, ◌∙◌, String, Bool, true, false, ◌==◌, Option, some,
  if◌then◌else◌, leb, inl, inr, Bool-cases, arith, eq_of_==, subst,
}
use baobab_trade.Events.Outbox.{
  OutboxStatus, publishing, published, dead_letter, OutboxRecord, RetryPolicy, Store, Updated,
  updated, fails, Change, claims, marks_published, marks_retry, marks_dead_letter, delay_after,
  is_due, apply, is_waiting,
}
use baobab_trade.Events.Dispatch.{settle_mark, failed, settle_published}

abbrev pub is_settled : OutboxStatus → Bool
is_settled published = true
is_settled dead_letter = true
is_settled _ = false

-- What the service of the outbox documents: an update writes its values to the record of the id, or
-- fails and leaves the records.
pub record IsStore {Event : Type 0} (s : Store Event) : Type 0 where
  pub record_id :
      (db : s.Db) (id : String) (r : OutboxRecord Event) → s.record_of db id ≡ some r → r.id ≡ id
  pub update_done :
      (db : s.Db) (id : String) (ch : Change) (r' : OutboxRecord Event) (db' : s.Db)
      → s.update db id ch ≡ (updated r', db')
      → (r : OutboxRecord Event) × (s.record_of db id ≡ some r) × (r' ≡ apply ch r)
  pub update_found :
      (db : s.Db) (id : String) (ch : Change) (r' : OutboxRecord Event) (db' : s.Db) (j : String)
      → s.update db id ch ≡ (updated r', db')
      → s.record_of db' j ≡ (if id == j then some r' else s.record_of db j)
  pub update_fails :
      (db : s.Db) (id : String) (ch : Change) (code : String) (db' : s.Db) (j : String)
      → s.update db id ch ≡ (fails code, db')
      → s.record_of db' j ≡ s.record_of db j
  pub update_keys :
      (db : s.Db) (id : String) (ch : Change) (k : String) (r : OutboxRecord Event)
      → s.by_key db k ≡ some r
      → (r' : OutboxRecord Event) × (s.by_key (s.update db id ch).1 k ≡ some r')
        × (r'.id ≡ r.id)
        × (r'.envelope ≡ r.envelope)
  pub insert_keeps :
      (db : s.Db) (e : Event) (k j : String) (r : OutboxRecord Event)
      → s.record_of db j ≡ some r
      → s.record_of (s.insert db e k).1 j ≡ some r
  pub insert_keys :
      (db : s.Db) (e : Event) (k j : String) (r : OutboxRecord Event)
      → s.by_key db j ≡ some r
      → s.by_key (s.insert db e k).1 j ≡ some r
  pub insert_found :
      (db : s.Db) (e : Event) (k : String) (r : OutboxRecord Event) (db' : s.Db)
      → s.insert db e k ≡ (updated r, db')
      → (s.by_key db' k ≡ some r) × (r.envelope ≡ e)

module _ {Event : Type 0} (most : ℕ) where
  -- A record that waits has attempts left.
  abbrev pub HasAttempts : OutboxRecord Event → Type 0
  HasAttempts r = is_waiting r.status ≡ true → r.attempt_count < most

  -- What a record may turn into.
  pub record Moves (r r' : OutboxRecord Event) : Type 0 where
    pub same_event :
        (r'.id ≡ r.id) × (r'.idempotency_key ≡ r.idempotency_key) × (r'.envelope ≡ r.envelope)
    pub same_settled : is_settled r.status ≡ true → r' ≡ r
    pub has_attempts : HasAttempts r → HasAttempts r'

  pub Moves-refl : (r : OutboxRecord Event) → Moves r r
  Moves-refl r = record {
    same_event = (refl, refl, refl);
    same_settled = λ h. refl;
    has_attempts = λ h. h;
  }

  pub Moves-trans : {x y z : OutboxRecord Event} → Moves x y → Moves y z → Moves x z
  Moves-trans {x} {y} {z} h k =
      let (a, b, c) = h.same_event in
      let (d, e, f) = k.same_event in
      record {
        same_event = (d ∙ a, e ∙ b, f ∙ c);
        same_settled = λ s.
            let same : y ≡ x = h.same_settled s in
            k.same_settled (ap (λ r. is_settled r.status) same ∙ s) ∙ same;
        has_attempts = λ s. k.has_attempts (h.has_attempts s);
      }

  pub claimed_Moves :
      (r : OutboxRecord Event) (now attempt lease : ℕ)
      → is_due r now ≡ true
      → Moves r (apply (claims attempt lease) r)
  unfolding apply is_due
  claimed_Moves r now attempt lease due = record {
    same_event = (refl, refl, refl);
    same_settled = λ s. absurd (ground arith);
    has_attempts = λ s w. absurd (ground arith);
  }

  -- A record that is being published may be marked in any way, for a retry while attempts are left.
  marked_Moves :
      (r : OutboxRecord Event) (ch : Change)
      → r.status ≡ publishing
      → HasAttempts (apply ch r)
      → Moves r (apply ch r)
  unfolding apply
  marked_Moves r (claims a l) e h = record {
    same_event = (refl, refl, refl);
    same_settled = λ s. absurd (ground arith);
    has_attempts = λ _. h;
  }
  marked_Moves r (marks_published t) e h = record {
    same_event = (refl, refl, refl);
    same_settled = λ s. absurd (ground arith);
    has_attempts = λ _. h;
  }
  marked_Moves r (marks_retry t c) e h = record {
    same_event = (refl, refl, refl);
    same_settled = λ s. absurd (ground arith);
    has_attempts = λ _. h;
  }
  marked_Moves r (marks_dead_letter c) e h = record {
    same_event = (refl, refl, refl);
    same_settled = λ s. absurd (ground arith);
    has_attempts = λ _. h;
  }

module _ {Event : Type 0} (s : Store Event) (laws : IsStore s) (most : ℕ) where
  -- Every record stays, as it may turn, and is found under its key.
  pub record Kept (db db' : s.Db) : Type 0 where
    pub turns :
        (j : String) (r : OutboxRecord Event)
        → s.record_of db j ≡ some r
        → (r' : OutboxRecord Event) × (s.record_of db' j ≡ some r') × Moves most r r'
    pub keyed :
        (k : String) (r : OutboxRecord Event)
        → s.by_key db k ≡ some r
        → (r' : OutboxRecord Event) × (s.by_key db' k ≡ some r')
          × (r'.id ≡ r.id)
          × (r'.envelope ≡ r.envelope)

  pub Kept-trans : {x y z : s.Db} → Kept x y → Kept y z → Kept x z
  Kept-trans h k = record {
    turns = λ j r at.
        let (r1, at1, m1) = h.turns j r at in
        let (r2, at2, m2) = k.turns j r1 at1 in (r2, at2, Moves-trans most m1 m2);
    keyed = λ key r at.
        let (r1, at1, i1, e1) = h.keyed key r at in
        let (r2, at2, i2, e2) = k.keyed key r1 at1 in (r2, at2, i2 ∙ i1, e2 ∙ e1);
  }

  pub Kept-refl : (db : s.Db) → Kept db db
  Kept-refl db = record {
    turns = λ j r at. (r, at, Moves-refl most r);
    keyed = λ k r at. (r, at, refl, refl);
  }

  keys_kept :
      (db : s.Db) (id : String) (ch : Change) (w : Updated Event × s.Db)
      → s.update db id ch ≡ w
      → (k : String) (r : OutboxRecord Event) → s.by_key db k ≡ some r
      → (r' : OutboxRecord Event) × (s.by_key w.1 k ≡ some r')
        × (r'.id ≡ r.id)
        × (r'.envelope ≡ r.envelope)
  keys_kept db id ch w e k r at =
      let (r', at', i, v) = laws.update_keys db id ch k r at in
      (r', ap (λ x. s.by_key x.1 k) (sym e) ∙ at', i, v)

  pub fails_Kept :
      (db : s.Db) (id : String) (ch : Change) (code : String) (db' : s.Db)
      → s.update db id ch ≡ (fails code, db')
      → Kept db db'
  fails_Kept db id ch code db' e = record {
    turns = λ j r at. (r, laws.update_fails db id ch code db' j e ∙ at, Moves-refl most r);
    keyed = keys_kept db id ch _ e;
  }

  pub update_Kept :
      (db : s.Db) (id : String) (ch : Change) (w : Updated Event × s.Db)
      → s.update db id ch ≡ w
      → ((r : OutboxRecord Event) → s.record_of db id ≡ some r → Moves most r (apply ch r))
      → Kept db w.1
  update_Kept db id ch (fails code, db') e h = fails_Kept db id ch code db' e
  update_Kept db id ch (updated r', db') e h = record {
    turns = λ j r at.
        let (old, there, same) = laws.update_done db id ch r' db' e in
        let found = laws.update_found db id ch r' db' j e in
        elim (Bool-cases (id == j)) [
          | inr other ↦ (r, found ∙ rw other at, Moves-refl most r)
          | inl here ↦ (
            r',
            found ∙ rw here refl,
            let at' : s.record_of db id ≡ some r =
                  ap (λ x. s.record_of db x) (eq_of_== _ _ here) ∙ at in
                let q : some old ≡ some r = sym there ∙ at' in
                let q' : old ≡ r = cc in
                subst (λ x. Moves most r x) (sym (same ∙ ap (λ x. apply ch x) q')) (h r at'),
          )
        ];
    keyed = keys_kept db id ch _ e;
  }

  -- The record that a claim has left.
  pub record Held (db : s.Db) (id : String) (attempt : ℕ) : Type 0 where
    pub held : OutboxRecord Event
    pub there : s.record_of db id ≡ some held
    pub in_hand : held.status ≡ publishing
    pub counted : held.attempt_count ≡ attempt

  module _ (policy : RetryPolicy) (enough : policy.max_attempts ≡ most) (now : ℕ)
      (publish : OutboxRecord Event → Option String) where
    marked_Kept :
        {db : s.Db} {id : String} {attempt : ℕ} (h : Held db id attempt) (ch : Change)
        → HasAttempts most (apply ch h.held)
        → Kept db (s.update db id ch).1
    marked_Kept {db} {id} h ch left = update_Kept db id ch _ refl (λ r at.
        let q : some h.held ≡ some r = sym h.there ∙ at in
        let q' : h.held ≡ r = cc in
        subst (λ x. Moves most x (apply ch x)) q' (marked_Moves most h.held ch h.in_hand left))

    settle_mark_same : (w : Updated Event × s.Db) → (settle_mark s policy now publish w).1 ≡ w.1
    unfolding settle_mark
    settle_mark_same (updated r, db) = refl
    settle_mark_same (fails c, db) = refl

    pub failed-Kept :
        {db : s.Db} {id : String} {attempt : ℕ} (code : String)
        → Held db id attempt
        → Kept db (failed s policy now publish db id attempt code).1
    unfolding failed apply
    failed-Kept {db} {id} {attempt} code h = elim (Bool-cases (leb policy.max_attempts attempt)) [
      | inl last ↦ rw last (
          subst (λ x. Kept db x) (sym (settle_mark_same _))
            (marked_Kept h (marks_dead_letter code) (λ w. absurd (ground arith))))
      | inr more ↦ rw more (
          subst (λ x. Kept db x) (sym (settle_mark_same _))
            (marked_Kept h (marks_retry (now + delay_after policy attempt) code)
              (λ w. left h.held.attempt_count h.counted more)))
    ]
      where
        left : (n : ℕ) → n ≡ attempt → leb policy.max_attempts attempt ≡ false → n < most
        left n e m = ground arith

    pub settle_published-Kept :
        {db : s.Db} {id : String} {attempt : ℕ}
        → Held db id attempt
        → (w : Updated Event × s.Db) → s.update db id (marks_published now) ≡ w
        → Kept db (settle_published s policy now publish id attempt w).1
    unfolding settle_published apply
    settle_published-Kept {db} h (updated r, db') e =
        subst (λ x. Kept db x) (ap (λ x. x.1) e)
          (marked_Kept h (marks_published now) (λ w. absurd (ground arith)))
    settle_published-Kept {db} {id} h (fails code, db') e =
        let same = λ (j : String). laws.update_fails db id (marks_published now) code db' j e in
        Kept-trans (fails_Kept db id (marks_published now) code db' e) (
          failed-Kept code (record {
            held = h.held;
            there = same id ∙ h.there;
            in_hand = h.in_hand;
            counted = h.counted;
          }))
