-- ===== src/Events/Dispatched.antt =====
-- What any run of `dispatchDue` of baobab/events/outbox.ts keeps: settled records, events, and attempts
-- within the policy; and what stops a run.
use baobab_trade.Prelude.{
  ℕ, ◌+◌, ◌≡◌, refl, sym, ap, ◌∙◌, String, true, Option, none, some, List, [], ◌∷◌, ℤ, inl, inr,
  Bool-cases, ==_refl, subst,
}
use baobab_trade.Events.Outbox.{
  OutboxRecord, RetryPolicy, Store, Updated, updated, fails, claims, clamp_limit, list_due, claim,
  claim_current, settle_claim, is_due, apply,
}
use baobab_trade.Events.Dispatch.{
  Handled, skipped, pushed, throws, attempted, handle, dispatch_one, after, dispatch_each,
  dispatch_due,
}
use baobab_trade.Events.Kept.{
  IsStore, Moves, Kept, Kept-refl, Kept-trans, fails_Kept, update_Kept, Held, failed-Kept,
  settle_published-Kept, claimed_Moves,
}

module _ {Event : Type 0} (s : Store Event) (laws : IsStore s) (policy : RetryPolicy) where
  abbrev Keeps : s.Db → s.Db → Type 0
  Keeps = Kept s laws policy.max_attempts

  Held-after :
      (db : s.Db) (id : String) (attempt lease : ℕ) (r : OutboxRecord Event) (db' : s.Db)
      → s.update db id (claims attempt lease) ≡ (updated r, db')
      → Held s laws policy.max_attempts db' r.id attempt
  unfolding apply
  Held-after db id attempt lease r db' e =
      let (old, there, same) = laws.update_done db id (claims attempt lease) r db' e in
      let found = laws.update_found db id (claims attempt lease) r db' id e in
      let there' : s.record_of db' id ≡ some r = found ∙ rw (==_refl id) refl in
      record {
        held = r;
        there = ap (λ x. s.record_of db' x) (laws.record_id db' id r there') ∙ there';
        in_hand = ap (λ x. x.status) same;
        counted = ap (λ x. x.attempt_count) same;
      }

  module _ (now : ℕ) (publish : OutboxRecord Event → Option String) where
    attempted_Kept :
        {db : s.Db} {id : String} {attempt : ℕ} (o : Option String)
        → Held s laws policy.max_attempts db id attempt
        → Keeps db (attempted s policy now publish db id attempt o).1
    unfolding attempted
    attempted_Kept none h = settle_published-Kept s laws _ policy refl now publish h _ refl
    attempted_Kept (some code) h = failed-Kept s laws _ policy refl now publish code h

    claimed_Kept :
        (db : s.Db) (id : String) (attempt lease : ℕ) (current : OutboxRecord Event)
        → s.record_of db id ≡ some current
        → is_due current now ≡ true
        → (w : Updated Event × s.Db) → s.update db id (claims attempt lease) ≡ w
        → Keeps db (handle s policy now publish attempt (settle_claim s w)).1
    unfolding handle settle_claim
    claimed_Kept db id attempt lease current at due (fails code, db') e =
        fails_Kept s laws _ db id (claims attempt lease) code db' e
    claimed_Kept db id attempt lease current at due (updated r, db') e =
        Kept-trans s laws _ (subst (λ x. Keeps db x) (ap (λ x. x.1) e) claiming)
          (attempted_Kept (publish r) (Held-after db id attempt lease r db' e))
      where
        claiming : Keeps db (s.update db id (claims attempt lease)).1
        claiming = update_Kept s laws _ db id (claims attempt lease) _ refl (λ r at'.
            let q : some current ≡ some r = sym at ∙ at' in
            let q' : current ≡ r = cc in
            subst (λ x. Moves policy.max_attempts x (apply (claims attempt lease) x)) q'
              (claimed_Moves _ current now attempt lease due))

    dispatch_one_Kept :
        (db : s.Db) (c : OutboxRecord Event) (o : Option (OutboxRecord Event))
        → s.record_of db c.id ≡ o
        → Keeps db
            (handle s policy now publish (c.attempt_count + 1) (
              claim_current s db c.id now
                (c.attempt_count + 1)
                (now + policy.lease_duration_ms)
                o)).1
    unfolding claim_current handle
    dispatch_one_Kept db c none at = Kept-refl s laws _ db
    dispatch_one_Kept db c (some current) at = elim (Bool-cases (is_due current now)) [
      | inr later ↦ rw later (Kept-refl s laws _ db)
      | inl due ↦ rw due (claimed_Kept db c.id _ _ current at due _ refl)
    ]

    with_record_Kept :
        {db : s.Db} (r : OutboxRecord Event) (w : Option (List (OutboxRecord Event)) × s.Db)
        → Keeps db w.1
        → Keeps db (after s policy now publish (λ d. w) (pushed r, db)).1
    unfolding after
    with_record_Kept r (none, db') h = h
    with_record_Kept r (some rs, db') h = h

    after_Kept :
        {db : s.Db} (rest : s.Db → Option (List (OutboxRecord Event)) × s.Db)
        → ((d : s.Db) → Keeps d (rest d).1)
        → (h : Handled Event × s.Db) → Keeps db h.1
        → Keeps db (after s policy now publish rest h).1
    unfolding after
    after_Kept rest keeps (skipped, db') k = Kept-trans s laws _ k (keeps db')
    after_Kept rest keeps (throws, db') k = k
    after_Kept rest keeps (pushed r, db') k =
        Kept-trans s laws _ k (with_record_Kept r (rest db') (keeps db'))

    each_Kept :
        (cs : List (OutboxRecord Event)) (db : s.Db)
        → Keeps db (dispatch_each s policy now publish cs db).1
    unfolding dispatch_each dispatch_one claim
    each_Kept [] db = Kept-refl s laws _ db
    each_Kept (c ∷ cs) db =
        after_Kept (dispatch_each s policy now publish cs) (each_Kept cs) _
          (dispatch_one_Kept db c _ refl)

    -- Over any run of the dispatcher, whatever is published and whichever updates fail, every record
    -- keeps its event, a published or dead record stays as it is, and a record that waits keeps to
    -- fewer attempts than the policy's most.
    pub dispatch_due-Kept :
        (db : s.Db) (limit : ℤ) → Keeps db (dispatch_due s policy now publish db limit).1
    unfolding dispatch_due
    dispatch_due-Kept db limit = each_Kept (list_due s db now (clamp_limit limit)) db
