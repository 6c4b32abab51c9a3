-- ===== src/Fulfilment/Leaks.antt =====
-- baobab/fulfilment: two requests for a fulfilment under one key, the second between the first one's lookup
-- and its creation.
use baobab_trade.Prelude.{◌≡◌, refl, sym, ap, ◌∙◌, String, Option, none, some, arith}
use baobab_trade.Fulfilment.Port.{
  FulfilmentSnapshot, ok, throws, RequestFulfilmentCommand, validate_shipment, digital_estate_of,
  answer_request, validated, request,
}
use baobab_trade.Fulfilment.Adapter.{
  StoredFulfilment, Bridge, Write, wrote, violation, failure, snapshot, adapter, found,
  find_fulfilment, create, answer_create, settle_creation, raced_with,
}
use baobab_trade.Fulfilment.Requested.{requested_ok}

-- What the service documents of a creation: its row is found under the key, with the estate that it
-- was told; and a violation of a unique constraint leaves the rows.
pub record Creates (b : Bridge) : Type 0 where
  pub stores :
      (db : b.Db) (c : RequestFulfilmentCommand) (estate : String) (p : StoredFulfilment)
      (db' : b.Db)
      → b.create_fulfilment db c estate ≡ (wrote p, db')
      → (p.digital_estate ≡ estate) × (b.fulfilment_by_key db' c.idempotency_key ≡ some p)
  pub violates :
      (db : b.Db) (c : RequestFulfilmentCommand) (estate : String) (db' : b.Db) (key : String)
      → b.create_fulfilment db c estate ≡ (violation, db')
      → b.fulfilment_by_key db' key ≡ b.fulfilment_by_key db key

module _ (b : Bridge) (laws : Creates b) where
  -- The fulfilment is found under the key, and has the estate of the command.
  abbrev Made : RequestFulfilmentCommand → FulfilmentSnapshot → b.Db → Type 0
  Made c a db' =
      (find_fulfilment b db' c.idempotency_key ≡ some a) × (a.digital_estate ≡ digital_estate_of c)

  raced_none :
      (db : b.Db) (o : Option FulfilmentSnapshot) {a : FulfilmentSnapshot} {db' : b.Db}
      → o ≡ none
      → ¬ (raced_with b db o ≡ (ok a, db'))
  unfolding raced_with
  raced_none db none {a} e h = let k : throws _ ≡ ok a = ap (λ x. x.0) h in ground arith
  raced_none db (some s) e h = ground arith

  settled_Made :
      (db : b.Db) (c : RequestFulfilmentCommand) (r : Write StoredFulfilment × b.Db)
      {a : FulfilmentSnapshot} {db' : b.Db}
      → find_fulfilment b db c.idempotency_key ≡ none
      → b.create_fulfilment db c (digital_estate_of c) ≡ r
      → settle_creation b c r ≡ (ok a, db')
      → Made c a db'
  unfolding settle_creation find_fulfilment snapshot
  settled_Made db c (wrote p, db2) {a} {db'} free e h =
      let k : ok (snapshot p) ≡ ok a = ap (λ x. x.0) h in
      let same : snapshot p ≡ a = cc in
      let (estate, there) = laws.stores db c (digital_estate_of c) p db2 e in
      (
        ap (λ x. found (b.fulfilment_by_key x c.idempotency_key)) (sym (ap (λ x. x.1) h))
            ∙ ap found there
            ∙ ap some same,
        ap (λ s. s.digital_estate) (sym same) ∙ estate,
      )
  settled_Made db c (violation, db2) free e h = absurd (
      raced_none db2 _
        (ap found (laws.violates db c (digital_estate_of c) db2 c.idempotency_key e) ∙ free) h)
  settled_Made db c (failure, db2) {a} free e h =
      absurd (let k : throws _ ≡ ok a = ap (λ x. x.0) h in ground arith)

  -- A request whose key is free and that is answered made its fulfilment.
  alone_Made :
      (db : b.Db) (c : RequestFulfilmentCommand) {a : FulfilmentSnapshot} {db' : b.Db}
      → find_fulfilment b db c.idempotency_key ≡ none
      → request (adapter b) (λ d. d) db c ≡ (ok a, db')
      → Made c a db'
  unfolding request answer_request create answer_create
  alone_Made db c free h =
      let (valid, k) = requested_ok b (λ d. d) db c (validate_shipment c) h in
      settled_Made db c _ free refl (rw (free, free) at k)

  taken_answered :
      (db : b.Db) (others : b.Db → b.Db) (c : RequestFulfilmentCommand) (db' : b.Db)
      {a : FulfilmentSnapshot}
      → validate_shipment c ≡ ok tt
      → find_fulfilment b db c.idempotency_key ≡ none
      → others db ≡ db'
      → find_fulfilment b db' c.idempotency_key ≡ some a
      → request (adapter b) others db c ≡ (ok a, db')
  unfolding request validated answer_request create answer_create
  taken_answered db others c db' valid free after taken = rw (valid, free, after, taken) refl

  -- A valid command whose key is free at the lookup, and a command of another digital estate under the
  -- same key whose request is answered before the first one's creation: the first is answered with
  -- the fulfilment of the other digital estate.
  pub request-Leaks :
      (db : b.Db) (c theirs : RequestFulfilmentCommand) {a : FulfilmentSnapshot} {db' : b.Db}
      → validate_shipment c ≡ ok tt
      → theirs.idempotency_key ≡ c.idempotency_key
      → ¬ (digital_estate_of theirs ≡ digital_estate_of c)
      → find_fulfilment b db c.idempotency_key ≡ none
      → request (adapter b) (λ d. d) db theirs ≡ (ok a, db')
      → (request (adapter b) (λ d. (request (adapter b) (λ e. e) d theirs).1) db c ≡ (ok a, db'))
        × (a.digital_estate ≡ digital_estate_of theirs)
        × (¬ (a.digital_estate ≡ digital_estate_of c))
  request-Leaks db c theirs {a} {db'} valid same_key differ free answered =
      let (there, estate) =
        alone_Made db theirs (ap (find_fulfilment b db) same_key ∙ free) answered in
      let taken : find_fulfilment b db' c.idempotency_key ≡ some a =
        ap (find_fulfilment b db') (sym same_key) ∙ there in
      (
        taken_answered db (λ d. (request (adapter b) (λ e. e) d theirs).1) c db' valid free
            (ap (λ x. x.1) answered) taken,
        estate,
        λ e. differ (sym estate ∙ e),
      )
