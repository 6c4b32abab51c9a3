-- ===== src/Fulfilment/Requested.antt =====
-- What a request of baobab/fulfilment/fulfilment-port.ts that is answered has passed, and whose
-- fulfilment it is given by baobab/fulfilment/record-adapter.ts.
use baobab_trade.Prelude.{
  ◌≡◌, ◌⊎◌, ◌∙◌, sym, refl, ap, String, Bool, true, false, not, ◌==◌, Option, none, some, inl, inr,
  arith, eq_of_==, ==_refl,
}
use baobab_trade.Prelude.Number.{is_positive, is_integer}
use baobab_trade.Fulfilment.Adapter.{
  StoredFulfilment, Bridge, Write, wrote, violation, failure, snapshot, adapter, find_fulfilment,
  create, answer_create, settle_creation, raced_with,
}
use baobab_trade.Fulfilment.Port.{
  cross_border, RequestFulfilmentCommand, FulfilmentSnapshot, Refusal, Result, ok, throws, throw_if,
  has_value, xor, is_incomplete, validate_mode, validate_shipment, digital_estate_of,
  answer_request, validated, request, ShipmentMetadata,
}

pub throw_if-ok {ℓ} :
    {A : Type ℓ} (c : Bool) (e : Refusal) (k : Result A) {a : A}
    → throw_if c e k ≡ ok a
    → (c ≡ false) × (k ≡ ok a)
unfolding throw_if
throw_if-ok true e k h = absurd (ground arith)
throw_if-ok false e k h = (refl, h)

-- One party, positive measures, and across a border the two countries and the export's papers.
pub record IsShippable (c : RequestFulfilmentCommand) : Type 0 where
  pub one_party : ¬ (has_value c.organisation_id ≡ has_value c.customer_reference)
  pub weight : is_positive c.shipment.gross_weight_kg ≡ true
  pub whole : is_integer c.shipment.package_count ≡ true
  pub packages : is_positive c.shipment.package_count ≡ true
  pub countries :
      c.mode ≡ cross_border → ¬ (c.shipment.origin_country ≡ c.shipment.destination_country)
  pub papers : c.mode ≡ cross_border → is_incomplete c.shipment ≡ false

validate_mode-ok :
    (s : ShipmentMetadata)
    → validate_mode cross_border s ≡ ok tt
    → ((s.origin_country == s.destination_country) ≡ false) × (is_incomplete s ≡ false)
unfolding validate_mode
validate_mode-ok s h =
    let (a, k) = throw_if-ok _ _ _ h in let (b, k2) = throw_if-ok _ _ _ k in (a, b)

differ : (a b : String) → (a == b) ≡ false → ¬ (a ≡ b)
differ a b h e = clash (rw e (==_refl b)) h
  where
    clash : {t : Bool} → t ≡ true → t ≡ false → ⊥
    clash p q = ground arith

not_both : (a b : Bool) → not (xor a b) ≡ false → ¬ (a ≡ b)
not_both true b h e = ground arith
not_both false b h e = ground arith

validate_shipment-IsShippable :
    (c : RequestFulfilmentCommand) → validate_shipment c ≡ ok tt → IsShippable c
unfolding validate_shipment
validate_shipment-IsShippable c h =
    let (a, k) = throw_if-ok _ _ _ h in
    let (b, k2) = throw_if-ok _ _ _ k in
    record {
      one_party = not_both _ _ a;
      weight = ground arith;
      whole = ground arith;
      packages = ground arith;
      countries = λ e. differ _ _ ((validate_mode-ok c.shipment (rw e at k2)).0);
      papers = λ e. (validate_mode-ok c.shipment (rw e at k2)).1;
    }

module _ (b : Bridge) (others : b.Db → b.Db) where
  -- The creation of the fulfilment broke a unique constraint, and the fulfilment is there then.
  abbrev pub Clashed : b.Db → RequestFulfilmentCommand → FulfilmentSnapshot → Type 0
  Clashed db c a =
      (db2 : b.Db) × (b.create_fulfilment db c (digital_estate_of c) ≡ (violation, db2))
      × (find_fulfilment b db2 c.idempotency_key ≡ some a)

  -- The key was free at the lookup, and the fulfilment was there when the creation looked again, or the
  -- creation itself clashed with it.
  abbrev pub Raced : b.Db → RequestFulfilmentCommand → FulfilmentSnapshot → Type 0
  Raced db c a =
      (find_fulfilment b db c.idempotency_key ≡ none)
      × ((find_fulfilment b (others db) c.idempotency_key ≡ some a) ⊎ Clashed (others db) c a)

  raced_found :
      (db : b.Db) (key : String) (o : Option FulfilmentSnapshot) {a : FulfilmentSnapshot}
      {db' : b.Db}
      → find_fulfilment b db key ≡ o
      → raced_with b db o ≡ (ok a, db')
      → find_fulfilment b db key ≡ some a
  unfolding raced_with
  raced_found db key none e h = absurd (let k : throws _ ≡ ok _ = ap (λ x. x.0) h in ground arith)
  raced_found db key (some s) {a} {db'} e h =
      let k : ok s ≡ ok a = ap (λ x. x.0) h in let same : s ≡ a = cc in e ∙ ap some same

  settled_owner :
      ((db : b.Db) (c : RequestFulfilmentCommand) (estate : String) (p : StoredFulfilment)
          (db' : b.Db)
        → b.create_fulfilment db c estate ≡ (wrote p, db')
        → p.digital_estate ≡ estate)
      → (db : b.Db) (c : RequestFulfilmentCommand) (r : Write StoredFulfilment × b.Db)
        {a : FulfilmentSnapshot} {db' : b.Db}
      → b.create_fulfilment db c (digital_estate_of c) ≡ r
      → settle_creation b c r ≡ (ok a, db')
      → (a.digital_estate ≡ digital_estate_of c) ⊎ Clashed db c a
  unfolding settle_creation snapshot
  settled_owner owned db c (wrote p, db2) {a} e h =
      let k : ok (snapshot p) ≡ ok a = ap (λ x. x.0) h in
      let same : snapshot p ≡ a = cc in
      inl (ap (λ s. s.digital_estate) (sym same) ∙ owned db c (digital_estate_of c) p db2 e)
  settled_owner owned db c (failure, db2) e h =
      absurd (let k : throws _ ≡ ok _ = ap (λ x. x.0) h in ground arith)
  settled_owner owned db c (violation, db2) {a} {db'} e h =
      inr (db2, e, raced_found db2 c.idempotency_key _ refl h)

  created_owner :
      ((db : b.Db) (c : RequestFulfilmentCommand) (estate : String) (p : StoredFulfilment)
          (db' : b.Db)
        → b.create_fulfilment db c estate ≡ (wrote p, db')
        → p.digital_estate ≡ estate)
      → (db : b.Db) (c : RequestFulfilmentCommand) (o : Option FulfilmentSnapshot)
        {a : FulfilmentSnapshot} {db' : b.Db}
      → find_fulfilment b db c.idempotency_key ≡ o
      → answer_create b db c (digital_estate_of c) o ≡ (ok a, db')
      → (a.digital_estate ≡ digital_estate_of c)
        ⊎ ((find_fulfilment b db c.idempotency_key ≡ some a) ⊎ Clashed db c a)
  unfolding answer_create
  created_owner owned db c none e h = elim (settled_owner owned db c _ refl h) [
    | inl same ↦ inl same
    | inr raced ↦ inr (inr raced)
  ]
  created_owner owned db c (some s) {a} e h =
      let k : ok s ≡ ok a = ap (λ x. x.0) h in let same : s ≡ a = cc in inr (inl (e ∙ ap some same))

  answered_owner :
      ((db : b.Db) (c : RequestFulfilmentCommand) (estate : String) (p : StoredFulfilment)
          (db' : b.Db)
        → b.create_fulfilment db c estate ≡ (wrote p, db')
        → p.digital_estate ≡ estate)
      → (db : b.Db) (c : RequestFulfilmentCommand) (o : Option FulfilmentSnapshot)
        {a : FulfilmentSnapshot} {db' : b.Db}
      → find_fulfilment b db c.idempotency_key ≡ o
      → answer_request (adapter b) others db c (digital_estate_of c) o ≡ (ok a, db')
      → (a.digital_estate ≡ digital_estate_of c) ⊎ Raced db c a
  unfolding answer_request create
  answered_owner owned db c (some s) {a} e h =
      let (differs, k) = throw_if-ok _ _ _ (ap (λ x. x.0) h) in
      let same : s ≡ a = cc in
      inl (ap (λ s. s.digital_estate) (sym same) ∙ eq_of_== _ _ (ground arith))
  answered_owner owned db c none e h = elim (created_owner owned (others db) c _ refl h) [
    | inl same ↦ inl same
    | inr raced ↦ inr (e, raced)
  ]

  pub requested_ok :
      (db : b.Db) (c : RequestFulfilmentCommand) (v : Result (Unit {0})) {a : FulfilmentSnapshot}
      {db' : b.Db}
      → validated (adapter b) others db c v ≡ (ok a, db')
      → (v ≡ ok tt)
        × (answer_request
              (adapter b)
              others
              db
              c
              (digital_estate_of c)
              (find_fulfilment b db c.idempotency_key)
            ≡ (ok a, db'))
  unfolding validated
  requested_ok db c (ok tt) h = (refl, h)
  requested_ok db c (throws e) h =
      absurd (let k : throws _ ≡ ok _ = ap (λ x. x.0) h in ground arith)

  -- A request that is answered is of a shippable shipment; and the fulfilment it is given belongs to
  -- the digital estate of the command, where the bridge stores the estate it is told, unless the key
  -- was free at the lookup and the fulfilment was there before the command's own creation, or clashed
  -- with it.
  pub request-IsOwned :
      ((db : b.Db) (c : RequestFulfilmentCommand) (estate : String) (p : StoredFulfilment)
          (db' : b.Db)
        → b.create_fulfilment db c estate ≡ (wrote p, db')
        → p.digital_estate ≡ estate)
      → (db : b.Db) (c : RequestFulfilmentCommand) {a : FulfilmentSnapshot} {db' : b.Db}
      → request (adapter b) others db c ≡ (ok a, db')
      → IsShippable c × ((a.digital_estate ≡ digital_estate_of c) ⊎ Raced db c a)
  unfolding request
  request-IsOwned owned db c h =
      let (valid, k) = requested_ok db c (validate_shipment c) h in
      (validate_shipment-IsShippable c valid, answered_owner owned db c _ refl k)
