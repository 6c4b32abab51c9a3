-- ===== src/Fulfilment/Delivered.antt =====
-- baobab/fulfilment/fulfilment-port.ts: the histories of a fulfilment.
use baobab_trade.Prelude.{
  ◌≡◌, refl, Bool, true, false, not, ◌&&◌, ◌||◌, List, [], ◌∷◌, inl, inr, Bool-cases, arith, any,
}
use baobab_trade.Fulfilment.Port.{
  FulfilmentStatus, requested, accepted, allocated, dispatched, delivered, cancelled, exception,
  reconciliation_required, FulfilmentEvidence, ok, has_value, has_date, transitions, is_dispatched,
  is_delivered, check_transition,
}
use baobab_trade.Fulfilment.Requested.{throw_if-ok}

-- One requested change with its evidence.
pub record Change : Type 0 where
  pub to : FulfilmentStatus
  pub evidence : FulfilmentEvidence

-- The states that a history of accepted changes leads to.
pub data Reaches : FulfilmentStatus → List Change → FulfilmentStatus → Type 0 where
  start : {s : FulfilmentStatus} → Reaches s [] s
  next :
      {s b z : FulfilmentStatus} {hs : List Change} (c : Change)
      → check_transition s c.to c.evidence ≡ ok b
      → Reaches b hs z
      → Reaches s (c ∷ hs) z

abbrev pub is_reconciled : FulfilmentStatus → Bool
is_reconciled reconciliation_required = true
is_reconciled _ = false

-- A delivery with its date; a dispatch with its shipment and date, or a reconciliation.
abbrev pub delivers : Change → Bool
delivers c = is_delivered c.to && has_date c.evidence.delivery_date

abbrev pub ships : Change → Bool
ships c =
    is_dispatched c.to
      && (has_value c.evidence.shipment_reference && has_date c.evidence.dispatch_date)
    || is_reconciled c.to

pub check_transition-ok :
    (from to : FulfilmentStatus) (e : FulfilmentEvidence) {b : FulfilmentStatus}
    → check_transition from to e ≡ ok b
    → (transitions from to ≡ true)
      × (b ≡ to)
      × (is_dispatched to
            && (not (has_value e.shipment_reference) || not (has_date e.dispatch_date))
          ≡ false)
      × (is_delivered to && not (has_date e.delivery_date) ≡ false)
unfolding check_transition
check_transition-ok from to e h =
    let (allowed, k) = throw_if-ok _ _ _ h in
    let (shipped, k2) = throw_if-ok _ _ _ k in
    let (given, k3) = throw_if-ok _ _ _ k2 in (ground arith, ground arith, shipped, given)

or_left : (a b : Bool) → a ≡ true → (a || b) ≡ true
or_left a b h = ground arith

or_right : (a b : Bool) → b ≡ true → (a || b) ≡ true
or_right a b h = ground arith

both : (a b : Bool) → a ≡ true → (a && not b) ≡ false → (a && b) ≡ true
both a b h k = ground arith

delivered-HasDate :
    {s z : FulfilmentStatus} {hs : List Change}
    → Reaches s hs z
    → is_delivered s ≡ false
    → is_delivered z ≡ true
    → any delivers hs ≡ true
delivered-HasDate start n d = absurd (clash d n)
  where
    clash : {t : Bool} → t ≡ true → t ≡ false → ⊥
    clash p q = ground arith
delivered-HasDate (next {s} {b} {z} {hs} c step rest) n d =
    let (allowed, same, shipped, given) = check_transition-ok s c.to c.evidence step in
    elim (Bool-cases (is_delivered b)) [
      | inl t ↦ let to : is_delivered c.to ≡ true = rw same at t in or_left _ _ (both _ _ to given)
      | inr m ↦ or_right _ _ (delivered-HasDate rest m d)
    ]

-- The states from which a delivery needs no new dispatch.
abbrev is_near : FulfilmentStatus → Bool
is_near s = is_delivered s || is_dispatched s || is_reconciled s

far_step :
    (s t : FulfilmentStatus) → transitions s t ≡ true → is_near s ≡ false → is_delivered t ≡ false
unfolding transitions
far_step requested delivered h n = absurd (ground arith)
far_step accepted delivered h n = absurd (ground arith)
far_step allocated delivered h n = absurd (ground arith)
far_step dispatched delivered h n = absurd (ground arith)
far_step delivered delivered h n = absurd (ground arith)
far_step cancelled delivered h n = absurd (ground arith)
far_step exception delivered h n = absurd (ground arith)
far_step reconciliation_required delivered h n = absurd (ground arith)
far_step s requested h n = refl
far_step s accepted h n = refl
far_step s allocated h n = refl
far_step s dispatched h n = refl
far_step s cancelled h n = refl
far_step s exception h n = refl
far_step s reconciliation_required h n = refl

delivered-WasShipped :
    {s z : FulfilmentStatus} {hs : List Change}
    → Reaches s hs z
    → is_near s ≡ false
    → is_delivered z ≡ true
    → any ships hs ≡ true
delivered-WasShipped start n d = absurd (ground arith)
delivered-WasShipped (next {s} {b} {z} {hs} c step rest) n d =
    let (allowed, same, shipped, given) = check_transition-ok s c.to c.evidence step in
    elim (Bool-cases (ships c)) [
      | inl t ↦ or_left _ _ t
      | inr m ↦ or_right _ _ (
          delivered-WasShipped rest (rw same (still_far c (far_step s c.to allowed n) shipped m)) d)
    ]
  where
    still_far :
        (c : Change)
        → is_delivered c.to ≡ false
        → is_dispatched c.to
            && (not (has_value c.evidence.shipment_reference)
                || not (has_date c.evidence.dispatch_date))
          ≡ false
        → ships c ≡ false
        → is_near c.to ≡ false
    still_far c a b m = ground arith

-- A fulfilment that a history of accepted changes brings from REQUESTED to DELIVERED was delivered
-- with a delivery date, and either dispatched with a shipment reference and a date or reconciled.
pub delivered-HasEvidence :
    (hs : List Change)
    → Reaches requested hs delivered
    → (any delivers hs ≡ true) × (any ships hs ≡ true)
delivered-HasEvidence hs h = (delivered-HasDate h refl refl, delivered-WasShipped h refl refl)
