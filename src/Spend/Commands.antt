-- ===== src/Spend/Commands.antt =====
-- baobab/b2b/spend-reservation-commands.ts: what each command does inside its transaction. A
-- `bigint` amount is a number: a negative one is refused before it gets here, as 0 is.
use baobab_trade.Prelude.{
  ℕ, ◌+◌, ◌-◌, leb, ltb, eqb, String, Bool, true, false, not, ◌&&◌, ◌||◌, ◌==◌, opt_eq, Option,
  none, some, List, [], ◌∷◌, any, find, map, if◌then◌else◌,
}
use baobab_trade.Spend.State.{
  Reservation, ReservationStatus, Hold, commit, ReleaseReason, CommandResult, refused, is_active,
  buyer_not_authorised, context_not_usable, transaction_changed,
}
use baobab_trade.Spend.Tx.{
  Tx, ◌>>=◌, ◌>>◌, return, throw_if, Env, PolicyRow, write_entry, lock_reservation, is_expired,
  applicable_policies, holds, current_hold, is_current, set_status, advance_hold_revision,
}
use baobab_trade.Spend.Steps.{
  CommitCommand, ReleaseStep, ReservationCommand, ReserveStep, SubmitCommand, caller, each,
  in_policy_order, insert_reservation, submit_caller,
}

module _ (env : Env) where
  abbrev pub reserve_all : String → ℕ → List PolicyRow → List ReserveStep
  reserve_all id amount = map (λ p. record { reservation_id = id; policy = p; amount = amount })

  abbrev pub release_all : String → ReleaseReason → List Hold → List ReleaseStep
  release_all id reason = map (λ h. record { reservation_id = id; hold = h; reason = reason })

  abbrev pub result : String → ReservationStatus → ℕ → CommandResult
  result id s revision = record {
    reservation_id = id;
    status = s;
    hold_revision = revision;
    approval_revalidation_required = none;
  }

  -- reserveNew, the body of `submit`.
  unfoldable pub submit_body : SubmitCommand → Tx CommandResult
  submit_body c = do
    r ← insert_reservation env c none
    policies ← applicable_policies env r
    in_policy_order env (submit_caller c) "submit" [] (reserve_all r.id c.amount_minor policies)
    return (result r.id ReservationStatus.active 1)

  abbrev pub is_other_purchase : SubmitCommand → Reservation → Bool
  is_other_purchase c old =
      not (old.purchase_reference == c.purchase_reference)
      || not (old.tenant_id == c.tenant_id)
      || not (old.membership_id == c.membership_id)
      || not (old.market_key == c.market_key)
      || not (old.currency_code == c.currency_code)
      || not (opt_eq old.agreement_reference c.agreement_reference)
      || leb c.resource_version old.resource_version

  unfoldable pub resubmit_body : SubmitCommand → String → Tx CommandResult
  resubmit_body c supersedes = do
    old ← lock_reservation env c.organisation_id supersedes
    throw_if (not (is_active old.status)) (refused context_not_usable false)
    throw_if (not (old.submitted_by_principal_id == c.actor_principal_id))
        (refused buyer_not_authorised false)
    throw_if (is_other_purchase c old) (refused transaction_changed false)
    let reason =
        if ltb c.amount_minor old.amount_minor
        then ReleaseReason.amount_reduced
        else ReleaseReason.cancelled
    old_holds ← holds env old.id
    set_status env old.id ReservationStatus.released
    r ← insert_reservation env c (some old.id)
    policies ← applicable_policies env r
    in_policy_order env (submit_caller c) "resubmit" (release_all old.id reason old_holds)
        (reserve_all r.id c.amount_minor policies)
    return (result r.id ReservationStatus.active 1)

  -- Every budget that applies holds the full amount now.
  unfoldable pub is_fully_held : Reservation → List Hold → PolicyRow → Bool
  is_fully_held r hs p = elim (current_hold env hs p) [
    | none ↦ false
    | some h ↦ eqb h.reserved_minor r.amount_minor
  ]

  -- The hold reserves something and is current for no budget that applies.
  unfoldable pub is_stale : List PolicyRow → Hold → Bool
  is_stale policies h = ltb 0 h.reserved_minor && not (any (λ p. is_current env p h) policies)

  unfoldable pub commit_entry : CommitCommand → Reservation → PolicyRow → Tx (Unit {0})
  commit_entry c r p = write_entry env (record {
    kind = commit c.commitment_reference;
    reservation_id = r.id;
    budget_policy_id = p.id;
    policy_revision = p.revision;
    amount_minor = r.amount_minor;
    idempotency_key = env.entry_key "COMMIT" c.base.idempotency_key p.id "commit";
    actor_principal_id = c.base.actor_principal_id;
  })

  abbrev pub is_changed : CommitCommand → Reservation → Bool
  is_changed c r =
      not (r.transaction_digest == c.transaction_digest)
      || not (eqb r.resource_version c.resource_version)
      || not (eqb r.amount_minor c.amount_minor)
      || not (eqb r.hold_revision c.hold_revision)

  -- commitCapacity, with the native mutation that `commitWithMutation` composes; the mutation
  -- writes to tables that are not those of the ledger, or fails.
  unfoldable pub commit_body : CommitCommand → Tx (Unit {0}) → Tx CommandResult
  commit_body c mutation = do
    r ← lock_reservation env c.base.organisation_id c.base.reservation_id
    throw_if (not (is_active r.status) || is_expired env r) (refused context_not_usable false)
    throw_if (is_changed c r) (refused transaction_changed false)
    policies ← applicable_policies env r
    hs ← holds env r.id
    throw_if (any (λ p. not (is_fully_held r hs p)) policies) (refused context_not_usable true)
    throw_if (any (is_stale policies) hs) (refused context_not_usable true)
    each (commit_entry c r) policies
    set_status env r.id ReservationStatus.committed
    mutation
    return (result r.id ReservationStatus.committed r.hold_revision)

  -- `close`, the body of `release` and `expire`.
  unfoldable pub close_body :
      ReservationCommand → ReleaseReason → ReservationStatus → Bool → Tx CommandResult
  close_body c reason status must_be_expired = do
    r ← lock_reservation env c.organisation_id c.reservation_id
    throw_if (not (is_active r.status)) (refused context_not_usable false)
    throw_if (must_be_expired && not (is_expired env r)) (refused context_not_usable false)
    hs ← holds env r.id
    in_policy_order env (caller c) "release" (release_all r.id reason hs) []
    set_status env r.id status
    return (result r.id status r.hold_revision)

  abbrev find_row : List PolicyRow → Hold → Option PolicyRow
  find_row policies h = find (λ p. p.id == h.budget_policy_id) policies

  abbrev moved_reason : Option PolicyRow → Hold → ReleaseReason
  moved_reason none h = ReleaseReason.policy_revised
  moved_reason (some p) h =
      if eqb h.policy_revision p.revision
      then ReleaseReason.period_rollover
      else ReleaseReason.policy_revised

  abbrev stays : Option PolicyRow → Hold → Bool
  stays none h = false
  stays (some p) h = is_current env p h

  -- The holds that a rollover gives back.
  unfoldable pub rollover_releases : Reservation → List PolicyRow → List Hold → List ReleaseStep
  rollover_releases r policies [] = []
  rollover_releases r policies (h ∷ hs) =
      let rest = rollover_releases r policies hs in
      let p = find_row policies h in
      if eqb h.reserved_minor 0 || stays p h
      then rest
      else record { reservation_id = r.id; hold = h; reason = moved_reason p h } ∷ rest

  abbrev pub held : Option Hold → ℕ
  held none = 0
  held (some h) = h.reserved_minor

  -- What a rollover still has to take: nothing where the current hold is the full amount.
  unfoldable pub rollover_reserves : Reservation → List Hold → List PolicyRow → List ReserveStep
  rollover_reserves r hs [] = []
  rollover_reserves r hs (p ∷ ps) =
      let rest = rollover_reserves r hs ps in
      let amount = r.amount_minor - held (current_hold env hs p) in
      if ltb 0 amount
      then record { reservation_id = r.id; policy = p; amount = amount } ∷ rest
      else rest

  abbrev pub not_empty {ℓ} : {A : Type ℓ} → List A → Bool
  not_empty [] = false
  not_empty (x ∷ xs) = true

  abbrev pub advance_if : Bool → String → Tx (Unit {0})
  advance_if true id = advance_hold_revision env id
  advance_if false id = return tt

  unfoldable pub rollover_body : ReservationCommand → Tx CommandResult
  rollover_body c = do
    r ← lock_reservation env c.organisation_id c.reservation_id
    throw_if (not (is_active r.status) || is_expired env r) (refused context_not_usable false)
    policies ← applicable_policies env r
    hs ← holds env r.id
    let releases = rollover_releases r policies hs
    let reserves = rollover_reserves r hs policies
    let moved = not_empty releases || not_empty reserves
    in_policy_order env (caller c) "rollover" releases reserves
    advance_if moved r.id
    return (record {
      reservation_id = r.id;
      status = ReservationStatus.active;
      hold_revision = r.hold_revision + (if moved then 1 else 0);
      approval_revalidation_required = some moved;
    })
