-- ===== src/Spend/Room.antt =====
-- The ledger of modules/b2b/migrations/Migration20261022150000.ts: a reservation that fits is taken.
use baobab_trade.Prelude.{
  ℕ, ◌+◌, ◌≤◌, ◌<◌, ◌≡◌, refl, ap, ◌∙◌, String, Bool, true, false, not, ◌||◌, ◌==◌, ==_refl, some,
  ◌∷◌, any, eqb, eqb_refl, ltb, leb, arith,
}
use baobab_trade.Spend.State.{
  Db, Policy, Reservation, Entry, Result, ok, Failure, reserve, fail_if, or_fail, ◌>>=◌, ◌>>◌,
  find_policy, find_reservation, is_active, is_active_policy,
}
use baobab_trade.Spend.Ledger.{
  is_outside, ended, not_in_effect, refresh, period_of, ensure_hold, add_reserved, settle,
  apply_reserve, apply_kind, apply_current, dispatch, insert_entry,
}
use baobab_trade.Spend.Consistent.{balance_at}

-- A RESERVE entry with all it needs: one budget in effect at the entry's revision, in its period from
-- S to E; an ACTIVE reservation inside the budget; a hold at that revision, or none yet; and room.
pub record HasRoom (month : String → ℕ → ℕ × ℕ) (now : ℕ) (db : Db) (e : Entry) (p : Policy)
    (r : Reservation) (S E : ℕ) : Type 0 where
  pub kind : e.kind ≡ reserve
  pub policy : find_policy db e.budget_policy_id ≡ some p
  pub row : find_reservation db e.reservation_id ≡ some r
  pub inside : is_outside p r ≡ false
  pub period : period_of month now p p.period_kind ≡ ok (S, E)
  pub begun : S ≤ now
  pub unended : now < E
  pub active : is_active r.status ≡ true
  pub unexpired : now < r.expires_at
  pub in_force : is_active_policy p.status ≡ true
  pub effective : p.effective_from ≤ now
  pub lasting : ended now p.effective_until ≡ false
  pub revision : e.policy_revision ≡ p.revision
  pub hold :
      (refresh p.revision
        ((ensure_hold db e.reservation_id e.budget_policy_id p.revision S).0)).policy_revision
      ≡ p.revision
  pub positive : 0 < e.amount_minor
  pub room :
      e.amount_minor
        + (balance_at db e.budget_policy_id S).committed_minor
        + (balance_at db e.budget_policy_id S).reserved_minor
      ≤ p.limit_minor
  pub fresh : any (λ x. x.idempotency_key == e.idempotency_key) db.entries ≡ false

-- A guard that does not hold is passed.
guard-passed :
    {B : Type 0} (c : Bool) (f : Failure) (k : Result B) → c ≡ false → (fail_if c f >> k) ≡ k
unfolding fail_if ◌>>◌
guard-passed true f k h = absurd (ground arith)
guard-passed false f k h = refl

module _ (month : String → ℕ → ℕ × ℕ) (now : ℕ) (db : Db) (e : Entry) (p : Policy) (r : Reservation)
    (S E : ℕ) (fits : HasRoom month now db e p r S E) where
  abbrev taken : Db
  taken =
      let held = ensure_hold db e.reservation_id e.budget_policy_id p.revision S in
      let b = balance_at db e.budget_policy_id S in
      settle db held.1 e S (λ x. add_reserved e.amount_minor (refresh p.revision x))
        (record b { reserved_minor = b.reserved_minor + e.amount_minor })

  in_effect_now :
      not_in_effect now p e
        (refresh p.revision ((ensure_hold db e.reservation_id e.budget_policy_id p.revision S).0))
      ≡ false
  unfolding not_in_effect
  in_effect_now =
      let a = fits.in_force in
      let b = fits.effective in
      let c = fits.lasting in let d = fits.revision in let f = fits.hold in ground arith

  apply_reserve-ok :
      let held = ensure_hold db e.reservation_id e.budget_policy_id p.revision S in
      apply_reserve now db e p r S (balance_at db e.budget_policy_id S) held.0 held.1 ≡ ok taken
  unfolding apply_reserve
  apply_reserve-ok =
      let held = ensure_hold db e.reservation_id e.budget_policy_id p.revision S in
      let unexpired = fits.unexpired in
      let active = fits.active in
      let closed : (not (is_active r.status) || leb r.expires_at now) ≡ false = ground arith in
      let room = fits.room in
      let full : ltb p.limit_minor (
            e.amount_minor
            + (balance_at db e.budget_policy_id S).committed_minor
            + (balance_at db e.budget_policy_id S).reserved_minor)
          ≡ false =
        ground arith in
      guard-passed _ _ _ closed ∙ guard-passed _ _ _ in_effect_now ∙ guard-passed _ _ _ full

  apply_current-ok : apply_current month now db e p r ≡ ok taken
  unfolding apply_current ◌>>=◌ apply_kind
  apply_current-ok =
      let begun = fits.begun in
      let unended = fits.unended in
      let outside : (ltb now S || leb E now) ≡ false = ground arith in
      let b = balance_at db e.budget_policy_id S in
      let held = ensure_hold db e.reservation_id e.budget_policy_id p.revision S in
      rw fits.period (
        guard-passed _ _ _ outside
        ∙ ap (λ k. apply_kind month now db e p r S b held k) fits.kind
        ∙ apply_reserve-ok)

  dispatch-ok : dispatch month now db e p r e.kind ≡ ok taken
  unfolding dispatch
  dispatch-ok = ap (λ k. dispatch month now db e p r k) fits.kind ∙ apply_current-ok

  balance-grown :
      balance_at taken e.budget_policy_id S ≡ record (balance_at db e.budget_policy_id S) {
        reserved_minor = (balance_at db e.budget_policy_id S).reserved_minor + e.amount_minor;
      }
  unfolding settle
  balance-grown = rw (==_refl e.budget_policy_id) (rw (eqb_refl S) refl)

  -- A RESERVE entry for which there is room is taken, and the balance of its period grows by exactly
  -- its amount: capacity is refused for no other reason than those that HasRoom names.
  pub insert_entry-Takes :
      (db' : Db) × (insert_entry month now db e ≡ ok db')
      × ((balance_at db' e.budget_policy_id S).reserved_minor
          ≡ (balance_at db e.budget_policy_id S).reserved_minor + e.amount_minor)
      × ((balance_at db' e.budget_policy_id S).committed_minor
          ≡ (balance_at db e.budget_policy_id S).committed_minor)
  unfolding insert_entry ◌>>=◌ or_fail
  insert_entry-Takes =
      let positive = fits.positive in
      let some_amount : eqb e.amount_minor 0 ≡ false = ground arith in
      (
        record taken { entries = e ∷ db.entries },
        rw (fits.policy, fits.row)
            (guard-passed _ _ _ fits.inside
              ∙ rw dispatch-ok (guard-passed _ _ _ some_amount ∙ guard-passed _ _ _ fits.fresh)),
        ap (λ b. b.reserved_minor) balance-grown,
        ap (λ b. b.committed_minor) balance-grown,
      )
