-- ===== src/Spend/Capacity.antt =====
-- What an inserted ledger entry keeps: the books, and every budget's limit.
use baobab_trade.Prelude.{
  ℕ, ◌+◌, ◌≤◌, ◌≡◌, refl, ap, subst, String, Bool, true, false, ◌&&◌, ◌==◌, eqb, ltb, Option, none,
  some, List, find, inl, inr, and_true, eq_of_==, eqb_refl, Option-cases, arith, if◌then◌else◌,
  ==_refl,
}
use baobab_trade.Spend.State.{
  Db, Entry, EntryKind, Hold, Balance, Policy, Reservation, Result, ok, fail, is_hold, find_hold,
  find_policy, fail_if, or_fail, Failure, ◌>>=◌, ◌>>◌, reserve, commit, release,
}
use baobab_trade.Spend.Ledger.{
  balance_or_zero, settle, ensure_hold, apply_reserve, apply_commit, apply_release, apply_kind,
  apply_current, apply_earlier, dispatch, insert_entry, refresh, add_reserved, drop_reserved,
  commit_reserved,
}
use baobab_trade.Spend.Sums.{sum}
use baobab_trade.Spend.Consistent.{balance_at, IsConsistent, SameSums, Moves, settle-IsConsistent}

-- No budget is consumed beyond its limit, in any period.
abbrev pub IsWithin : Db → Type 0
IsWithin db =
    (id : String) (p : Policy) (s : ℕ)
    → find_policy db id ≡ some p
    → (balance_at db id s).committed_minor + (balance_at db id s).reserved_minor ≤ p.limit_minor

-- The books balance, and every budget is within its limit.
pub record IsSound (db : Db) : Type 0 where
  pub books : IsConsistent db
  pub within : IsWithin db

-- Inversion of the steps of the trigger.
pub >>=-ok {ℓ κ μ} :
    {A : Type ℓ} {B : Type κ} {P : Type μ} (m : Result A) (f : A → Result B) {b : B}
    → (m >>= f) ≡ ok b
    → ((a : A) → m ≡ ok a → f a ≡ ok b → P)
    → P
unfolding ◌>>=◌
>>=-ok (ok a) f h k = k a refl h
>>=-ok (fail e) f h k = absurd (ground arith)

pub >>-ok {κ μ} :
    {B : Type κ} {P : Type μ} (m : Result (Unit {0})) (k : Result B) {b : B}
    → (m >> k) ≡ ok b
    → (m ≡ ok tt → k ≡ ok b → P)
    → P
unfolding ◌>>◌
>>-ok (ok u) k h c = c refl h
>>-ok (fail e) k h c = absurd (ground arith)

pub fail_if-ok : (c : Bool) (e : Failure) → fail_if c e ≡ ok tt → c ≡ false
unfolding fail_if
fail_if-ok c e h = ground arith

pub or_fail-ok {ℓ} :
    {A : Type ℓ} (o : Option A) (e : Failure) {a : A} → or_fail o e ≡ ok a → o ≡ some a
unfolding or_fail
or_fail-ok none e h = ground arith
or_fail-ok (some a) e h = ground arith

settle_balance :
    (c : Bool) (b' : Balance) (o : Option Balance) (limit : ℕ)
    → (c ≡ true → b'.committed_minor + b'.reserved_minor ≤ limit)
    → (balance_or_zero o).committed_minor + (balance_or_zero o).reserved_minor ≤ limit
    → (balance_or_zero (if c then some b' else o)).committed_minor
        + (balance_or_zero (if c then some b' else o)).reserved_minor
      ≤ limit
settle_balance true b' o limit h k = h refl
settle_balance false b' o limit h k = k

settle-IsWithin :
    (db : Db) (hs : List Hold) (e : Entry) (S : ℕ) (f : Hold → Hold) (b' : Balance)
    → IsWithin db
    → ((p : Policy)
        → find_policy db e.budget_policy_id ≡ some p
        → b'.committed_minor + b'.reserved_minor ≤ p.limit_minor)
    → IsWithin (settle db hs e S f b')
unfolding settle
settle-IsWithin db hs e S f b' w fits id p s found =
    settle_balance (e.budget_policy_id == id && eqb S s) b' (db.balances id s) p.limit_minor
      (λ t.
        let same : e.budget_policy_id ≡ id = eq_of_== _ _ ((and_true _ (eqb S s) t).0) in
        fits p (rw same found))
      (w id p s found)

-- What an entry does to its hold and its balance, with the limit.
settle-IsSound :
    (db : Db) (hs : List Hold) (e : Entry) (S : ℕ) (f : Hold → Hold) (h : Hold) (b' : Balance)
    → IsSound db
    → SameSums hs db.holds
    → find (is_hold e.reservation_id e.budget_policy_id S) hs ≡ some h
    → Moves f h (balance_at db e.budget_policy_id S) b'
    → ((p : Policy)
        → find_policy db e.budget_policy_id ≡ some p
        → b'.committed_minor + b'.reserved_minor ≤ p.limit_minor)
    → IsSound (settle db hs e S f b')
settle-IsSound db hs e S f h b' sound same found m fits = record {
  books = settle-IsConsistent db hs e S f h b' sound.books same found m;
  within = settle-IsWithin db hs e S f b' sound.within fits;
}

pub ok-injective {ℓ} : {A : Type ℓ} {a b : A} → ok a ≡ ok b → a ≡ b
ok-injective h = cc

refresh_fields :
    (revision : ℕ) (h : Hold)
    → ((refresh revision h).budget_policy_id ≡ h.budget_policy_id)
      × ((refresh revision h).period_starts_at ≡ h.period_starts_at)
      × ((refresh revision h).reserved_minor ≡ h.reserved_minor)
      × ((refresh revision h).committed_minor ≡ h.committed_minor)
refresh_fields revision h = (ground arith, ground arith, ground arith, ground arith)

module _ (db : Db) (e : Entry) (S : ℕ) (h : Hold) (hs : List Hold) (sound : IsSound db)
    (same : SameSums hs db.holds)
    (found : find (is_hold e.reservation_id e.budget_policy_id S) hs ≡ some h) where
  apply_release-IsSound :
      (db' : Db)
      → apply_release db e S (balance_at db e.budget_policy_id S) h hs ≡ ok db'
      → IsSound db'
  unfolding apply_release
  apply_release-IsSound db' k = >>-ok _ _ k λ a k2. >>-ok _ _ k2 λ b k3.
      let n : ltb h.reserved_minor e.amount_minor ≡ false = fail_if-ok _ _ a in
      let m : ltb (balance_at db e.budget_policy_id S).reserved_minor e.amount_minor ≡ false =
        fail_if-ok _ _ b in
      subst IsSound (ok-injective k3) (
        settle-IsSound db hs e S (drop_reserved e.amount_minor) h _ sound same found
          (record {
            same_policy = refl;
            same_start = refl;
            reserved = ground arith;
            committed = refl;
          })
          (λ p policy. omega (arith, sound.within e.budget_policy_id p S policy)))

  apply_commit-IsSound :
      (now : ℕ) (p : Policy) (r : Reservation) (db' : Db)
      → apply_commit now db e p r S (balance_at db e.budget_policy_id S) h hs ≡ ok db'
      → IsSound db'
  unfolding apply_commit
  apply_commit-IsSound now p r db' k = >>-ok _ _ k λ active k1. >>-ok _ _ k1 λ current k2.
      >>-ok _ _ k2 λ a k3. >>-ok _ _ k3 λ b k4.
        let n : ltb h.reserved_minor e.amount_minor ≡ false = fail_if-ok _ _ a in
        let m : ltb (balance_at db e.budget_policy_id S).reserved_minor e.amount_minor ≡ false =
          fail_if-ok _ _ b in
        subst IsSound (ok-injective k4) (
          settle-IsSound db hs e S (commit_reserved e.amount_minor) h _ sound same found
            (record {
              same_policy = refl;
              same_start = refl;
              reserved = ground arith;
              committed = ground arith;
            })
            (λ q policy. let w = sound.within e.budget_policy_id q S policy in ground arith))

  apply_reserve-IsSound :
      (now : ℕ) (p : Policy) (r : Reservation) (db' : Db)
      → find_policy db e.budget_policy_id ≡ some p
      → apply_reserve now db e p r S (balance_at db e.budget_policy_id S) h hs ≡ ok db'
      → IsSound db'
  unfolding apply_reserve
  apply_reserve-IsSound now p r db' policy k = >>-ok _ _ k λ active k1. >>-ok _ _ k1 λ current k2.
      >>-ok _ _ k2 λ room k3.
        let full : ltb p.limit_minor (
              e.amount_minor
              + (balance_at db e.budget_policy_id S).committed_minor
              + (balance_at db e.budget_policy_id S).reserved_minor)
            ≡ false =
          fail_if-ok _ _ room in
        let (a, b, c, d) = refresh_fields p.revision h in
        subst IsSound (ok-injective k3) (
          settle-IsSound db hs e S (λ x. add_reserved e.amount_minor (refresh p.revision x)) h _
            sound same found
            (record {
              same_policy = a;
              same_start = b;
              reserved = omega (arith, c);
              committed = omega (arith, d);
            })
            (λ q found_q. let eq : q ≡ p = cc in rw eq (ground arith)))

-- The rows with the entry's hold, made empty if it is missing.
abbrev EnsuresHold : Db → String → String → ℕ → Hold × List Hold → Type 0
EnsuresHold db r p S x = SameSums (x.1) db.holds × (find (is_hold r p S) (x.1) ≡ some (x.0))

ensure_hold-EnsuresHold :
    (db : Db) (r p : String) (revision S : ℕ) → EnsuresHold db r p S (ensure_hold db r p revision S)
unfolding ensure_hold sum
ensure_hold-EnsuresHold db r p revision S = elim (Option-cases (find_hold db r p S)) [
  | inl e ↦
      rw (e, ensure_hold)
        ((λ q s. (ground arith, ground arith)), rw (==_refl r, ==_refl p, eqb_refl S))
  | inr (h, e) ↦ rw (e, ensure_hold) ((λ q s. (refl, refl)), e)
]

module _ (month : String → ℕ → ℕ × ℕ) (now : ℕ) (db : Db) (e : Entry) (sound : IsSound db) where
  apply_kind-IsSound :
      (p : Policy) (r : Reservation) (S : ℕ) (x : Hold × List Hold) (kind : EntryKind) (db' : Db)
      → find_policy db e.budget_policy_id ≡ some p
      → EnsuresHold db e.reservation_id e.budget_policy_id S x
      → apply_kind month now db e p r S (balance_at db e.budget_policy_id S) x kind ≡ ok db'
      → IsSound db'
  unfolding apply_kind
  apply_kind-IsSound p r S (h, hs) reserve db' policy (same, found) k =
      apply_reserve-IsSound db e S h hs sound same found now p r db' policy k
  apply_kind-IsSound p r S (h, hs) (commit reference) db' policy (same, found) k =
      apply_commit-IsSound db e S h hs sound same found now p r db' k
  apply_kind-IsSound p r S (h, hs) (release reason at_) db' policy (same, found) k =
      apply_release-IsSound db e S h hs sound same found db' k

  apply_current-IsSound :
      (p : Policy) (r : Reservation) (db' : Db)
      → find_policy db e.budget_policy_id ≡ some p
      → apply_current month now db e p r ≡ ok db'
      → IsSound db'
  unfolding apply_current
  apply_current-IsSound p r db' policy k = >>=-ok _ _ k λ period q k2. >>-ok _ _ k2 λ inside k3.
      apply_kind-IsSound p r period.0 _ e.kind db' policy
        (ensure_hold-EnsuresHold db e.reservation_id e.budget_policy_id p.revision period.0) k3

  apply_earlier-IsSound : (S : ℕ) (db' : Db) → apply_earlier month db e S ≡ ok db' → IsSound db'
  unfolding apply_earlier
  apply_earlier-IsSound S db' k = >>=-ok _ _ k λ h found k2. >>=-ok _ _ k2 λ b row k3.
      let same : balance_at db e.budget_policy_id S ≡ b = ap balance_or_zero (or_fail-ok _ _ row) in
      apply_release-IsSound db e S h db.holds sound (λ q s. (refl, refl)) (or_fail-ok _ _ found) db'
        (rw same k3)

  dispatch-IsSound :
      (p : Policy) (r : Reservation) (kind : EntryKind) (db' : Db)
      → find_policy db e.budget_policy_id ≡ some p
      → dispatch month now db e p r kind ≡ ok db'
      → IsSound db'
  unfolding dispatch
  dispatch-IsSound p r (release reason (some S)) db' policy k = apply_earlier-IsSound S db' k
  dispatch-IsSound p r (release reason none) db' policy k = apply_current-IsSound p r db' policy k
  dispatch-IsSound p r reserve db' policy k = apply_current-IsSound p r db' policy k
  dispatch-IsSound p r (commit reference) db' policy k = apply_current-IsSound p r db' policy k

  -- Where the books balance and no budget is beyond its limit, so it is after every entry that the
  -- ledger takes: RESERVE, COMMIT or RELEASE.
  pub insert_entry-IsSound : (db' : Db) → insert_entry month now db e ≡ ok db' → IsSound db'
  unfolding insert_entry
  insert_entry-IsSound db' k = >>=-ok _ _ k λ p policy k2. >>=-ok _ _ k2 λ r row k3.
      >>-ok _ _ k3 λ inside k4. >>=-ok _ _ k4 λ moved step k5. >>-ok _ _ k5 λ amount k6.
        >>-ok _ _ k6 λ fresh k7.
          let s = dispatch-IsSound p r e.kind moved (or_fail-ok _ _ policy) step in
          subst IsSound (ok-injective k7) (record { books = s.books; within = s.within })
