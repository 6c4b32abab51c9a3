-- ===== src/Spend/Consistent.antt =====
-- The ledger's books: each balance is the sum of its holds, whatever entries are inserted.
use baobab_trade.Prelude.{
  ℕ, ◌+◌, ◌≡◌, refl, sym, ap, ap₂, ◌∙◌, String, Bool, true, false, ◌&&◌, ◌==◌, eqb, Option, some,
  List, find, and_true, eq_of_==, eqb→eq, arith, if◌then◌else◌,
}
use baobab_trade.Spend.State.{Db, Entry, Hold, Balance, alter, is_hold}
use baobab_trade.Spend.Ledger.{balance_or_zero, settle}
use baobab_trade.Spend.Sums.{sum, sum-alter, find-test}

-- The rows of one policy and period.
abbrev pub at : (Hold → ℕ) → String → ℕ → Hold → ℕ
at field p s h = if h.budget_policy_id == p && eqb h.period_starts_at s then field h else 0

abbrev pub balance_at : Db → String → ℕ → Balance
balance_at db p s = balance_or_zero (db.balances p s)

-- What a balance reserves and has committed is what its holds reserve and have committed.
abbrev pub IsConsistent : Db → Type 0
IsConsistent db =
    (p : String) (s : ℕ)
    → ((balance_at db p s).reserved_minor ≡ sum (at (λ h. h.reserved_minor) p s) db.holds)
      × ((balance_at db p s).committed_minor ≡ sum (at (λ h. h.committed_minor) p s) db.holds)

abbrev pub SameSums : List Hold → List Hold → Type 0
SameSums hs ks =
    (p : String) (s : ℕ)
    → (sum (at (λ h. h.reserved_minor) p s) hs ≡ sum (at (λ h. h.reserved_minor) p s) ks)
      × (sum (at (λ h. h.committed_minor) p s) hs ≡ sum (at (λ h. h.committed_minor) p s) ks)

at_key :
    (field : Hold → ℕ) (p : String) (s : ℕ) (h : Hold) (P : String) (S : ℕ)
    → h.budget_policy_id ≡ P
    → h.period_starts_at ≡ S
    → at field p s h ≡ (if P == p && eqb S s then field h else 0)
at_key field p s h P S e k = ap₂ (λ x y. if x == p && eqb y s then field h else 0) e k

-- One amount of one balance, where the entry's own row is replaced.
close_books :
    (amount : Balance → ℕ) (c : Bool) (b' : Balance) (o : Option Balance)
    (old before after total total' : ℕ)
    → amount (balance_or_zero o) ≡ total
    → (c ≡ true → old ≡ total)
    → after + old ≡ before + amount b'
    → total' + (if c then before else 0) ≡ total + (if c then after else 0)
    → amount (balance_or_zero (if c then some b' else o)) ≡ total'
close_books amount true b' o old before after total total' a b d e =
    let same = b refl in omega arith
close_books amount false b' o old before after total total' a b d e = omega arith

same_balance :
    (db : Db) (P p : String) (S s : ℕ)
    → (P == p && eqb S s) ≡ true
    → balance_at db P S ≡ balance_at db p s
same_balance db P p S s h =
    let (u, v) = and_true (P == p) _ h in ap₂ (balance_at db) (eq_of_== _ _ u) (eqb→eq _ _ v)

-- One settled entry, on either amount of the rows: the row's own key.
settled_key :
    (field : Hold → ℕ) (hs : List Hold) (r P : String) (S : ℕ) (f : Hold → Hold) (h : Hold)
    (p : String) (s : ℕ)
    → find (is_hold r P S) hs ≡ some h
    → (f h).budget_policy_id ≡ h.budget_policy_id
    → (f h).period_starts_at ≡ h.period_starts_at
    → sum (at field p s) (alter (is_hold r P S) f hs) + (if P == p && eqb S s then field h else 0)
      ≡ sum (at field p s) hs + (if P == p && eqb S s then field (f h) else 0)
settled_key field hs r P S f h p s found same_policy same_start =
    let t = find-test (is_hold r P S) hs found in
    let (_, t2) = and_true (h.reservation_id == r) _ t in
    let (u, v) = and_true _ _ t2 in
    let P' : h.budget_policy_id ≡ P = eq_of_== _ _ u in
    let S' : h.period_starts_at ≡ S = eqb→eq _ _ v in
    rw
      (
        ← at_key field p s h P S P' S',
        ← at_key field p s (f h) P S (same_policy ∙ P') (same_start ∙ S'),
      )
      (sum-alter (at field p s) (is_hold r P S) f hs found)

-- What an entry does to its hold and its balance.
pub record Moves (f : Hold → Hold) (h : Hold) (b b' : Balance) : Type 0 where
  pub same_policy : (f h).budget_policy_id ≡ h.budget_policy_id
  pub same_start : (f h).period_starts_at ≡ h.period_starts_at
  pub reserved : (f h).reserved_minor + b.reserved_minor ≡ h.reserved_minor + b'.reserved_minor
  pub committed : (f h).committed_minor + b.committed_minor ≡ h.committed_minor + b'.committed_minor

pub settle-IsConsistent :
    (db : Db) (hs : List Hold) (e : Entry) (S : ℕ) (f : Hold → Hold) (h : Hold) (b' : Balance)
    → IsConsistent db
    → SameSums hs db.holds
    → find (is_hold e.reservation_id e.budget_policy_id S) hs ≡ some h
    → Moves f h (balance_at db e.budget_policy_id S) b'
    → IsConsistent (settle db hs e S f b')
unfolding settle
settle-IsConsistent db hs e S f h b' c same found m p s =
    let key = e.budget_policy_id in
    let row = key == p && eqb S s in
    let old : row ≡ true → balance_at db key S ≡ balance_at db p s = same_balance db key p S s in
    (
      close_books (λ b. b.reserved_minor) row b' (db.balances p s) _ _ _ _ _
          ((c p s).0 ∙ sym (same p s).0)
          (λ t. ap (λ b. b.reserved_minor) (old t) ∙ (c p s).0 ∙ sym (same p s).0) m.reserved
          (settled_key (λ x. x.reserved_minor) hs e.reservation_id key S f h p s found m.same_policy
            m.same_start),
      close_books (λ b. b.committed_minor) row b' (db.balances p s) _ _ _ _ _
          ((c p s).1 ∙ sym (same p s).1)
          (λ t. ap (λ b. b.committed_minor) (old t) ∙ (c p s).1 ∙ sym (same p s).1) m.committed
          (settled_key (λ x. x.committed_minor) hs e.reservation_id key S f h p s found
            m.same_policy m.same_start),
    )
