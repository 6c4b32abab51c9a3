-- ===== src/Spend/Frame.antt =====
-- The ledger of modules/b2b/migrations/Migration20261022150000.ts: the tables that an inserted entry
-- does not touch.
use baobab_trade.Prelude.{ℕ, ◌≡◌, refl, subst, String, none, some, List}
use baobab_trade.Spend.State.{
  Db, Entry, EntryKind, Hold, Balance, Policy, Reservation, ok, reserve, commit, release,
}
use baobab_trade.Spend.Ledger.{
  settle, apply_reserve, apply_commit, apply_release, apply_kind, apply_current, apply_earlier,
  dispatch, insert_entry,
}
use baobab_trade.Spend.Capacity.{>>=-ok, >>-ok, ok-injective}

-- Only the balances, the holds and the entries may differ.
pub record SameRows (db db' : Db) : Type 0 where
  pub members : db'.members ≡ db.members
  pub policies : db'.policies ≡ db.policies
  pub reservations : db'.reservations ≡ db.reservations
  pub commands : db'.commands ≡ db.commands

settle-SameRows :
    (db : Db) (hs : List Hold) (e : Entry) (S : ℕ) (f : Hold → Hold) (b : Balance) {db' : Db}
    → ok (settle db hs e S f b) ≡ ok db'
    → SameRows db db'
unfolding settle
settle-SameRows db hs e S f b k =
    subst (SameRows db) (ok-injective k)
      (record { members = refl; policies = refl; reservations = refl; commands = refl })

module _ (month : String → ℕ → ℕ × ℕ) (now : ℕ) (db : Db) (e : Entry) {db' : Db} where
  apply_release-SameRows :
      (S : ℕ) (b : Balance) (h : Hold) (hs : List Hold)
      → apply_release db e S b h hs ≡ ok db'
      → SameRows db db'
  unfolding apply_release
  apply_release-SameRows S b h hs k =
      >>-ok _ _ k λ _ k. >>-ok _ _ k λ _ k. settle-SameRows db hs e S _ _ k

  apply_kind-SameRows :
      (p : Policy) (r : Reservation) (S : ℕ) (b : Balance) (held : Hold × List Hold)
      (kind : EntryKind)
      → apply_kind month now db e p r S b held kind ≡ ok db'
      → SameRows db db'
  unfolding apply_kind apply_reserve apply_commit
  apply_kind-SameRows p r S b (h, hs) reserve k =
      >>-ok _ _ k λ _ k. >>-ok _ _ k λ _ k. >>-ok _ _ k λ _ k. settle-SameRows db hs e S _ _ k
  apply_kind-SameRows p r S b (h, hs) (commit reference) k = >>-ok _ _ k λ _ k.
      >>-ok _ _ k λ _ k. >>-ok _ _ k λ _ k. >>-ok _ _ k λ _ k. settle-SameRows db hs e S _ _ k
  apply_kind-SameRows p r S b (h, hs) (release reason start) k = apply_release-SameRows S b h hs k

  apply_current-SameRows :
      (p : Policy) (r : Reservation) → apply_current month now db e p r ≡ ok db' → SameRows db db'
  unfolding apply_current
  apply_current-SameRows p r k =
      >>=-ok _ _ k λ _ _ k. >>-ok _ _ k λ _ k. apply_kind-SameRows p r _ _ _ _ k

  dispatch-SameRows :
      (p : Policy) (r : Reservation) (kind : EntryKind)
      → dispatch month now db e p r kind ≡ ok db'
      → SameRows db db'
  unfolding dispatch apply_earlier
  dispatch-SameRows p r (release reason (some S)) k =
      >>=-ok _ _ k λ _ _ k. >>=-ok _ _ k λ _ _ k. apply_release-SameRows S _ _ _ k
  dispatch-SameRows p r (release reason none) k = apply_current-SameRows p r k
  dispatch-SameRows p r reserve k = apply_current-SameRows p r k
  dispatch-SameRows p r (commit reference) k = apply_current-SameRows p r k

-- An entry leaves the members, the policies, the reservations and the commands alone.
pub insert_entry-SameRows :
    (month : String → ℕ → ℕ × ℕ) (now : ℕ) (db : Db) (e : Entry) {db' : Db}
    → insert_entry month now db e ≡ ok db'
    → SameRows db db'
unfolding insert_entry
insert_entry-SameRows month now db e k = >>=-ok _ _ k λ p _ k. >>=-ok _ _ k λ r _ k.
    >>-ok _ _ k λ _ k. >>=-ok _ _ k λ moved step k. >>-ok _ _ k λ _ k. >>-ok _ _ k λ _ k.
      let s = dispatch-SameRows month now db e p r e.kind step in
      subst (SameRows db) (ok-injective k) (record {
        members = s.members;
        policies = s.policies;
        reservations = s.reservations;
        commands = s.commands;
      })
