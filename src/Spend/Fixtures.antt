-- ===== src/Spend/Fixtures.antt =====
-- A budget, a purchase against it and the commands on it, for the examples.
use baobab_trade.Prelude.{ℕ, String, true, false, Option, none, some, [], ◌∷◌}
use baobab_trade.Spend.State.{
  Db, Policy, PolicyStatus, Scope, PeriodKind, Reservation, ReservationStatus, Balance, Hold, Entry,
  reserve, commit, Member, CommandResult, put_balance,
}
use baobab_trade.Spend.Tx.{Tx, Env, return}
use baobab_trade.Spend.Steps.{SubmitCommand, CommitCommand}
use baobab_trade.Spend.Run.{Request}
use baobab_trade.Spend.Serve.{Call}

abbrev pub env : Env
env = record {
  month = λ zone now. (0, 1000);
  reservation_id_for = λ organisation key. "b2bres_abc123";
  entry_key = λ kind key policy step. kind;
  release_key = λ id start. id;
  now = 100;
  app_now = 100;
}

abbrev pub budget : Policy
budget = record {
  id = "p1";
  revision = 1;
  status = PolicyStatus.active;
  scope = Scope.membership;
  tenant_id = "t1";
  organisation_id = "org1";
  membership_id = some "m1";
  agreement_reference = none;
  market_key = "za";
  currency_code = "ZAR";
  period_kind = PeriodKind.calendar_month;
  timezone = "Africa/Johannesburg";
  limit_minor = 1000;
  effective_from = 0;
  effective_until = none;
  deleted = false;
}

abbrev pub member : Member
member = record {
  id = "m1";
  organisation_id = "org1";
  tenant_id = "t1";
  active = true;
  effective_from = none;
  effective_until = none;
  deleted = false;
}

abbrev pub digest_text : String
digest_text = "sha256:0123456789abcdef0123456789abcdef0123456789abcdef0123456789abcdef"

abbrev pub purchase : SubmitCommand
purchase = record {
  idempotency_key = "submit-key-000001";
  purchase_reference = "cart-1";
  tenant_id = "t1";
  organisation_id = "org1";
  membership_id = "m1";
  actor_principal_id = "buyer";
  market_key = "za";
  currency_code = "ZAR";
  agreement_reference = none;
  transaction_digest = digest_text;
  resource_version = 1;
  amount_minor = 400;
  expires_at = 5000;
}

abbrev pub no_balance : String → ℕ → Option Balance
no_balance p s = none

abbrev pub empty_db : Db
empty_db = record {
  members = member ∷ [];
  policies = budget ∷ [];
  reservations = [];
  balances = no_balance;
  holds = [];
  entries = [];
  commands = [];
}

abbrev pub reservation : Reservation
reservation = record {
  id = "b2bres_abc123";
  tenant_id = "t1";
  organisation_id = "org1";
  membership_id = "m1";
  submitted_by_principal_id = "buyer";
  market_key = "za";
  currency_code = "ZAR";
  agreement_reference = none;
  transaction_digest = digest_text;
  resource_version = 1;
  amount_minor = 400;
  purchase_reference = "cart-1";
  supersedes = none;
  status = ReservationStatus.active;
  expires_at = 5000;
  hold_revision = 1;
  deleted = false;
}

abbrev pub reserved_db : Db
reserved_db = record empty_db { reservations = reservation ∷ [] }

abbrev pub hold : ℕ → ℕ → Hold
hold reserved committed = record {
  reservation_id = "b2bres_abc123";
  budget_policy_id = "p1";
  policy_revision = 1;
  period_starts_at = 0;
  reserved_minor = reserved;
  committed_minor = committed;
}

abbrev pub balance : ℕ → ℕ → Balance
balance reserved committed = record { committed_minor = committed; reserved_minor = reserved }

abbrev pub reserve_entry : Entry
reserve_entry = record {
  kind = reserve;
  reservation_id = "b2bres_abc123";
  budget_policy_id = "p1";
  policy_revision = 1;
  amount_minor = 400;
  idempotency_key = "RESERVE";
  actor_principal_id = "buyer";
}

abbrev pub funded_db : Db
funded_db = record reserved_db {
  balances = put_balance no_balance "p1" 0 (balance 400 0);
  holds = hold 400 0 ∷ [];
  entries = reserve_entry ∷ [];
}

abbrev pub commitment : CommitCommand
commitment = record {
  base = record {
    idempotency_key = "commit-key-000001";
    organisation_id = "org1";
    reservation_id = "b2bres_abc123";
    actor_principal_id = "buyer";
  };
  hold_revision = 1;
  transaction_digest = digest_text;
  resource_version = 1;
  amount_minor = 400;
  commitment_reference = "order-1";
}

abbrev pub commit_entry : Entry
commit_entry = record reserve_entry { kind = commit "order-1"; idempotency_key = "COMMIT" }

abbrev pub closed : Reservation
closed = record reservation { status = ReservationStatus.committed }

abbrev pub committed_db : Db
committed_db = record funded_db {
  reservations = closed ∷ [];
  balances = put_balance (put_balance no_balance "p1" 0 (balance 400 0)) "p1" 0 (balance 0 400);
  holds = hold 0 400 ∷ [];
  entries = commit_entry ∷ reserve_entry ∷ [];
}

abbrev pub outcome : ReservationStatus → CommandResult
outcome s = record {
  reservation_id = "b2bres_abc123";
  status = s;
  hold_revision = 1;
  approval_revalidation_required = none;
}

-- A digest that tells the purchases apart.
abbrev pub digest : Request → String
digest (Request.submit c) = c.purchase_reference
digest _ = "other"

abbrev pub no_mutation : CommitCommand → Tx (Unit {0})
no_mutation c = return tt

abbrev pub call : Request → Call
call r = record { env = env; mutation = no_mutation; connected = true; request = r }
