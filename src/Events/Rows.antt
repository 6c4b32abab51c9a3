-- ===== src/Events/Rows.antt =====
-- An outbox kept in a list of records, for runs of the dispatcher. An event is a key and a body.
use baobab_trade.Prelude.{
  String, true, Option, none, some, ◌==◌, if◌then◌else◌, List, [], ◌∷◌, ◌++◌, find, take,
}
use baobab_trade.Events.Outbox.{
  OutboxRecord, pending, Store, Updated, updated, fails, Change, apply,
}
use baobab_trade.Events.Enqueue.{Reading}

pub record Message : Type 0 where
  pub key : String
  pub body : String

abbrev pub Row : Type 0
Row = OutboxRecord Message

abbrev pub message_reading : Reading Message
message_reading = record {
  is_valid = λ e. true;
  idempotency_key = λ e. some e.key;
  fingerprint = λ e. e.body;
}

abbrev pub new_row : Message → String → Row
new_row e key = record {
  id = key;
  event_id = key;
  event_type = "type";
  subject = "subject";
  tenant_id = none;
  correlation_id = "c1";
  causation_id = none;
  idempotency_key = key;
  envelope = e;
  status = pending;
  attempt_count = 0;
  next_attempt_at = 0;
  published_at = none;
  lease_expires_at = none;
  last_error_code = none;
}

abbrev pub row_of : List Row → String → Option Row
row_of rows id = find (λ r. r.id == id) rows

abbrev pub row_under : List Row → String → Option Row
row_under rows key = find (λ r. r.idempotency_key == key) rows

unfoldable pub set_rows : String → Change → List Row → List Row
set_rows id ch [] = []
set_rows id ch (r ∷ rows) =
    let rest = set_rows id ch rows in (if r.id == id then apply ch r else r) ∷ rest

unfoldable pub update_rows : List Row → String → Change → Option Row → Updated Message × List Row
update_rows rows id ch none = (fails "NOT_FOUND", rows)
update_rows rows id ch (some r) = (updated (apply ch r), set_rows id ch rows)

unfoldable pub insert_row : List Row → Message → String → Option Row → Updated Message × List Row
insert_row rows e key (some r) = (fails "UNIQUE", rows)
insert_row rows e key none = (updated (new_row e key), rows ++ (new_row e key ∷ []))

abbrev pub list_store : Store Message
list_store = record {
  Db = List Row;
  record_of = row_of;
  by_key = row_under;
  page = λ rows n. take n rows;
  update = λ rows id ch. update_rows rows id ch (row_of rows id);
  insert = λ rows e key. insert_row rows e key (row_under rows key);
}
