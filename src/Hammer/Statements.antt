-- ===== src/Hammer/Statements.antt =====
-- The statements that `run_worker` of server/src/hammer.rs sends.
use sqlite_broker.Prelude.{ℕ, ◌%◌, ◌==◌, if◌then◌else◌, List, [], ◌∷◌, ◌++◌}
use sqlite_broker.Text.{Bytes, codes}
use sqlite_broker.Text.Decimal.{decimal}

-- `format!`, over the pieces of the text.
unfoldable pub format : List Bytes → Bytes
format [] = []
format (piece ∷ pieces) = piece ++ format pieces

-- What each transaction starts with.
abbrev pub begin_immediate : Bytes
begin_immediate = codes "BEGIN IMMEDIATE; "

unfoldable pub fresh_name : (worker step : ℕ) → Bytes
unfolding format
fresh_name worker step = format (codes "w" ∷ decimal worker ∷ codes "-s" ∷ decimal step ∷ [])

-- The second statement of each transaction.
unfoldable pub event_sql : (worker step : ℕ) (kind name : Bytes) → Bytes
unfolding format
event_sql worker step kind name = format (
    codes "; INSERT INTO event(worker, seq, kind, token) VALUES ("
    ∷ decimal worker
    ∷ codes ", "
    ∷ decimal step
    ∷ codes ", '"
    ∷ kind
    ∷ codes "', '"
    ∷ name
    ∷ codes "'); COMMIT"
    ∷ [])

unfoldable pub insert_sql : (worker step : ℕ) (fresh : Bytes) → Bytes
unfolding format event_sql
insert_sql worker step fresh = format (
    begin_immediate
    ∷ codes "INSERT INTO item(worker, n, name, note, price, flag, seen) VALUES ("
    ∷ decimal worker
    ∷ codes ", "
    ∷ decimal step
    ∷ codes ", '"
    ∷ fresh
    ∷ codes "', 'row "
    ∷ decimal step
    ∷ codes "', "
    ∷ decimal step
    ∷ codes ".25, "
    ∷ decimal (step % 2)
    ∷ codes ", 0)"
    ∷ event_sql worker step (codes "insert") fresh
    ∷ [])

unfoldable pub update_sql : (worker step : ℕ) (name : Bytes) → Bytes
unfolding format event_sql
update_sql worker step name = format (
    begin_immediate
    ∷ codes "UPDATE item SET note = 'edited "
    ∷ decimal step
    ∷ codes "', seen = seen + 1, price = COALESCE(price, 0) + 0.5 WHERE name = '"
    ∷ name
    ∷ codes "'"
    ∷ event_sql worker step (codes "update") name
    ∷ [])

unfoldable pub delete_sql : (worker step : ℕ) (name : Bytes) → Bytes
unfolding format event_sql
delete_sql worker step name = format (
    begin_immediate
    ∷ codes "DELETE FROM item WHERE name = '"
    ∷ name
    ∷ codes "'"
    ∷ event_sql worker step (codes "delete") name
    ∷ [])

-- The four reads.
unfoldable pub read_sql : (worker choice : ℕ) → Bytes
unfolding format
read_sql worker choice =
    if choice == 0
    then format (
        codes "SELECT id, name, note, price, seen FROM item WHERE worker = "
        ∷ decimal worker
        ∷ codes " ORDER BY id DESC LIMIT 8"
        ∷ [])
    else if choice == 1
    then codes "SELECT worker, c FROM item_count ORDER BY worker"
    else if choice == 2
    then format (
        codes "SELECT kind, count(*) FROM event WHERE worker = "
        ∷ decimal worker
        ∷ codes " GROUP BY kind"
        ∷ [])
    else format (
        codes
          "SELECT i.name, e.kind FROM item i LEFT JOIN event e ON e.token = i.name AND e.worker = i.worker WHERE i.worker = "
        ∷ decimal worker
        ∷ codes " ORDER BY i.id DESC LIMIT 8"
        ∷ [])
