-- ===== src/Broker/Brief.antt =====
-- `sql_brief` of server/src/broker.rs: the statement as the log shows it.
use sqlite_broker.Prelude.{ltb, if◌then◌else◌, ◌++◌, Option, none, some, length, take}
use sqlite_broker.Text.{Bytes, codes, join}
use sqlite_broker.Text.Space.{split_whitespace}
use sqlite_broker.Text.Search.{is_char_boundary}

abbrev pub one_line : Bytes → Bytes
one_line sql = join (codes " ") (split_whitespace sql)

-- `&one[..120]` panics unless byte 120 starts a character: `none` is that panic.
unfoldable pub sql_brief : Bytes → Option Bytes
unfolding is_char_boundary
sql_brief sql =
    let one = one_line sql in
    if ltb 120 (length one)
    then (if is_char_boundary one 120 then some (take 120 one ++ codes "...") else none)
    else some one
