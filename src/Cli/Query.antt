-- ===== src/Cli/Query.antt =====
-- `is_query` of server/src/main.rs: which statements have rows to show.
pub mod Comments
use sqlite_broker.Prelude.{
  ℕ, zero, suc, ◌==◌, Bool, true, false, ◌&&◌, ◌||◌, if◌then◌else◌, List, [], ◌∷◌, Option, none,
  some, length, take, ltb,
}
use sqlite_broker.Text.{Bytes, codes}
use sqlite_broker.Text.Space.{trim_front}
use sqlite_broker.Text.Search.{starts_with, to_ascii_uppercase, is_char_boundary, split_once}

abbrev pub behind_comment : Option (Bytes × Bytes) → Option Bytes
behind_comment none = none
behind_comment (some (comment, after_)) = some (trim_front 0 after_)

-- `none` where the text begins with no comment, `some none` where its comment does not end.
unfoldable pub after_comment : Bytes → Option (Option Bytes)
after_comment [] = none
after_comment (a ∷ []) = none
after_comment (a ∷ b ∷ body) =
    if (a == b'-') && (b == b'-') then some (behind_comment (split_once 10 body)) else none

abbrev pub skip_on : (Bytes → Option Bytes) → Bytes → Option (Option Bytes) → Option Bytes
skip_on again text none = some text
skip_on again text (some none) = none
skip_on again text (some (some rest)) = again rest

-- Each round takes a comment from the text, so that one round more than it has bytes is enough.
unfoldable pub skip_comments : ℕ → Bytes → Option Bytes
unfolding after_comment
skip_comments zero text = none
skip_comments (suc rounds) text = skip_on (skip_comments rounds) text (after_comment text)

-- `rest.get(..16).unwrap_or(rest)`
abbrev pub head_of : Bytes → Bytes
head_of rest = if ltb 15 (length rest) && is_char_boundary rest 16 then take 16 rest else rest

unfoldable pub is_query_head : Bytes → Bool
is_query_head rest =
    let head = to_ascii_uppercase (head_of rest) in
    starts_with (codes "SELECT") head
    || (starts_with (codes "WITH") head || starts_with (codes "EXPLAIN") head)

abbrev pub or_no_query : Option Bytes → Bool
or_no_query none = false
or_no_query (some rest) = is_query_head rest

unfoldable pub is_query : Bytes → Bool
unfolding skip_comments is_query_head
is_query sql = let rest = trim_front 0 sql in or_no_query (skip_comments (suc (length rest)) rest)
