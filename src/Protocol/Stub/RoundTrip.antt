-- ===== src/Protocol/Stub/RoundTrip.antt =====
-- A stub that was written is read back.
use sqlite_broker.Prelude.{
  ◌≡◌, refl, ap, ◌∙◌, List, [], ◌∷◌, ◌++◌, true, false, ◌||◌, some, is_empty, bytes_eq, Bool-cases,
  inl, inr, or_false, eq-bytes_eq,
}
use mathlib.Core.Option.{some-injective}
use sqlite_broker.Text.{Bytes}
use sqlite_broker.Text.Space.{trim, has_space, space_len, is_ascii_space, is_wide_space}
use sqlite_broker.Text.Space.Laws.{trim-clean, has_space-IsNoBreak}
use sqlite_broker.Text.Lines.{lines}
use sqlite_broker.Text.Lines.Laws.{lines-break}
use sqlite_broker.Text.Utf8.{idle, first, start, valid_from, from_utf8}
use sqlite_broker.Text.Utf8.Laws.{valid-append}
use sqlite_broker.Protocol.Stub.{stub_magic, format_stub, stub_word, stub_lines, parse_stub}

-- An address is UTF-8 text of one word.
pub record IsAddress (addr : Bytes) : Type 0 where
  pub valid : valid_from idle addr ≡ true
  pub filled : is_empty addr ≡ false
  pub one_word : has_space addr ≡ false

format_stub-valid : (addr : Bytes) → IsAddress addr → valid_from idle (format_stub addr) ≡ true
unfolding format_stub valid_from start first
format_stub-valid addr a = valid-append idle addr (10 ∷ []) a.valid refl

stub_magic_one_word : has_space stub_magic ≡ false
unfolding has_space space_len is_ascii_space is_wide_space
stub_magic_one_word = refl

lines-format_stub :
    (addr : Bytes) → IsAddress addr → lines (format_stub addr) ≡ stub_magic ∷ addr ∷ []
unfolding lines format_stub
lines-format_stub addr a =
    lines-break stub_magic (addr ++ (10 ∷ [])) (has_space-IsNoBreak stub_magic stub_magic_one_word)
    ∙ ap (◌∷◌ stub_magic) (lines-break addr [] (has_space-IsNoBreak addr a.one_word))

-- The stub that the broker writes for an address, valid UTF-8 that is one word, is read back as that
-- address.
pub parse_stub-format_stub :
    (addr : Bytes) → IsAddress addr → parse_stub (format_stub addr) ≡ some addr
unfolding parse_stub from_utf8 stub_lines
parse_stub-format_stub addr a = rw (
  format_stub-valid addr a,
  lines-format_stub addr a,
  trim-clean addr a.one_word,
  a.filled,
  a.one_word,
)

-- What a file must be for its reading to give an address: UTF-8 text whose first line is the magic,
-- and whose second line holds, between white space, one word that is the address.
pub record IsStub (bytes addr : Bytes) : Type 0 where
  pub valid : valid_from idle bytes ≡ true
  pub second : Bytes
  pub more : List Bytes
  pub split : lines bytes ≡ stub_magic ∷ second ∷ more
  pub is_trimmed : trim second ≡ addr
  pub filled : is_empty addr ≡ false
  pub one_word : has_space addr ≡ false

stub_word-cases :
    (line addr : Bytes)
    → stub_word line ≡ some addr
    → (trim line ≡ addr) × (is_empty addr ≡ false) × (has_space addr ≡ false)
unfolding stub_word
stub_word-cases line addr h = elim (Bool-cases (is_empty (trim line) || has_space (trim line))) [
  | inl bad ↦ let k = rw bad at h in cc
  | inr good ↦
      let e = some-injective _ _ (rw good at h) in
      let (filled, one) = or_false (is_empty (trim line)) (has_space (trim line)) good in
      (e, rw (← e) filled, rw (← e) one)
]

stub_lines-cases :
    (bytes : Bytes) (ls : List Bytes) (addr : Bytes)
    → valid_from idle bytes ≡ true
    → lines bytes ≡ ls
    → stub_lines ls ≡ some addr
    → IsStub bytes addr
unfolding stub_lines
stub_lines-cases bytes (first ∷ second ∷ more) addr v e h =
    elim (Bool-cases (bytes_eq first stub_magic)) [
      | inl magic ↦
          let (t, f, o) = stub_word-cases second addr (rw magic at h) in
          record {
            valid = v;
            second = second;
            more = more;
            split = e ∙ ap (λ (l : Bytes). l ∷ second ∷ more) (eq-bytes_eq first stub_magic magic);
            is_trimmed = t;
            filled = f;
            one_word = o;
          }
      | inr other ↦ let k = rw other at h in cc
    ]
stub_lines-cases bytes _ addr v e h = cc

-- Only such a file is read as a stub.
pub parse_stub-IsStub : (bytes addr : Bytes) → parse_stub bytes ≡ some addr → IsStub bytes addr
unfolding parse_stub from_utf8
parse_stub-IsStub bytes addr h = elim (Bool-cases (valid_from idle bytes)) [
  | inl v ↦ stub_lines-cases bytes (lines bytes) addr v refl (rw v at h)
  | inr bad ↦ let k = rw bad at h in cc
]
