-- ===== src/ParseInt.antt =====
-- `parseInt(text, 16)` on the two characters of a byte, as sdk/aurum/typescript/src/verifier.ts and
-- services/registry-ledger/src/services/pq.ts call it.
use hara_registry.Prelude.{
  ℕ, ◌+◌, ◌-◌, ◌*◌, ◌%◌, Bool, ◌&&◌, ◌||◌, Option, none, some, leb, ◌==◌, if◌then◌else◌,
}

-- The white space that `parseInt` skips.
unfoldable pub is_space : ℕ → Bool
is_space c =
    (leb 9 c && leb c 13)
    || c == 32
    || c == 0xA0
    || c == 0x1680
    || (leb 0x2000 c && leb c 0x200A)
    || c == 0x2028
    || c == 0x2029
    || c == 0x202F
    || c == 0x205F
    || c == 0x3000
    || c == 0xFEFF

unfoldable pub digit : ℕ → Option ℕ
digit c =
    if leb b'0' c && leb c b'9'
    then some (c - b'0')
    else if leb b'a' c && leb c b'f'
    then some (c - b'a' + 10)
    else if leb b'A' c && leb c b'F'
    then some (c - b'A' + 10)
    else none

-- A first digit and what follows it: `0x` alone is no number, and other characters end the number.
unfoldable pub after_digit : ℕ → ℕ → ℕ → Option ℕ → Option ℕ
after_digit c d hi (some lo) = some (16 * hi + lo)
after_digit c d hi none = if c == b'0' && (d == b'x' || d == b'X') then none else some hi

unfoldable pub negated : Option ℕ → Option ℕ
negated none = none
negated (some v) = some ((256 - v) % 256)

-- `Number.parseInt` in base 16 of two characters, as the byte that an element of a Uint8Array keeps;
-- `none` is NaN.
unfoldable pub parse_pair : ℕ → ℕ → Option ℕ
unfolding is_space digit after_digit negated
parse_pair c d =
    if is_space c || c == b'+'
    then digit d
    else if c == b'-'
    then negated (digit d)
    else elim (digit c) [ none ↦ none | some hi ↦ after_digit c d hi (digit d) ]
