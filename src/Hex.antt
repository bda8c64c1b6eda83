-- ===== src/Hex.antt =====
-- toHex, fromHex and lc of services/registry-ledger/src/transparency-log.ts.
pub mod RoundTrip
use hara_registry.Prelude.{
  ℕ, ◌+◌, ◌-◌, ◌*◌, ◌/◌, ◌%◌, Bool, ◌&&◌, Option, none, some, List, [], ◌∷◌, length, ltb, leb, ◌==◌,
  if◌then◌else◌,
}
use hara_registry.Sha256.{Bytes, Text}
use hara_registry.Errors.{Result, ok, err, error, ◌>>=◌}

unfoldable pub hex_digit : ℕ → ℕ
hex_digit d = if ltb d 10 then b'0' + d else b'a' + (d - 10)

unfoldable pub hex_body : Bytes → Text
unfolding hex_digit
hex_body [] = []
hex_body (b ∷ bs) = hex_digit (b / 16) ∷ hex_digit (b % 16) ∷ hex_body bs

-- `"0x" + Buffer.from(b).toString("hex")`
unfoldable pub to_hex : Bytes → Text
unfolding hex_body
to_hex b = b'0' ∷ b'x' ∷ hex_body b

digit_value : ℕ → Option ℕ
digit_value c =
    if leb b'0' c && leb c b'9'
    then some (c - b'0')
    else if leb b'a' c && leb c b'f'
    then some (c - b'a' + 10)
    else if leb b'A' c && leb c b'F'
    then some (c - b'A' + 10)
    else none

pair_value : Option ℕ → Option ℕ → Option ℕ
pair_value (some hi) (some lo) = some (16 * hi + lo)
pair_value _ _ = none

abbrev decode_to : Option ℕ → Bytes → Bytes
decode_to none rest = []
decode_to (some b) rest = b ∷ rest

-- `Buffer.from(text, "hex")` stops at the first pair that is not hexadecimal.
buffer_from_hex : Text → Bytes
unfolding digit_value pair_value
buffer_from_hex [] = []
buffer_from_hex (c ∷ []) = []
buffer_from_hex (c ∷ d ∷ rest) =
    decode_to (pair_value (digit_value c) (digit_value d)) (buffer_from_hex rest)

-- `hex.startsWith("0x") ? hex.slice(2) : hex`
strip_0x : Text → Text
strip_0x [] = []
strip_0x (c ∷ []) = c ∷ []
strip_0x (c ∷ d ∷ rest) = if c == b'0' && d == b'x' then rest else c ∷ d ∷ rest

unfoldable pub from_hex : Text → Result Bytes
unfolding strip_0x buffer_from_hex
from_hex hex =
    let clean = strip_0x hex in
    if length clean % 2 == 0 then ok (buffer_from_hex clean) else err error

lower : ℕ → ℕ
lower c = if leb b'A' c && leb c b'Z' then c + 32 else c

-- `hex.toLowerCase()`, for texts in ASCII.
unfoldable pub lc : Text → Text
unfolding lower
lc [] = []
lc (c ∷ cs) = lower c ∷ lc cs

-- `texts.map(fromHex)`
unfoldable pub decode_all : List Text → Result (List Bytes)
decode_all [] = ok []
decode_all (p ∷ ps) = do b ← from_hex p; bs ← decode_all ps; ok (b ∷ bs)
