-- ===== src/Hex/RoundTrip.antt =====
-- Decoding what `to_hex` wrote.
use hara_registry.Prelude.{ℕ, ◌/◌, ◌%◌, ◌<◌, ◌≡◌, refl, arith, some, [], ◌∷◌, length, All, ap}
use hara_registry.Errors.{ok}
use hara_registry.Sha256.{Bytes, IsByte, Text}
use hara_registry.Hex.{
  to_hex, from_hex, lc, lower, hex_digit, hex_body, digit_value, pair_value, buffer_from_hex,
}

digit_value-hex_digit : (d : ℕ) → d < 16 → digit_value (hex_digit d) ≡ some d
unfolding digit_value hex_digit
digit_value-hex_digit d h = ground arith

lower-hex_digit : (d : ℕ) → d < 16 → lower (hex_digit d) ≡ hex_digit d
unfolding lower hex_digit
lower-hex_digit d h = ground arith

buffer-hex_body : (b : Bytes) → All IsByte b → buffer_from_hex (hex_body b) ≡ b
unfolding buffer_from_hex hex_body pair_value
buffer-hex_body [] h = refl
buffer-hex_body (b ∷ bs) (hb, hbs) =
    rw
      (
        digit_value-hex_digit (b / 16) (omega arith),
        digit_value-hex_digit (b % 16) (omega arith),
        buffer-hex_body bs hbs,
      )
      (ap (λ (x : ℕ). x ∷ bs) (omega arith))

length-hex_body : (b : Bytes) → length (hex_body b) % 2 ≡ 0
unfolding hex_body
length-hex_body [] = refl
length-hex_body (b ∷ bs) = omega (arith, length-hex_body bs)

-- fromHex reads back every sequence of bytes that toHex writes.
pub from_hex-to_hex : (b : Bytes) → All IsByte b → from_hex (to_hex b) ≡ ok b
unfolding from_hex to_hex
from_hex-to_hex b h = ground (arith, buffer-hex_body b h, length-hex_body b)

lc-hex_body : (b : Bytes) → All IsByte b → lc (hex_body b) ≡ hex_body b
unfolding lc hex_body
lc-hex_body [] h = refl
lc-hex_body (b ∷ bs) (hb, hbs) = rw (
  lower-hex_digit (b / 16) (omega arith),
  lower-hex_digit (b % 16) (omega arith),
  lc-hex_body bs hbs,
)

-- What `to_hex` writes is in lower case.
pub lc-to_hex : (b : Bytes) → All IsByte b → lc (to_hex b) ≡ to_hex b
unfolding lc to_hex
lc-to_hex b h = ground (arith, lc-hex_body b h)

pub to_hex_inj : (a b : Bytes) → All IsByte a → All IsByte b → to_hex a ≡ to_hex b → a ≡ b
to_hex_inj a b ha hb e = cc (from_hex-to_hex a ha, from_hex-to_hex b hb, ap from_hex e)

lower-lower : (c : ℕ) → lower (lower c) ≡ lower c
unfolding lower
lower-lower c = ground arith

-- A text in lower case stays as it is.
pub lc-lc : (t : Text) → lc (lc t) ≡ lc t
unfolding lc
lc-lc [] = refl
lc-lc (c ∷ cs) = rw (lower-lower c, lc-lc cs) refl
