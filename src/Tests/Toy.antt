-- ===== src/Tests/Toy.antt =====
-- A stand-in for SHA-256 that can be run: 32 bytes made of the sum and the length of the message.
use hara_registry.Prelude.{ℕ, zero, suc, ◌+◌, ◌*◌, ◌/◌, ◌%◌, ◌≡◌, refl, arith, [], ◌∷◌, length, All}
use hara_registry.Sha256.{Bytes, IsByte, Sha256}

weighted_sum : Bytes → ℕ
weighted_sum [] = 7
weighted_sum (b ∷ bs) = (b + 3 * weighted_sum bs) % 65521

repeat : ℕ → ℕ → Bytes
repeat zero b = []
repeat (suc n) b = b ∷ repeat n b

repeat-IsByte : (n b : ℕ) → IsByte b → All IsByte (repeat n b)
unfolding repeat
repeat-IsByte zero b h = tt
repeat-IsByte (suc n) b h = (h, repeat-IsByte n b h)

unfoldable pub toy_digest : Bytes → Bytes
unfolding weighted_sum repeat
toy_digest m = (weighted_sum m % 256) ∷ repeat 31 (weighted_sum m / 256 % 256)

pub toy_digest-IsByte : (m : Bytes) → All IsByte (toy_digest m)
unfolding toy_digest
toy_digest-IsByte m = (omega arith, repeat-IsByte 31 _ (omega arith))

pub length-toy_digest : (m : Bytes) → length (toy_digest m) ≡ 32
unfolding toy_digest
length-toy_digest m = refl

instance abbrev pub toy : Sha256
toy = record {
  digest = toy_digest;
  digest-IsByte = toy_digest-IsByte;
  length-digest = length-toy_digest;
}
