-- ===== src/AnchorWorker/Merkle/Binding.antt =====
-- What a root of merkleRoot says of the leaves.
use hara_registry.Prelude.{
  ℕ, zero, suc, ◌/◌, ◌%◌, ◌^◌, ◌≤◌, ◌<◌, ◌≡◌, ◌≢◌, refl, sym, ap, ◌∙◌, arith, List, [], ◌∷◌, ◌++◌,
  length, length-append, map, ◌⊎◌, inl, inr, All, ◌=t=◌, =t=_iff, Bool-cases, append_inj_left,
}
use native.Mathlib.Nat.{pow-suc}
use hara_registry.Errors.{ok, ok_inj}
use hara_registry.Sha256.{Bytes}
use hara_registry.AnchorService.{big_endian}
use hara_registry.AnchorWorker.Merkle.{
  Keccak256, MerkleResult, concat_hash, fit_leaf, merkle_root, leaf_from_event,
}
use hara_registry.AnchorWorker.Merkle.Rounds.{up, climb, Is32, up_32, length-up, merkle_root_climb}

pub length-big_endian : (n v : ℕ) → length (big_endian n v) ≡ n
unfolding big_endian
length-big_endian zero v = refl
length-big_endian (suc n) v =
    omega
      (arith, length-append (big_endian n (v / 256)) (v % 256 ∷ []), length-big_endian n (v / 256))

-- A number that fits is known from its bytes.
pub big_endian_inj :
    (n v w : ℕ) → v < 256 ^ n → w < 256 ^ n → big_endian n v ≡ big_endian n w → v ≡ w
unfolding big_endian
big_endian_inj zero v w h k e = omega arith
big_endian_inj (suc n) v w h k e =
    let (p, q) =
      append_inj_left (big_endian n (v / 256)) _ (big_endian n (w / 256)) _
        (omega (arith, length-big_endian n (v / 256), length-big_endian n (w / 256))) e in
    let last : v % 256 ≡ w % 256 = cc q in
    let high =
      big_endian_inj n (v / 256) (w / 256) (omega (arith, pow-suc 256 n))
        (omega (arith, pow-suc 256 n)) p in
    omega arith

module _ ⦃kec : Keccak256⦄ where
  -- Two different messages with one digest.
  abbrev pub Collision : Type 0
  Collision = (a : Bytes) × (b : Bytes) × (a ≢ b) × (kec.digest a ≡ kec.digest b)

  pub digest_inj : (a b : Bytes) → kec.digest a ≡ kec.digest b → (a ≡ b) ⊎ Collision
  digest_inj a b h = elim (Bool-cases (a =t= b)) [
    | inl same ↦ inl ((=t=_iff a b).0 same)
    | inr differ ↦ inr (a, b, (λ e. cc ((=t=_iff a b).1 e)), h)
  ]

  concat_hash_inj :
      (a b c d : Bytes)
      → length a ≡ length c
      → concat_hash a b ≡ concat_hash c d
      → ((a ≡ c) × (b ≡ d)) ⊎ Collision
  unfolding concat_hash
  concat_hash_inj a b c d len h = elim (digest_inj (a ++ b) (c ++ d) h) [
    | inl same ↦ inl (append_inj_left a b c d len same)
    | inr x ↦ inr x
  ]

  up_inj :
      (xs ys : List Bytes)
      → All Is32 xs
      → All Is32 ys
      → length xs ≡ length ys
      → up xs ≡ up ys
      → (xs ≡ ys) ⊎ Collision
  up_inj [] [] h k len e = inl refl
  up_inj [] (y ∷ ys) h k len e = absurd (omega arith)
  up_inj (x ∷ xs) [] h k len e = absurd (omega arith)
  up_inj (x ∷ []) (y ∷ []) h k len e = elim (concat_hash_inj x x y y (omega arith) (cc)) [
    | inl same ↦ inl (cc)
    | inr c ↦ inr c
  ]
  up_inj (x ∷ []) (y ∷ z ∷ ys) h k len e = absurd (omega arith)
  up_inj (x ∷ w ∷ xs) (y ∷ []) h k len e = absurd (omega arith)
  up_inj (x ∷ w ∷ xs) (y ∷ z ∷ ys) (hx, (hw, hs)) (ky, (kz, ks)) len e =
      let rest = up_inj xs ys hs ks (omega arith) (cc) in
      elim (concat_hash_inj x w y z (omega arith) (cc)) [
        | inl (p, q) ↦ elim rest [ inl same ↦ inl (cc) | inr c ↦ inr c ]
        | inr c ↦ inr c
      ]

  climb_inj :
      (n : ℕ) (xs ys : List Bytes)
      → All Is32 xs
      → All Is32 ys
      → length xs ≡ length ys
      → climb n xs ≡ climb n ys
      → (xs ≡ ys) ⊎ Collision
  climb_inj zero xs ys h k len e = inl e
  climb_inj (suc n) [] [] h k len e = inl refl
  climb_inj (suc n) [] (y ∷ ys) h k len e = absurd (omega arith)
  climb_inj (suc n) (x ∷ xs) [] h k len e = absurd (omega arith)
  climb_inj (suc n) (x ∷ []) (y ∷ []) h k len e = inl e
  climb_inj (suc n) (x ∷ []) (y ∷ z ∷ ys) h k len e = absurd (omega arith)
  climb_inj (suc n) (x ∷ w ∷ xs) (y ∷ []) h k len e = absurd (omega arith)
  climb_inj (suc n) (x ∷ w ∷ xs) (y ∷ z ∷ ys) h k len e =
      elim (climb_inj n (up (x ∷ w ∷ xs)) (up (y ∷ z ∷ ys)) (up_32 (x ∷ w ∷ xs))
        (up_32 (y ∷ z ∷ ys)) (omega (arith, length-up xs, length-up ys)) e) [
          | inl same ↦ up_inj (x ∷ w ∷ xs) (y ∷ z ∷ ys) h k len same
          | inr c ↦ inr c
        ]

  fit_32 : (leaves : List Bytes) → All Is32 leaves → map fit_leaf leaves ≡ leaves
  unfolding fit_leaf
  fit_32 [] h = refl
  fit_32 (l ∷ ls) (h, hs) = let rest = fit_32 ls hs in ground arith

  same_result :
      (xs ys : List Bytes) (r q : Bytes) (result : MerkleResult)
      → All Is32 xs
      → All Is32 ys
      → climb (length xs) xs ≡ r ∷ []
      → climb (length ys) ys ≡ q ∷ []
      → result ≡ record { root = r; leaf_count = length xs }
      → result ≡ record { root = q; leaf_count = length ys }
      → (xs ≡ ys) ⊎ Collision
  same_result xs ys r q result h k e f g g' =
      let len : length xs ≡ length ys = cc (ap (λ z. z.leaf_count) g, ap (λ z. z.leaf_count) g') in
      let root : r ≡ q = cc (ap (λ z. z.root) g, ap (λ z. z.root) g') in
      let e' : climb (length ys) xs ≡ r ∷ [] = rw len at e in
      climb_inj (length ys) xs ys h k len (cc (e', f, root))

  -- Lists of 32-byte leaves for which merkleRoot gives one root and one count are one list, or a
  -- collision is in hand.
  pub merkle_root_inj :
      (xs ys : List Bytes) (result : MerkleResult)
      → 1 ≤ length xs
      → 1 ≤ length ys
      → All Is32 xs
      → All Is32 ys
      → merkle_root xs ≡ ok result
      → merkle_root ys ≡ ok result
      → (xs ≡ ys) ⊎ Collision
  merkle_root_inj xs ys result h k hs ks e f =
      let (r, climbed, answer) = merkle_root_climb xs h in
      let (q, climbed', answer') = merkle_root_climb ys k in
      same_result xs ys r q result hs ks (rw (fit_32 xs hs) at climbed)
        (rw (fit_32 ys ks) at climbed') (ok_inj (sym e ∙ answer)) (ok_inj (sym f ∙ answer'))

  pub length-leaf_from_event :
      (tx_hash : Bytes) (log_index : ℕ) → Is32 (leaf_from_event tx_hash log_index)
  unfolding leaf_from_event
  length-leaf_from_event tx_hash log_index = kec.length-digest _

  pub leaf_from_event_inj :
      (tx_hash tx_hash' : Bytes) (log_index log_index' : ℕ)
      → length tx_hash ≡ length tx_hash'
      → log_index < 2 ^ 32
      → log_index' < 2 ^ 32
      → leaf_from_event tx_hash log_index ≡ leaf_from_event tx_hash' log_index'
      → ((tx_hash ≡ tx_hash') × (log_index ≡ log_index')) ⊎ Collision
  unfolding leaf_from_event
  leaf_from_event_inj t t' i i' len h k e =
      elim (digest_inj (t ++ big_endian 4 i) (t' ++ big_endian 4 i') e) [
        | inl same ↦
            let (p, q) = append_inj_left t _ t' _ len same in inl (p, big_endian_inj 4 i i' h k q)
        | inr c ↦ inr c
      ]
