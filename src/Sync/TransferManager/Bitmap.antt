-- ===== src/Sync/TransferManager/Bitmap.antt =====
-- src/sync/TransferManager.cpp, serialize_bitmap and deserialize_bitmap: the received chunks of a file
-- as bytes, the first chunk in the lowest bit.
use native.Mathlib.Nat.{two-pow-succ}
use veritas_sync.Base.{
  ℕ, zero, suc, ◌+◌, ◌*◌, ◌/◌, ◌%◌, ◌^◌, ◌≤◌, ◌<◌, ◌≡◌, refl, ap, ◌∙◌, inl, inr, Bool, true, false,
  List, [], ◌∷◌, Option, none, some, arith, str_key, nat_key, nat_eq, if◌then◌else◌, length,
  get_elem?, Bool-cases,
}

abbrev pub bit : Bool → ℕ
bit true = 1
bit false = 0

-- The loop of `serialize_bitmap` from bit `k` of a byte on, which is `byte` so far. A bit that is set
-- was not, so `|=` adds its weight.
unfoldable pub pack : ℕ → ℕ → List Bool → List ℕ
pack k byte [] = if nat_eq k 0 then [] else byte ∷ []
pack k byte (b ∷ bitmap) =
    let full = nat_eq k 7 in
    let byte' = byte + 2 ^ k * bit b in
    let rest = pack (if full then 0 else k + 1) (if full then 0 else byte') bitmap in
    if full then byte' ∷ rest else rest

unfoldable pub serialize_bitmap : List Bool → List ℕ
unfolding pack
serialize_bitmap bitmap = pack 0 0 bitmap

-- Past the end of the data the source reads out of bounds: `stray` is whatever bit is found there.
abbrev pub byte_bit : Bool → Option ℕ → ℕ → Bool
byte_bit stray none k = stray
byte_bit stray (some byte) k = nat_eq (byte / 2 ^ k % 2) 1

unfoldable pub read_bit : (ℕ → Bool) → List ℕ → ℕ → Bool
read_bit stray packed i = byte_bit (stray i) (get_elem? packed (i / 8)) (i % 8)

unfoldable pub read_bits : (ℕ → Bool) → List ℕ → ℕ → ℕ → List Bool
unfolding read_bit
read_bits stray packed i zero = []
read_bits stray packed i (suc count) =
    read_bit stray packed i ∷ read_bits stray packed (i + 1) count

unfoldable pub deserialize_bitmap : (ℕ → Bool) → List ℕ → ℕ → List Bool
unfolding read_bits
deserialize_bitmap stray packed count = read_bits stray packed 0 count

bit_le : (b : Bool) → bit b ≤ 1
bit_le true = omega arith
bit_le false = omega arith

bit_test : (x : ℕ) (b : Bool) → x ≡ bit b → nat_eq x 1 ≡ b
bit_test x true e = ground (arith, e)
bit_test x false e = ground (arith, e)

-- Bit `k` of a byte whose lower bits are `low` and whose higher ones `high`.
middle_bit :
    (k low high b : ℕ)
    → k < 8
    → low < 2 ^ k
    → b ≤ 1
    → (low + 2 ^ k * b + 2 ^ (k + 1) * high) / 2 ^ k % 2 ≡ b
middle_bit zero low high b h l t = omega arith
middle_bit (suc zero) low high b h l t = omega arith
middle_bit (suc (suc zero)) low high b h l t = omega arith
middle_bit (suc (suc (suc zero))) low high b h l t = omega arith
middle_bit (suc (suc (suc (suc zero)))) low high b h l t = omega arith
middle_bit (suc (suc (suc (suc (suc zero))))) low high b h l t = omega arith
middle_bit (suc (suc (suc (suc (suc (suc zero)))))) low high b h l t = omega arith
middle_bit (suc (suc (suc (suc (suc (suc (suc zero))))))) low high b h l t = omega arith
middle_bit (suc (suc (suc (suc (suc (suc (suc (suc k)))))))) low high b h l t = absurd (omega arith)

nat_eq_suc : (k : ℕ) → nat_eq (k + 1) 0 ≡ false
nat_eq_suc k = ground arith

pow_next : (k : ℕ) → 2 ^ (k + 1) ≡ 2 ^ k + 2 ^ k
pow_next k = let e : k + 1 ≡ suc k = omega arith in rw e (two-pow-succ k)

doubled :
    (x k b high : ℕ)
    → x + 2 ^ (k + 1) * b + 2 ^ (k + 1 + 1) * high ≡ x + 2 ^ (k + 1) * (b + 2 * high)
doubled x k b high = rw (pow_next (k + 1)) (omega arith)

-- What comes after the bits that a byte has so far: they stay, and the rest is higher.
pack_head :
    (k byte : ℕ) (b : Bool) (bitmap : List Bool)
    → k < 8
    → (high : ℕ) × (get_elem? (pack k byte (b ∷ bitmap)) 0
        ≡ some (byte + 2 ^ k * bit b + 2 ^ (k + 1) * high))
unfolding pack
pack_head k byte b [] h = elim (Bool-cases (nat_eq k 7)) [
  | inl e ↦ (0, rw e (ap some (omega arith)))
  | inr e ↦ (0, rw (e, nat_eq_suc k) (ap some (omega arith)))
]
pack_head k byte b (c ∷ bitmap) h = elim (Bool-cases (nat_eq k 7)) [
  | inl e ↦ (0, rw e (ap some (omega arith)))
  | inr e ↦
      let (high, g) = pack_head (k + 1) (byte + 2 ^ k * bit b) c bitmap (ground (arith, e, h)) in
      (bit c + 2 * high, rw e (g ∙ ap some (doubled (byte + 2 ^ k * bit b) k (bit c) high)))
]

read_bit-shift :
    (stray : ℕ → Bool) (byte : ℕ) (packed : List ℕ) (i : ℕ)
    → read_bit stray (byte ∷ packed) (i + 8) ≡ read_bit (λ j. stray (j + 8)) packed i
unfolding read_bit
read_bit-shift stray byte packed i =
    let q : (i + 8) / 8 ≡ suc (i / 8) = omega arith in
    let r : (i + 8) % 8 ≡ i % 8 = omega arith in rw (q, r) refl

read_bits-shift :
    (stray : ℕ → Bool) (byte : ℕ) (packed : List ℕ) (i n : ℕ)
    → read_bits stray (byte ∷ packed) (i + 8) n ≡ read_bits (λ j. stray (j + 8)) packed i n
unfolding read_bits
read_bits-shift stray byte packed i zero = refl
read_bits-shift stray byte packed i (suc n) =
    let next : i + 8 + 1 ≡ i + 1 + 8 = omega arith in
    rw (read_bit-shift stray byte packed i, next, read_bits-shift stray byte packed (i + 1) n) refl

read_bit-head :
    (stray : ℕ → Bool) (packed : List ℕ) (k low high : ℕ) (b : Bool)
    → k < 8
    → low < 2 ^ k
    → get_elem? packed 0 ≡ some (low + 2 ^ k * bit b + 2 ^ (k + 1) * high)
    → read_bit stray packed k ≡ b
unfolding read_bit
read_bit-head stray packed k low high b h l e =
    let q : k / 8 ≡ 0 = omega arith in
    let r : k % 8 ≡ k = omega arith in
    rw (q, r, e) (bit_test _ b (middle_bit k low high (bit b) h l (bit_le b)))

grow : (w byte : ℕ) (b : Bool) → byte < w → byte + w * bit b < w + w
grow w byte true l = omega (arith, l)
grow w byte false l = omega (arith, l)

pack_full :
    (k byte : ℕ) (b : Bool) (bitmap : List Bool)
    → nat_eq k 7 ≡ true
    → pack k byte (b ∷ bitmap) ≡ (byte + 2 ^ k * bit b) ∷ pack 0 0 bitmap
unfolding pack
pack_full k byte b bitmap e = rw e refl

pack_later :
    (k byte : ℕ) (b : Bool) (bitmap : List Bool)
    → nat_eq k 7 ≡ false
    → pack k byte (b ∷ bitmap) ≡ pack (k + 1) (byte + 2 ^ k * bit b) bitmap
unfolding pack
pack_later k byte b bitmap e = rw e refl

read_bits_none : (stray : ℕ → Bool) (packed : List ℕ) (i : ℕ) → read_bits stray packed i 0 ≡ []
unfolding read_bits
read_bits_none stray packed i = refl

read_bits_next :
    (stray : ℕ → Bool) (packed : List ℕ) (i n : ℕ)
    → read_bits stray packed i (suc n) ≡ read_bit stray packed i ∷ read_bits stray packed (i + 1) n
unfolding read_bits
read_bits_next stray packed i n = refl

read_bits-pack :
    (stray : ℕ → Bool) (bitmap : List Bool) (k byte : ℕ)
    → k < 8
    → byte < 2 ^ k
    → read_bits stray (pack k byte bitmap) k (length bitmap) ≡ bitmap
read_bits-pack stray [] k byte h l = read_bits_none stray (pack k byte []) k
read_bits-pack stray (b ∷ bitmap) k byte h l =
    let (high, g) = pack_head k byte b bitmap h in
    let first = read_bit-head stray (pack k byte (b ∷ bitmap)) k byte high b h l g in
    read_bits_next stray (pack k byte (b ∷ bitmap)) k (length bitmap)
    ∙ rw first (
        ap (λ bs. b ∷ bs)
          (elim (Bool-cases (nat_eq k 7)) [
            | inl e ↦
                let next : k + 1 ≡ 0 + 8 = ground (arith, e) in
                rw (pack_full k byte b bitmap e, next)
                  (read_bits-shift stray (byte + 2 ^ k * bit b) (pack 0 0 bitmap) 0 (length bitmap)
                    ∙ read_bits-pack (λ j. stray (j + 8)) bitmap 0 0 (omega arith) (omega arith))
            | inr e ↦ rw (pack_later k byte b bitmap e) (
                read_bits-pack stray bitmap (k + 1) (byte + 2 ^ k * bit b) (ground (arith, e, h))
                  (rw (pow_next k) (grow (2 ^ k) byte b l)))
          ]))

-- What is saved of the received chunks is restored: the bytes, read for as many chunks as there
-- are, give the bitmap back, whatever lies behind them.
pub deserialize-serialize_bitmap :
    (stray : ℕ → Bool) (bitmap : List Bool)
    → deserialize_bitmap stray (serialize_bitmap bitmap) (length bitmap) ≡ bitmap
unfolding deserialize_bitmap serialize_bitmap
deserialize-serialize_bitmap stray bitmap =
    read_bits-pack stray bitmap 0 0 (omega arith) (omega arith)
