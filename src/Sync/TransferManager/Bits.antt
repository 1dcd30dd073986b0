-- ===== src/Sync/TransferManager/Bits.antt =====
-- The bitmap of the received chunks: its bits, its length and their count.
use veritas_sync.Base.{
  ℕ, zero, suc, ◌≤◌, ◌<◌, ◌≡◌, refl, ap, ◌≢◌, Bool, true, false, List, [], ◌∷◌, some, arith,
  str_key, nat_key, length, get_elem?,
}
use veritas_sync.Sync.TransferManager.State.{replicate_false, resize, set_bit, count_true}

pub get-set_bit :
    (i : ℕ) (bitmap : List Bool) → i < length bitmap → get_elem? (set_bit i bitmap) i ≡ some true
unfolding set_bit
get-set_bit i [] h = absurd (omega (arith, h))
get-set_bit zero (b ∷ bitmap) h = refl
get-set_bit (suc i) (b ∷ bitmap) h = get-set_bit i bitmap (omega (arith, h))

pub get-set_bit_other :
    (i k : ℕ) (bitmap : List Bool) → k ≢ i → get_elem? (set_bit i bitmap) k ≡ get_elem? bitmap k
unfolding set_bit
get-set_bit_other i k [] n = refl
get-set_bit_other zero zero (b ∷ bitmap) n = absurd (n refl)
get-set_bit_other zero (suc k) (b ∷ bitmap) n = refl
get-set_bit_other (suc i) zero (b ∷ bitmap) n = refl
get-set_bit_other (suc i) (suc k) (b ∷ bitmap) n =
    get-set_bit_other i k bitmap (λ e. n (ap (λ m. suc m) e))

pub length-set_bit : (i : ℕ) (bitmap : List Bool) → length (set_bit i bitmap) ≡ length bitmap
unfolding set_bit
length-set_bit i [] = refl
length-set_bit zero (b ∷ bitmap) = refl
length-set_bit (suc i) (b ∷ bitmap) = omega (arith, length-set_bit i bitmap)

pub count_true-set_bit :
    (i : ℕ) (bitmap : List Bool)
    → get_elem? bitmap i ≡ some false
    → count_true (set_bit i bitmap) ≡ suc (count_true bitmap)
unfolding set_bit count_true
count_true-set_bit i [] e = cc
count_true-set_bit zero (true ∷ bitmap) e = cc
count_true-set_bit zero (false ∷ bitmap) e = refl
count_true-set_bit (suc i) (true ∷ bitmap) e = omega (arith, count_true-set_bit i bitmap e)
count_true-set_bit (suc i) (false ∷ bitmap) e = count_true-set_bit i bitmap e

pub count_true-le-length : (bitmap : List Bool) → count_true bitmap ≤ length bitmap
unfolding count_true
count_true-le-length [] = omega arith
count_true-le-length (true ∷ bitmap) = omega (arith, count_true-le-length bitmap)
count_true-le-length (false ∷ bitmap) = omega (arith, count_true-le-length bitmap)

-- A bit that is not set keeps the count below the length.
pub count_true-lt-length :
    (i : ℕ) (bitmap : List Bool)
    → get_elem? bitmap i ≡ some false
    → count_true bitmap < length bitmap
unfolding count_true
count_true-lt-length i [] e = cc
count_true-lt-length zero (true ∷ bitmap) e = cc
count_true-lt-length zero (false ∷ bitmap) e = omega (arith, count_true-le-length bitmap)
count_true-lt-length (suc i) (true ∷ bitmap) e = omega (arith, count_true-lt-length i bitmap e)
count_true-lt-length (suc i) (false ∷ bitmap) e = omega (arith, count_true-lt-length i bitmap e)

pub get_within :
    (i : ℕ) (bitmap : List Bool) → i < length bitmap → (b : Bool) × (get_elem? bitmap i ≡ some b)
get_within i [] h = absurd (omega (arith, h))
get_within zero (b ∷ bitmap) h = (b, refl)
get_within (suc i) (b ∷ bitmap) h = get_within i bitmap (omega (arith, h))

-- Where every bit is set the count is the length.
pub count_true_full :
    (bitmap : List Bool)
    → ((i : ℕ) → i < length bitmap → get_elem? bitmap i ≡ some true)
    → count_true bitmap ≡ length bitmap
unfolding count_true
count_true_full [] f = refl
count_true_full (true ∷ bitmap) f =
    omega (arith, count_true_full bitmap (λ i h. f (suc i) (omega (arith, h))))
count_true_full (false ∷ bitmap) f = let e = f 0 (omega arith) in cc

pub length-replicate_false : (n : ℕ) → length (replicate_false n) ≡ n
unfolding replicate_false
length-replicate_false zero = refl
length-replicate_false (suc n) = omega (arith, length-replicate_false n)

pub count_true-replicate_false : (n : ℕ) → count_true (replicate_false n) ≡ 0
unfolding replicate_false count_true
count_true-replicate_false zero = refl
count_true-replicate_false (suc n) = count_true-replicate_false n

pub get-replicate_false : (n i : ℕ) → get_elem? (replicate_false n) i ≢ some true
unfolding replicate_false
get-replicate_false zero i e = cc
get-replicate_false (suc n) zero e = cc
get-replicate_false (suc n) (suc i) e = get-replicate_false n i e

pub resize-none : (n : ℕ) → resize n [] ≡ replicate_false n
unfolding resize replicate_false
resize-none zero = refl
resize-none (suc n) = refl

pub length-resize : (n : ℕ) (bitmap : List Bool) → length (resize n bitmap) ≡ n
unfolding resize
length-resize zero bitmap = refl
length-resize (suc n) [] = omega (arith, length-replicate_false n)
length-resize (suc n) (b ∷ bitmap) = omega (arith, length-resize n bitmap)
