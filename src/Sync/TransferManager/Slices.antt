-- ===== src/Sync/TransferManager/Slices.antt =====
-- A file cut into chunks of one size.
use veritas_sync.Base.{
  ℕ, zero, suc, ◌+◌, ◌*◌, ◌/◌, ◌%◌, ◌≤◌, ◌<◌, ◌≡◌, refl, sym, ◌∙◌, ◌≢◌, ◌⊎◌, inl, inr, false, [],
  ◌∷◌, some, arith, Str, str_key, nat_key, ltb, length, take, drop, get_elem?, Bool-cases,
}
use native.Mathlib.Nat.{mod-lt, div-add-mod', div-lt_iff_lt-mul, mul-le-mul_right}

-- The bytes of a chunk: a read at its place yields as many as there are, up to the size.
unfoldable pub chunk_of : ℕ → Str → ℕ → Str
chunk_of size content i = take size (drop (i * size) content)

get-take : (n : ℕ) (xs : Str) (j : ℕ) → j < n → get_elem? (take n xs) j ≡ get_elem? xs j
get-take zero xs j h = absurd (omega (arith, h))
get-take (suc n) [] j h = refl
get-take (suc n) (x ∷ xs) zero h = refl
get-take (suc n) (x ∷ xs) (suc j) h = get-take n xs j (omega (arith, h))

get-drop : (n : ℕ) (xs : Str) (j k : ℕ) → k ≡ n + j → get_elem? (drop n xs) j ≡ get_elem? xs k
get-drop zero xs j k h = let e : k ≡ j = omega (arith, h) in rw e refl
get-drop (suc n) [] j k h = refl
get-drop (suc n) (x ∷ xs) j zero h = absurd (omega (arith, h))
get-drop (suc n) (x ∷ xs) j (suc k) h = get-drop n xs j k (omega (arith, h))

length-take : (n : ℕ) (xs : Str) → length (take n xs) ≤ length xs
length-take zero xs = omega arith
length-take (suc n) [] = omega arith
length-take (suc n) (x ∷ xs) = omega (arith, length-take n xs)

length-take_size : (n : ℕ) (xs : Str) → length (take n xs) ≤ n
length-take_size zero xs = omega arith
length-take_size (suc n) [] = omega arith
length-take_size (suc n) (x ∷ xs) = omega (arith, length-take_size n xs)

-- What is left after a cut, if anything is, ends where the text ends.
drop_within : (n : ℕ) (xs : Str) → (drop n xs ≡ []) ⊎ (n + length (drop n xs) ≤ length xs)
drop_within zero xs = inr (omega arith)
drop_within (suc n) [] = inl refl
drop_within (suc n) (x ∷ xs) = elim (drop_within n xs) [
  | inl e ↦ inl e
  | inr h ↦ inr (omega (arith, h))
]

take_none : (n : ℕ) → take {A = ℕ} n [] ≡ []
take_none zero = refl
take_none (suc n) = refl

pub get-chunk_of :
    (size : ℕ) (content : Str) (i j : ℕ)
    → j < size
    → get_elem? (chunk_of size content i) j ≡ get_elem? content (i * size + j)
unfolding chunk_of
get-chunk_of size content i j h =
    get-take size (drop (i * size) content) j h ∙ get-drop (i * size) content j (i * size + j) refl

pub length-chunk_of : (size : ℕ) (content : Str) (i : ℕ) → length (chunk_of size content i) ≤ size
unfolding chunk_of
length-chunk_of size content i = length-take_size size (drop (i * size) content)

pub chunk_of_within :
    (size : ℕ) (content : Str) (i : ℕ)
    → chunk_of size content i ≢ []
    → i * size + length (chunk_of size content i) ≤ length content
unfolding chunk_of
chunk_of_within size content i n = elim (drop_within (i * size) content) [
  | inl e ↦ absurd (n (rw e (take_none size)))
  | inr h ↦ omega (arith, h, length-take size (drop (i * size) content))
]

-- Two different chunks do not overlap.
pub chunks_apart :
    (size i k j : ℕ)
    → k ≢ i
    → j < size
    → (k * size + j < i * size) ⊎ (i * size + size ≤ k * size + j)
chunks_apart size i k j n h = elim (Bool-cases (ltb k i)) [
  | inl e ↦
      let le : suc k * size ≤ i * size = mul-le-mul_right size (ground (arith, e)) in
      inl (omega (arith, le, h))
  | inr e ↦
      let le : suc i * size ≤ k * size = mul-le-mul_right size (below i k (λ q. n (sym q)) e) in
      inr (omega (arith, le))
]
  where
    below : (a b : ℕ) → a ≢ b → ltb b a ≡ false → suc a ≤ b
    below a b m g = ground (arith, m, g)

get_before : (xs : Str) (k x : ℕ) → get_elem? xs k ≡ some x → k < length xs
get_before [] k x e = cc
get_before (y ∷ xs) zero x e = omega arith
get_before (y ∷ xs) (suc k) x e = omega (arith, get_before xs k x e)

-- Every byte of a file that `total` chunks cover stands in one of them.
pub byte_in_chunk :
    (size total : ℕ) (content : Str) (k x : ℕ)
    → 0 < size
    → length content ≤ total * size
    → get_elem? content k ≡ some x
    → (i : ℕ) × (j : ℕ) × (i < total) × (j < size) × (k ≡ i * size + j)
byte_in_chunk size total content k x pos covers e = (
  k / size,
  k % size,
  (div-lt_iff_lt-mul pos).1 (omega (arith, covers, get_before content k x e)),
  mod-lt k pos,
  sym (div-add-mod' k size),
)
