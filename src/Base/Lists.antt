-- ===== src/Base/Lists.antt =====
-- Lists measured and cut by native numbers, and the tests on lists that the components share.
use Prim.Native.Nat.{ℕ, zero, suc, ◌+◌, ◌≤◌}
use mathlib.Core.Path.{◌≡◌, refl}
use mathlib.Core.Logic.{◌⊎◌, inl, inr}
use mathlib.Core.Bool.{Bool, true, false, ◌||◌}
use mathlib.Core.List.{List, [], ◌∷◌, ◌++◌, reverse, reverse-cons}
use mathlib.Core.Option.{Option, none, some}
use native.Mathlib.Omega.{arith}
use veritas_sync.Base.Tests.{if◌then◌else◌}
use veritas_sync.Base.Equality.{KeyEq, ◌==◌}

module _ {ℓ} {A : Type ℓ} where
  abbrev pub length : List A → ℕ
  length [] = 0
  length (x ∷ xs) = suc (length xs)

  abbrev pub take : ℕ → List A → List A
  take zero xs = []
  take (suc n) [] = []
  take (suc n) (x ∷ xs) = x ∷ take n xs

  abbrev pub drop : ℕ → List A → List A
  drop zero xs = xs
  drop (suc n) [] = []
  drop (suc n) (x ∷ xs) = drop n xs

  abbrev pub get_elem? : List A → ℕ → Option A
  get_elem? [] i = none
  get_elem? (x ∷ xs) zero = some x
  get_elem? (x ∷ xs) (suc i) = get_elem? xs i

  pub length-append : (xs ys : List A) → length (xs ++ ys) ≡ length xs + length ys
  length-append [] ys = omega arith
  length-append (x ∷ xs) ys = omega (arith, length-append xs ys)

module _ {ℓ} {A : Type ℓ} where
  pub drop-append : (xs ys : List A) → drop (length xs) (xs ++ ys) ≡ ys
  drop-append [] ys = refl
  drop-append (x ∷ xs) ys = drop-append xs ys

-- `x` stands in the list: which is a choice of its place.
module _ {A : Type 0} where
  abbrev pub In : A → List A → Type 0
  In x [] = ⊥
  In x (y ∷ ys) = (x ≡ y) ⊎ In x ys

  pub In-append_left : (x : A) (xs ys : List A) → In x xs → In x (xs ++ ys)
  In-append_left x (z ∷ xs) ys (inl e) = inl e
  In-append_left x (z ∷ xs) ys (inr m) = inr (In-append_left x xs ys m)
  In-append_left x [] ys m = elim m [ ]

  pub In-append_right : (x : A) (xs ys : List A) → In x ys → In x (xs ++ ys)
  In-append_right x [] ys m = m
  In-append_right x (z ∷ xs) ys m = inr (In-append_right x xs ys m)

  pub In-append : (x : A) (xs ys : List A) → In x (xs ++ ys) → In x xs ⊎ In x ys
  In-append x [] ys m = inr m
  In-append x (z ∷ xs) ys (inl e) = inl (inl e)
  In-append x (z ∷ xs) ys (inr m) = elim (In-append x xs ys m) [
    | inl a ↦ inl (inr a)
    | inr b ↦ inr b
  ]

-- The elements that pass a test, in order.
module _ {A : Type 0} where
  abbrev pub keep_if : (A → Bool) → List A → List A
  keep_if p [] = []
  keep_if p (x ∷ xs) = let rest = keep_if p xs in if p x then x ∷ rest else rest

  pub length-keep_if : (p : A → Bool) (xs : List A) → length (keep_if p xs) ≤ length xs
  length-keep_if p [] = omega arith
  length-keep_if p (x ∷ xs) = ground (arith, length-keep_if p xs)

  pub In-keep_if :
      (p : A → Bool) (x : A) (xs : List A) → In x (keep_if p xs) → In x xs × (p x ≡ true)
  In-keep_if p x [] m = elim m [ ]
  In-keep_if p x (y ∷ ys) m = ground (arith, In-keep_if p x ys)

  pub keep_if-In : (p : A → Bool) (x : A) (xs : List A) → In x xs → p x ≡ true → In x (keep_if p xs)
  keep_if-In p x [] m h = elim m [ ]
  keep_if-In p x (y ∷ ys) (inl e) h = ground arith
  keep_if-In p x (y ∷ ys) (inr m) h = ground (arith, keep_if-In p x ys m h)

module _ {ℓ} {A : Type ℓ} where
  abbrev pub any : (A → Bool) → List A → Bool
  any p [] = false
  any p (x ∷ xs) = p x || any p xs

  abbrev pub All {κ} : (A → Type κ) → List A → Type κ
  All P [] = Unit
  All P (x ∷ xs) = P x × All P xs

module _ {ℓ} {A : Type ℓ} ⦃e : KeyEq A⦄ where
  abbrev pub contains : List A → A → Bool
  contains [] a = false
  contains (x ∷ xs) a = x == a || contains xs a

module _ {ℓ κ} {A : Type ℓ} (P : A → Type κ) where
  pub All-append : (xs ys : List A) → All P xs → All P ys → All P (xs ++ ys)
  All-append [] ys hx hy = hy
  All-append (x ∷ xs) ys hx hy = (hx.0, All-append xs ys hx.1 hy)

  pub All-reverse : (xs : List A) → All P xs → All P (reverse xs)
  All-reverse [] h = tt
  All-reverse (x ∷ xs) h =
      rw (reverse-cons x xs) (All-append (reverse xs) (x ∷ []) (All-reverse xs h.1) (h.0, tt))
