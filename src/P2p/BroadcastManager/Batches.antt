-- ===== src/P2p/BroadcastManager/Batches.antt =====
-- src/p2p/BroadcastManager.cpp: a list cut into batches of one size.
use native.Mathlib.Nat.{mod-lt, div-add-mod'}
use veritas_sync.Base.{
  ℕ, zero, suc, ◌+◌, ◌-◌, ◌*◌, ◌/◌, ◌≤◌, ◌<◌, ◌≡◌, refl, sym, ap, ◌∙◌, List, [], ◌∷◌, ◌++◌, arith,
  length, take, drop, All,
}

module _ {ℓ} {A : Type ℓ} where
  unfoldable pub total_batches : ℕ → List A → ℕ
  total_batches size xs = (length xs + size - 1) / size

  unfoldable pub batch : ℕ → ℕ → List A → List A
  batch size i xs = take size (drop (i * size) xs)

  unfoldable pub batches_from : ℕ → ℕ → ℕ → List A → List (List A)
  unfolding batch
  batches_from size zero i xs = []
  batches_from size (suc left) i xs = batch size i xs ∷ batches_from size left (suc i) xs

  unfoldable pub batches : ℕ → List A → List (List A)
  unfolding batches_from total_batches
  batches size xs = batches_from size (total_batches size xs) 0 xs

  unfoldable pub concat : List (List A) → List A
  concat [] = []
  concat (part ∷ parts) = part ++ concat parts

  pub append_assoc : (xs ys zs : List A) → (xs ++ ys) ++ zs ≡ xs ++ (ys ++ zs)
  append_assoc [] ys zs = refl
  append_assoc (x ∷ xs) ys zs = ap (λ t. x ∷ t) (append_assoc xs ys zs)

  pub append_none : (xs : List A) → xs ++ [] ≡ xs
  append_none [] = refl
  append_none (x ∷ xs) = ap (λ t. x ∷ t) (append_none xs)

  take-drop : (n : ℕ) (xs : List A) → take n xs ++ drop n xs ≡ xs
  take-drop zero xs = refl
  take-drop (suc n) [] = refl
  take-drop (suc n) (x ∷ xs) = ap (λ t. x ∷ t) (take-drop n xs)

  drop_twice : (m n k : ℕ) (xs : List A) → k ≡ m + n → drop n (drop m xs) ≡ drop k xs
  drop_twice zero n k xs e = let e' : k ≡ n = omega (arith, e) in rw e' refl
  drop_twice (suc m) n zero xs e = absurd (omega (arith, e))
  drop_twice (suc m) zero (suc k) [] e = refl
  drop_twice (suc m) (suc n) (suc k) [] e = refl
  drop_twice (suc m) n (suc k) (x ∷ xs) e = drop_twice m n k xs (omega (arith, e))

  drop_all : (n : ℕ) (xs : List A) → length xs ≤ n → drop n xs ≡ []
  drop_all zero [] h = refl
  drop_all zero (x ∷ xs) h = absurd (omega (arith, h))
  drop_all (suc n) [] h = refl
  drop_all (suc n) (x ∷ xs) h = drop_all n xs (omega (arith, h))

  -- The batches and what is left after them.
  batch-drop :
      (size i : ℕ) (xs : List A) → batch size i xs ++ drop (suc i * size) xs ≡ drop (i * size) xs
  unfolding batch
  batch-drop size i xs =
      ap (λ r. take size (drop (i * size) xs) ++ r)
        (sym (drop_twice (i * size) size (suc i * size) xs (omega arith)))
      ∙ take-drop size (drop (i * size) xs)

  pub concat-batches_from :
      (size left i k : ℕ) (xs : List A)
      → k ≡ i + left
      → concat (batches_from size left i xs) ++ drop (k * size) xs ≡ drop (i * size) xs
  unfolding concat batches_from
  concat-batches_from size zero i k xs e = let e' : k ≡ i = omega (arith, e) in rw e' refl
  concat-batches_from size (suc left) i k xs e =
      append_assoc (batch size i xs) (concat (batches_from size left (suc i) xs))
        (drop (k * size) xs)
      ∙ ap (λ r. batch size i xs ++ r)
          (concat-batches_from size left (suc i) k xs (omega (arith, e)))
      ∙ batch-drop size i xs

  total_batches-covers :
      (size : ℕ) (xs : List A) → 0 < size → length xs ≤ total_batches size xs * size
  unfolding total_batches
  total_batches-covers size xs pos =
      omega
        (arith, div-add-mod' (length xs + size - 1) size, mod-lt (length xs + size - 1) pos, pos)

  -- All batches together are the list.
  pub concat-batches : (size : ℕ) (xs : List A) → 0 < size → concat (batches size xs) ≡ xs
  unfolding batches
  concat-batches size xs pos =
      let first : 0 * size ≡ 0 = omega arith in
      sym (append_none (concat (batches_from size (total_batches size xs) 0 xs)))
      ∙ ap (λ r. concat (batches_from size (total_batches size xs) 0 xs) ++ r)
          (sym (drop_all (total_batches size xs * size) xs (total_batches-covers size xs pos)))
      ∙ concat-batches_from size (total_batches size xs) 0 (total_batches size xs) xs (omega arith)
      ∙ rw first refl

  length-take_size : (n : ℕ) (xs : List A) → length (take n xs) ≤ n
  length-take_size zero xs = omega arith
  length-take_size (suc n) [] = omega arith
  length-take_size (suc n) (x ∷ xs) = omega (arith, length-take_size n xs)

  pub batches_from-small :
      (size left i : ℕ) (xs : List A)
      → All (λ part. length part ≤ size) (batches_from size left i xs)
  unfolding batches_from batch
  batches_from-small size zero i xs = tt
  batches_from-small size (suc left) i xs =
      (length-take_size size (drop (i * size) xs), batches_from-small size left (suc i) xs)
