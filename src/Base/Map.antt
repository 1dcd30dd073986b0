-- ===== src/Base/Map.antt =====
-- `std::unordered_map` as an association list over keys with an equality test. The order of the
-- list stands for the iteration order, which the C++ standard leaves open.
use Prim.Native.Nat.{◌≤◌}
use mathlib.Core.Path.{◌≡◌, refl}
use mathlib.Core.Bool.{true}
use mathlib.Core.List.{List, [], ◌∷◌, map}
use mathlib.Core.Option.{Option, none, some}
use native.Mathlib.Omega.{arith}
use veritas_sync.Base.Tests.{if◌then◌else◌}
use veritas_sync.Base.Equality.{KeyEq, ◌==◌}
use veritas_sync.Base.Lists.{length}

abbrev pub Map {ℓ κ} : Type ℓ → Type κ → Type (ℓ ⊔ κ)
Map K V = List (K × V)

abbrev pub keys {ℓ κ} : {K : Type ℓ} {V : Type κ} → Map K V → List K
keys = map (λ (k, _). k)

abbrev pub values {ℓ κ} : {K : Type ℓ} {V : Type κ} → Map K V → List V
values = map (λ (_, v). v)

module _ {ℓ κ} {K : Type ℓ} {V : Type κ} ⦃e : KeyEq K⦄ where
  -- `m.find(k)`
  unfoldable pub find : K → Map K V → Option V
  find k [] = none
  find k ((j, v) ∷ m) = if j == k then some v else find k m

  -- `m.insert_or_assign(k, v)`, `m[k] = v`: an equal key that is there keeps its spelling.
  unfoldable pub insert_or_assign : K → V → Map K V → Map K V
  insert_or_assign k v [] = (k, v) ∷ []
  insert_or_assign k v ((j, w) ∷ m) = if j == k then (j, v) ∷ m else (j, w) ∷ insert_or_assign k v m

  -- `m.erase(k)`
  unfoldable pub erase : K → Map K V → Map K V
  erase k [] = []
  erase k ((j, w) ∷ m) = let rest = erase k m in if j == k then rest else (j, w) ∷ rest

  pub find-insert_or_assign :
      (j k : K) (v : V) (m : Map K V)
      → find j (insert_or_assign k v m) ≡ (if k == j then some v else find j m)
  unfolding find insert_or_assign
  find-insert_or_assign j k v [] = refl
  find-insert_or_assign j k v ((i, w) ∷ m) = ground (
    arith,
    find-insert_or_assign j k v m,
    e.beq_congr i k j,
    e.beq_congr k j i,
    e.beq_sym i k,
    e.beq_sym i j,
  )

  pub find-erase :
      (j k : K) (m : Map K V) → find j (erase k m) ≡ (if k == j then none else find j m)
  unfolding find erase
  find-erase j k [] = ground arith
  find-erase j k ((i, w) ∷ m) =
      ground (
        arith,
        find-erase j k m,
        e.beq_congr i k j,
        e.beq_congr k j i,
        e.beq_sym i k,
        e.beq_sym i j,
      )

  pub find-insert_self : (k : K) (v : V) (m : Map K V) → find k (insert_or_assign k v m) ≡ some v
  find-insert_self k v m = ground (arith, find-insert_or_assign k k v m, e.beq_refl k)

  pub find-erase_self : (k : K) (m : Map K V) → find k (erase k m) ≡ none
  find-erase_self k m = ground (arith, find-erase k k m, e.beq_refl k)

  -- A lookup depends on the key up to its equality.
  pub find_congr : (j k : K) (m : Map K V) → j == k ≡ true → find j m ≡ find k m
  unfolding find
  find_congr j k [] h = refl
  find_congr j k ((i, w) ∷ m) h =
      ground (arith, find_congr j k m h, e.beq_congr j k i, e.beq_sym i j, e.beq_sym i k)

  -- No key twice.
  abbrev pub NodupKeys : Map K V → Type κ
  NodupKeys [] = Unit
  NodupKeys ((k, _) ∷ m) = (find k m ≡ none) × NodupKeys m

  pub insert_or_assign-NodupKeys :
      (k : K) (v : V) (m : Map K V) → NodupKeys m → NodupKeys (insert_or_assign k v m)
  unfolding insert_or_assign find
  insert_or_assign-NodupKeys k v [] u = (refl, tt)
  insert_or_assign-NodupKeys k v ((j, w) ∷ m) (fresh, u) =
      ground
        (arith, insert_or_assign-NodupKeys k v m u, find-insert_or_assign j k v m, e.beq_sym j k)

  pub erase-NodupKeys : (k : K) (m : Map K V) → NodupKeys m → NodupKeys (erase k m)
  unfolding erase find
  erase-NodupKeys k [] u = tt
  erase-NodupKeys k ((j, w) ∷ m) (fresh, u) =
      ground (arith, erase-NodupKeys k m u, find-erase j k m)

  pub length-erase : (k : K) (m : Map K V) → length (erase k m) ≤ length m
  unfolding erase
  length-erase k [] = omega arith
  length-erase k (p ∷ m) = ground (arith, length-erase k m)
