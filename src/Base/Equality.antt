-- ===== src/Base/Equality.antt =====
-- Equality tests on keys: a test that is an equivalence is all that a map needs of its keys.
use Prim.Native.Nat.{ℕ}
use mathlib.Core.Path.{◌≡◌, refl, ap}
use mathlib.Core.Logic.{◌↔◌}
use mathlib.Core.Bool.{Bool, true, false, ◌&&◌}
use mathlib.Core.List.{List, [], ◌∷◌}
use native.Mathlib.Omega.{arith}
use Prim.Native.Char.{code}
use Prim.Native.String.{String}
use veritas_sync.Base.Tests.{nat_eq}

-- A Boolean equivalence: what `std::unordered_map` asks of its key-equality argument.
pub record KeyEq {ℓ} (A : Type ℓ) : Type ℓ where
  pub beq : A → A → Bool
  pub beq_refl : (a : A) → beq a a ≡ true
  pub beq_congr : (a b c : A) → beq a b ≡ true → beq a c ≡ beq b c
  pub beq_sym : (a b : A) → beq a b ≡ beq b a

infix 50 ◌==◌
abbrev pub ◌==◌ {ℓ} : {A : Type ℓ} ⦃e : KeyEq A⦄ → A → A → Bool
◌==◌ ⦃e⦄ = e.beq

-- A `std::string`: its bytes.
abbrev pub Str : Type 0
Str = List ℕ

-- The bytes of a literal (its characters are ASCII).
abbrev pub bytes : String → Str
bytes String.[] = []
bytes (String.◌∷◌ c s) = code c ∷ bytes s

unfoldable pub str_eq : Str → Str → Bool
str_eq [] [] = true
str_eq [] (b ∷ bs) = false
str_eq (a ∷ as') [] = false
str_eq (a ∷ as') (b ∷ bs) = nat_eq a b && str_eq as' bs

pub str_eq_iff : (a b : Str) → (str_eq a b ≡ true) ↔ (a ≡ b)
unfolding str_eq
str_eq_iff [] [] = (λ _. refl, λ _. refl)
str_eq_iff [] (b ∷ bs) = (λ h. cc, λ h. cc)
str_eq_iff (a ∷ as') [] = (λ h. cc, λ h. cc)
str_eq_iff (a ∷ as') (b ∷ bs) = ground (arith, str_eq_iff as' bs)

pub str_eq_refl : (a : Str) → str_eq a a ≡ true
str_eq_refl a = (str_eq_iff a a).1 refl

pub str_eq_congr : (a b c : Str) → str_eq a b ≡ true → str_eq a c ≡ str_eq b c
str_eq_congr a b c h = ap (λ x. str_eq x c) ((str_eq_iff a b).0 h)

pub str_eq_sym : (a b : Str) → str_eq a b ≡ str_eq b a
str_eq_sym a b = ground (arith, str_eq_iff a b, str_eq_iff b a)

instance abbrev pub str_key : KeyEq Str
str_key = record {
  beq = str_eq;
  beq_refl = str_eq_refl;
  beq_congr = str_eq_congr;
  beq_sym = str_eq_sym;
}

pub nat_eq_refl : (a : ℕ) → nat_eq a a ≡ true
nat_eq_refl a = ground arith

pub nat_eq_congr : (a b c : ℕ) → nat_eq a b ≡ true → nat_eq a c ≡ nat_eq b c
nat_eq_congr a b c h = ground arith

pub nat_eq_sym : (a b : ℕ) → nat_eq a b ≡ nat_eq b a
nat_eq_sym a b = ground arith

instance abbrev pub nat_key : KeyEq ℕ
nat_key = record {
  beq = nat_eq;
  beq_refl = nat_eq_refl;
  beq_congr = nat_eq_congr;
  beq_sym = nat_eq_sym;
}
