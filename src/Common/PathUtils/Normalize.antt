-- ===== src/Common/PathUtils/Normalize.antt =====
-- What `normalize` and `are_equal` guarantee.
use mathlib.Core.List.{reverse, reverse-reverse}
use veritas_sync.Base.{
  ℕ, suc, ◌≡◌, refl, sym, ap, ◌∙◌, ◌≢◌, inl, inr, Bool, true, false, ◌&&◌, [], ◌∷◌, map, arith, Str,
  nat_eq, str_eq, str_eq_iff, KeyEq, str_key, if◌then◌else◌, length, Bool-cases, All, All-reverse,
}
use veritas_sync.Common.PathUtils.{
  tolower, unify_separator, pop_slashes, normalize, equal_lower, are_equal, hash_text,
}

equal_lower-eq :
    (a b : Str) → length a ≡ length b → equal_lower a b ≡ str_eq (hash_text a) (hash_text b)
unfolding equal_lower hash_text str_eq
equal_lower-eq [] [] h = refl
equal_lower-eq [] (y ∷ b) h = absurd (omega arith)
equal_lower-eq (x ∷ a) [] h = absurd (omega arith)
equal_lower-eq (x ∷ a) (y ∷ b) h =
    ap (λ t. nat_eq (tolower x) (tolower y) && t) (equal_lower-eq a b (omega arith))

length-hash_text : (a : Str) → length (hash_text a) ≡ length a
unfolding hash_text
length-hash_text [] = refl
length-hash_text (x ∷ a) = ap suc (length-hash_text a)

-- The comparison and the hash of the case-insensitive containers agree: two paths are equal
-- exactly when the texts that are hashed are the same text.
pub are_equal-hash_text : (a b : Str) → are_equal a b ≡ str_eq (hash_text a) (hash_text b)
unfolding are_equal
are_equal-hash_text a b = elim (Bool-cases (nat_eq (length a) (length b))) [
  | inl same ↦ rw (same, are_equal) (equal_lower-eq a b (ground arith))
  | inr differ ↦
      rw (differ, are_equal)
        (elim (Bool-cases (str_eq (hash_text a) (hash_text b))) [
          | inl e ↦ absurd (
              ground (
                arith,
                ap length ((str_eq_iff (hash_text a) (hash_text b)).0 e),
                length-hash_text a,
                length-hash_text b,
              ))
          | inr e ↦ sym e
        ])
]

pub are_equal_refl : (a : Str) → are_equal a a ≡ true
are_equal_refl a = are_equal-hash_text a a ∙ (str_eq_iff _ _).1 refl

pub are_equal_congr : (a b c : Str) → are_equal a b ≡ true → are_equal a c ≡ are_equal b c
are_equal_congr a b c h =
    are_equal-hash_text a c
    ∙ ap (λ t. str_eq t (hash_text c)) ((str_eq_iff _ _).0 (sym (are_equal-hash_text a b) ∙ h))
    ∙ sym (are_equal-hash_text b c)

pub are_equal_sym : (a b : Str) → are_equal a b ≡ are_equal b a
are_equal_sym a b = are_equal-hash_text a b ∙ str_key.beq_sym _ _ ∙ sym (are_equal-hash_text b a)

-- `CaseInsensitiveEqual` is an equivalence, as the standard containers require.
abbrev pub path_key : KeyEq Str
path_key = record {
  beq = are_equal;
  beq_refl = are_equal_refl;
  beq_congr = are_equal_congr;
  beq_sym = are_equal_sym;
}

-- The last byte is no slash, unless it is the only one.
abbrev pub EndsWell : Str → Type 0
EndsWell [] = Unit
EndsWell (c ∷ []) = Unit
EndsWell (c ∷ d ∷ rest) = c ≢ b'/'

pop_slashes-EndsWell : (path : Str) → EndsWell (pop_slashes path)
unfolding pop_slashes
pop_slashes-EndsWell [] = tt
pop_slashes-EndsWell (c ∷ []) = tt
pop_slashes-EndsWell (c ∷ d ∷ rest) = elim (Bool-cases (nat_eq c b'/')) [
  | inl e ↦ rw e (pop_slashes-EndsWell (d ∷ rest))
  | inr e ↦ rw e (ground arith)
]

pop_slashes-fixed : (path : Str) → EndsWell path → pop_slashes path ≡ path
unfolding pop_slashes
pop_slashes-fixed [] h = refl
pop_slashes-fixed (c ∷ []) h = refl
pop_slashes-fixed (c ∷ d ∷ rest) h = ground arith

pop_slashes-All : (P : ℕ → Type 0) (path : Str) → All P path → All P (pop_slashes path)
unfolding pop_slashes
pop_slashes-All P [] h = tt
pop_slashes-All P (c ∷ []) h = h
pop_slashes-All P (c ∷ d ∷ rest) h = elim (Bool-cases (nat_eq c b'/')) [
  | inl e ↦ rw e (pop_slashes-All P (d ∷ rest) h.1)
  | inr e ↦ rw e h
]

-- A byte of a normalised path.
abbrev pub IsNormalByte : Bool → ℕ → Type 0
IsNormalByte win32 c = (c ≢ 92) × (win32 ≡ true → tolower c ≡ c)

-- A normalised path: no backslash, no capital on Windows, no trailing slash but for "/" itself.
abbrev pub IsNormal : Bool → Str → Type 0
IsNormal win32 path = All (IsNormalByte win32) path × EndsWell (reverse path)

fold_bytes : Bool → Str → Str
fold_bytes win32 path =
    if win32 then map tolower (map unify_separator path) else map unify_separator path

fold_bytes-All : (win32 : Bool) (path : Str) → All (IsNormalByte win32) (fold_bytes win32 path)
unfolding fold_bytes unify_separator tolower
fold_bytes-All true [] = tt
fold_bytes-All false [] = tt
fold_bytes-All true (c ∷ path) = (ground arith, fold_bytes-All true path)
fold_bytes-All false (c ∷ path) = (ground arith, fold_bytes-All false path)

fold_bytes-fixed :
    (win32 : Bool) (path : Str) → All (IsNormalByte win32) path → fold_bytes win32 path ≡ path
unfolding fold_bytes unify_separator
fold_bytes-fixed true [] h = refl
fold_bytes-fixed false [] h = refl
fold_bytes-fixed true (c ∷ path) h = ground (arith, fold_bytes-fixed true path h.1, h.0.1 refl)
fold_bytes-fixed false (c ∷ path) h = ground (arith, fold_bytes-fixed false path h.1)

normalize-fold_bytes :
    (win32 : Bool) (path : Str)
    → normalize win32 path ≡ reverse (pop_slashes (reverse (fold_bytes win32 path)))
unfolding normalize fold_bytes
normalize-fold_bytes true [] = refl
normalize-fold_bytes false [] = refl
normalize-fold_bytes win32 (c ∷ path) = refl

pub normalize-IsNormal : (win32 : Bool) (path : Str) → IsNormal win32 (normalize win32 path)
normalize-IsNormal win32 path = rw (normalize-fold_bytes win32 path) (
  All-reverse _ _ (pop_slashes-All _ _ (All-reverse _ _ (fold_bytes-All win32 path))),
  rw (reverse-reverse (pop_slashes (reverse (fold_bytes win32 path))))
      (pop_slashes-EndsWell (reverse (fold_bytes win32 path))),
)

pub normalize_fixed :
    (win32 : Bool) (path : Str) → IsNormal win32 path → normalize win32 path ≡ path
normalize_fixed win32 path (fine, ends) =
    normalize-fold_bytes win32 path
    ∙ ap (λ t. reverse (pop_slashes (reverse t))) (fold_bytes-fixed win32 path fine)
    ∙ ap reverse (pop_slashes-fixed (reverse path) ends)
    ∙ reverse-reverse path

-- Normalising yields a normalised path (no backslash, no capital letter on Windows, no trailing
-- slash unless the path is "/"), and doing it twice is doing it once.
pub normalize_canonical :
    (win32 : Bool) (path : Str)
    → IsNormal win32 (normalize win32 path)
      × (normalize win32 (normalize win32 path) ≡ normalize win32 path)
normalize_canonical win32 path =
    (normalize-IsNormal win32 path, normalize_fixed win32 _ (normalize-IsNormal win32 path))
