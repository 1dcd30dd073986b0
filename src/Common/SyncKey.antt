-- ===== src/Common/SyncKey.antt =====
-- `get_sync_key_validation_error` of include/VeritasSync/common/Config.h.
use veritas_sync.Base.{
  ℕ, ◌≤◌, ◌≡◌, refl, subst, ◌↔◌, ◌⊎◌, inl, inr, Bool, true, false, not, ◌&&◌, ◌||◌, [], ◌∷◌, Option,
  none, some, arith, Str, str_key, nat_key, nat_eq, nat_eq_iff, ltb, leb, if◌then◌else◌, length,
  Bool-cases, All, any, contains,
}

-- The reasons for which a key is refused; the empty text, which means none, is `none` below.
pub data KeyError : Type 0 where
  key_empty key_too_long key_has_dots key_has_separator key_has_bad_char : KeyError

-- `std::isalnum` of the "C" locale.
unfoldable pub isalnum : ℕ → Bool
isalnum c = (leb b'0' c && leb c b'9') || (leb b'A' c && leb c b'Z') || (leb b'a' c && leb c b'z')

unfoldable pub is_key_char : ℕ → Bool
unfolding isalnum
is_key_char c = isalnum c || nat_eq c b'_' || nat_eq c b'-'

-- `find("..") != npos`
unfoldable pub has_dots : Str → Bool
has_dots [] = false
has_dots (a ∷ []) = false
has_dots (a ∷ b ∷ rest) =
    let more = has_dots (b ∷ rest) in if nat_eq a b'.' && nat_eq b b'.' then true else more

unfoldable pub get_sync_key_validation_error : Str → Option KeyError
unfolding has_dots is_key_char
get_sync_key_validation_error key =
    if nat_eq (length key) 0
    then some key_empty
    else if ltb 64 (length key)
    then some key_too_long
    else if has_dots key
    then some key_has_dots
    else if contains key b'/' || contains key 92
    then some key_has_separator
    else if any (λ c. not (is_key_char c)) key
    then some key_has_bad_char
    else none

unfoldable pub is_valid_sync_key : Str → Bool
unfolding get_sync_key_validation_error
is_valid_sync_key key = elim (get_sync_key_validation_error key) [
  | none ↦ true
  | some error ↦ false
]

-- A letter, a digit, an underscore or a dash.
abbrev pub IsKeyChar : ℕ → Type 0
IsKeyChar c =
    ((b'0' ≤ c) × (c ≤ b'9'))
    ⊎ ((b'A' ≤ c) × (c ≤ b'Z'))
    ⊎ ((b'a' ≤ c) × (c ≤ b'z'))
    ⊎ (c ≡ b'_')
    ⊎ (c ≡ b'-')

is_key_char_iff : (c : ℕ) → (is_key_char c ≡ true) ↔ IsKeyChar c
unfolding is_key_char
is_key_char_iff c = ground arith

All-key_chars : (key : Str) → (any (λ c. not (is_key_char c)) key ≡ false) ↔ All IsKeyChar key
All-key_chars [] = (λ _. tt, λ _. refl)
All-key_chars (c ∷ key) =
    let (forth, back) = All-key_chars key in
    let (to, from) = is_key_char_iff c in
    (λ h. (to (ground arith), forth (ground arith)), λ (h, r). ground (arith, from h, back r))

no_dots : (key : Str) → All IsKeyChar key → has_dots key ≡ false
unfolding has_dots
no_dots [] h = refl
no_dots (a ∷ []) h = refl
no_dots (a ∷ b ∷ rest) h = ground (arith, no_dots (b ∷ rest) h.1, h.0)

no_char : (key : Str) (x : ℕ) → All IsKeyChar key → ¬ IsKeyChar x → contains key x ≡ false
no_char [] x h n = refl
no_char (c ∷ key) x h n = elim (Bool-cases (nat_eq c x)) [
  | inl e ↦ absurd (n (subst IsKeyChar ((nat_eq_iff c x).0 e) h.0))
  | inr e ↦ rw e (no_char key x h.1 n)
]

-- A synchronisation key is accepted exactly when it has 1 to 64 bytes, each of them a letter, a
-- digit, an underscore or a dash: so no accepted key holds a dot or a path separator.
pub is_valid_sync_key_iff :
    (key : Str)
    → (is_valid_sync_key key ≡ true) ↔ ((1 ≤ length key) × (length key ≤ 64) × All IsKeyChar key)
unfolding is_valid_sync_key
is_valid_sync_key_iff key = (
  λ h. (ground arith, ground arith, (All-key_chars key).0 (ground arith)),
  λ (l, u, a). ground (
    arith,
    no_dots key a,
    no_char key b'/' a (λ q. ground arith),
    no_char key 92 a (λ q. ground arith),
    (All-key_chars key).1 a,
  ),
)
