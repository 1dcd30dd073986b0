-- ===== src/Storage/FileFilter/Glob.antt =====
-- src/storage/FileFilter.cpp, glob_to_regex: the text of the regular expression for a pattern.
use veritas_sync.Base.{
  ℕ, zero, suc, ◌≤◌, ◌<◌, ◌≡◌, refl, ap, inl, inr, Bool, false, ◌&&◌, [], ◌∷◌, ◌++◌, Option, none,
  some, arith, Str, str_key, nat_key, nat_eq, if◌then◌else◌, length, drop, Option-cases, any, bytes,
  contains,
}

abbrev pub is_byte : ℕ → ℕ → Bool
is_byte b c = nat_eq c b

unfoldable pub pop_slash : Str → Str
pop_slash [] = []
pop_slash (c ∷ []) = if nat_eq c b'/' then [] else c ∷ []
pop_slash (c ∷ d ∷ rest) = c ∷ pop_slash (d ∷ rest)

unfoldable pub ends_slash : Str → Bool
ends_slash [] = false
ends_slash (c ∷ []) = nat_eq c b'/'
ends_slash (c ∷ d ∷ rest) = ends_slash (d ∷ rest)

unfoldable pub starts_slash : Str → Bool
starts_slash [] = false
starts_slash (c ∷ rest) = nat_eq c b'/'

-- The text up to the first closing bracket, and what comes after it.
unfoldable pub split_close : Str → Option (Str × Str)
split_close [] = none
split_close (c ∷ rest) =
    let later = split_close rest in
    if nat_eq c b']'
    then some ([], rest)
    else elim later [ none ↦ none | some (inside, after) ↦ some (c ∷ inside, after) ]

unfoldable pub escape_class : Str → Str
escape_class [] = []
escape_class (c ∷ rest) =
    let more = escape_class rest in if nat_eq c 92 then 92 ∷ 92 ∷ more else c ∷ more

unfoldable pub char_class : Str → Str
unfolding escape_class
char_class [] = []
char_class (c ∷ rest) = if nat_eq c b'!' then b'^' ∷ escape_class rest else escape_class (c ∷ rest)

-- The cases of the `switch` other than the bracket.
unfoldable pub one_char : ℕ → Str
one_char c =
    if nat_eq c b'*'
    then bytes "[^/]*"
    else if nat_eq c b'?'
    then bytes "[^/]"
    else if nat_eq c 92
    then b'/' ∷ []
    else if contains (bytes ".+(){}^$|") c
    then 92 ∷ c ∷ []
    else c ∷ []

-- One round of the loop on `c` before `rest`: what is appended, and where the loop goes on.
unfoldable pub glob_step : ℕ → Str → Str × Str
unfolding one_char char_class split_close
glob_step c [] = (if nat_eq c b'[' then 92 ∷ b'[' ∷ [] else one_char c, [])
glob_step c (d ∷ rest) =
    if nat_eq c b'*' && nat_eq d b'*'
    then elim rest [
      | [] ↦ (bytes ".*", [])
      | e ∷ more ↦ if nat_eq e b'/' then (bytes "(.*/)?", more) else (bytes ".*", e ∷ more)
    ]
    else if nat_eq c b'['
    then elim (split_close (d ∷ rest)) [
      | none ↦ (92 ∷ b'[' ∷ [], d ∷ rest)
      | some (inside, after) ↦ (b'[' ∷ char_class inside ++ b']' ∷ [], after)
    ]
    else (one_char c, d ∷ rest)

-- Each round takes at least one character away, so the length of the pattern is enough fuel.
unfoldable pub glob_chars : ℕ → Str → Str
unfolding glob_step
glob_chars zero pattern = []
glob_chars (suc fuel) [] = []
glob_chars (suc fuel) (c ∷ rest) =
    let (text, after) = glob_step c rest in text ++ glob_chars fuel after

unfoldable pub glob_to_regex : Str → Str
unfolding glob_chars pop_slash ends_slash starts_slash
glob_to_regex glob =
    let pattern = pop_slash glob in
    let body = if starts_slash pattern then drop 1 pattern else pattern in
    b'^' ∷ (if any (is_byte b'/') pattern then [] else bytes "(.*/)?")
    ++ glob_chars (length body) body
    ++ (if ends_slash glob then bytes "(/.*)?$" else bytes "$")

split_close_shorter :
    (text inside after : Str) → split_close text ≡ some (inside, after) → length after < length text
unfolding split_close
split_close_shorter [] inside after h = cc
split_close_shorter (c ∷ rest) inside after h = elim (Option-cases (split_close rest)) [
  | inl e ↦ ground (arith, h, e)
  | inr ((i, a), e) ↦ ground (arith, h, e, split_close_shorter rest i a e)
]

glob_step_shorter : (c : ℕ) (rest : Str) → length (glob_step c rest).1 ≤ length rest
unfolding glob_step
glob_step_shorter c [] = ground arith
glob_step_shorter c (d ∷ rest) = elim (Option-cases (split_close (d ∷ rest))) [
  | inl e ↦ go rest e
  | inr ((inside, after), e) ↦ found rest inside after e
]
  where
    go :
        (rest : Str)
        → split_close (d ∷ rest) ≡ none
        → length (glob_step c (d ∷ rest)).1 ≤ length (d ∷ rest)
    go [] e = ground (arith, e)
    go (x ∷ more) e = ground (arith, e)

    found :
        (rest inside after : Str)
        → split_close (d ∷ rest) ≡ some (inside, after)
        → length (glob_step c (d ∷ rest)).1 ≤ length (d ∷ rest)
    found [] inside after e = ground (arith, e, split_close_shorter (d ∷ []) inside after e)
    found (x ∷ more) inside after e =
        ground (arith, e, split_close_shorter (d ∷ x ∷ more) inside after e)

-- The length of the pattern is enough fuel for the loop: with that or more the text is the same.
pub glob_chars_enough :
    (fuel more : ℕ) (pattern : Str)
    → length pattern ≤ fuel
    → length pattern ≤ more
    → glob_chars fuel pattern ≡ glob_chars more pattern
unfolding glob_chars
glob_chars_enough zero zero pattern h k = refl
glob_chars_enough zero (suc more) [] h k = refl
glob_chars_enough zero (suc more) (c ∷ rest) h k = absurd (omega (arith, h))
glob_chars_enough (suc fuel) zero [] h k = refl
glob_chars_enough (suc fuel) zero (c ∷ rest) h k = absurd (omega (arith, k))
glob_chars_enough (suc fuel) (suc more) [] h k = refl
glob_chars_enough (suc fuel) (suc more) (c ∷ rest) h k =
    let shorter = glob_step_shorter c rest in
    ap (λ t. (glob_step c rest).0 ++ t)
      (glob_chars_enough fuel more (glob_step c rest).1 (omega (arith, h, shorter))
        (omega (arith, k, shorter)))
