-- ===== src/Common/PathUtils.antt =====
-- include/VeritasSync/common/PathUtils.h: path normalisation, comparison without case, and the
-- guard against path traversal. `win32` says whether `_WIN32` is defined.
pub mod Normalize
pub mod Safety
use mathlib.Core.List.{reverse}
use veritas_sync.Base.{
  ℕ, ◌+◌, ◌≤◌, ◌≡◌, Bool, true, false, ◌&&◌, ◌||◌, List, [], ◌∷◌, ◌++◌, map, Option, none, some,
  Str, nat_eq, ltb, leb, str_eq, if◌then◌else◌, length, take, get_elem?, any,
}

-- `std::tolower` of the "C" locale, on one byte.
unfoldable pub tolower : ℕ → ℕ
tolower c = if leb b'A' c && leb c b'Z' then c + 32 else c

-- `std::replace(…, '\\', '/')`, on one byte.
unfoldable pub unify_separator : ℕ → ℕ
unify_separator c = if nat_eq c 92 then b'/' else c

-- The loop over trailing slashes, on the reversed text: its head is `path.back()`.
unfoldable pub pop_slashes : Str → Str
pop_slashes [] = []
pop_slashes (c ∷ []) = c ∷ []
pop_slashes (c ∷ d ∷ rest) =
    let shorter = pop_slashes (d ∷ rest) in if nat_eq c b'/' then shorter else c ∷ d ∷ rest

unfoldable pub normalize : Bool → Str → Str
unfolding tolower unify_separator pop_slashes
normalize win32 [] = []
normalize win32 (c ∷ path) =
    let unified = map unify_separator (c ∷ path) in
    let folded = if win32 then map tolower unified else unified in
    reverse (pop_slashes (reverse folded))

-- `std::equal` with the case-insensitive predicate; it is called on texts of one length.
unfoldable pub equal_lower : Str → Str → Bool
unfolding tolower
equal_lower [] bs = true
equal_lower (a ∷ as') [] = false
equal_lower (a ∷ as') (b ∷ bs) = nat_eq (tolower a) (tolower b) && equal_lower as' bs

-- `CaseInsensitiveEqual`, which `are_equal` calls.
unfoldable pub are_equal : Str → Str → Bool
unfolding equal_lower
are_equal a b = if nat_eq (length a) (length b) then equal_lower a b else false

-- The text that `CaseInsensitiveHash` hands to `std::hash`.
unfoldable pub hash_text : Str → Str
unfolding tolower
hash_text = map tolower

-- `std::filesystem::path` by components, on a POSIX system: the texts between slashes.
unfoldable pub components : Str → Str → List Str
components part [] = part ∷ []
components part (c ∷ path) =
    let fresh = components [] path in
    let longer = components (part ++ c ∷ []) path in if nat_eq c b'/' then part ∷ fresh else longer

abbrev pub parent_dir : Str
parent_dir = b'.' ∷ b'.' ∷ []

-- `path::is_absolute` on a POSIX system.
unfoldable pub is_absolute : Str → Bool
is_absolute [] = false
is_absolute (c ∷ path) = nat_eq c b'/'

-- `root / rel` for a relative `rel`: a separator is put in unless `root` ends in one.
unfoldable pub join_path : Str → Str → Str
join_path root rel = elim (reverse root) [
  | [] ↦ rel
  | last ∷ _ ↦ if nat_eq last b'/' then root ++ rel else root ++ b'/' ∷ rel
]

-- What `full` must look like next to `root`: the three tests at the end of the function.
unfoldable pub under_root : Str → Str → Bool
under_root root full =
    if ltb (length full) (length root)
    then false
    else if str_eq (take (length root) full) root
    then (elim (get_elem? full (length root)) [
      | none ↦ true
      | some next ↦ nat_eq next b'/' || nat_eq next 92
    ])
    else false

-- `std::filesystem::weakly_canonical` asks the file system: it is a parameter, and `none` is its
-- error code.
module _ (weakly_canonical : Str → Option Str) where
  unfoldable pub is_path_safe_with_canonical_root : Str → Str → Bool
  unfolding components is_absolute join_path under_root
  is_path_safe_with_canonical_root canonical_root [] = false
  is_path_safe_with_canonical_root canonical_root (c ∷ rel) =
      if any (λ part. str_eq part parent_dir) (components [] (c ∷ rel))
      then false
      else if is_absolute (c ∷ rel)
      then false
      else elim (weakly_canonical (join_path canonical_root (c ∷ rel))) [
        | none ↦ false
        | some full ↦ under_root canonical_root full
      ]

  unfoldable pub is_path_safe : Str → Str → Bool
  unfolding is_path_safe_with_canonical_root
  is_path_safe root relative_path = elim (weakly_canonical root) [
    | none ↦ false
    | some canonical_root ↦ is_path_safe_with_canonical_root canonical_root relative_path
  ]
