-- ===== src/Common/PathUtils/Safety.antt =====
-- What the guard against path traversal lets through.
use mathlib.Core.List.{append_assoc, append-nil}
use veritas_sync.Base.{
  ℕ, suc, ◌≡◌, refl, sym, ap, ◌∙◌, ◌≢◌, ◌⊎◌, inl, inr, true, false, zero, List, [], ◌∷◌, ◌++◌,
  Option, none, some, arith, Str, nat_eq, str_eq, str_eq_iff, length, take, drop, get_elem?,
  Bool-cases, Option-cases, All, any,
}
use veritas_sync.Common.PathUtils.{
  components, parent_dir, is_absolute, join_path, under_root, is_path_safe_with_canonical_root,
}

-- The components put together again, with a slash between each two.
abbrev join_components : List Str → Str
join_components [] = []
join_components (part ∷ []) = part
join_components (part ∷ next ∷ rest) = part ++ b'/' ∷ join_components (next ∷ rest)

components_nonempty :
    (part path : Str) → (p : Str) × (ps : List Str) × (components part path ≡ p ∷ ps)
unfolding components
components_nonempty part [] = (part, [], refl)
components_nonempty part (c ∷ path) = elim (Bool-cases (nat_eq c b'/')) [
  | inl e ↦ (part, components [] path, rw e)
  | inr e ↦ rw e (components_nonempty (part ++ c ∷ []) path)
]

-- No component is lost or made up.
pub join_components-components :
    (part path : Str) → join_components (components part path) ≡ part ++ path
unfolding components
join_components-components part [] = sym (append-nil part)
join_components-components part (c ∷ path) = elim (Bool-cases (nat_eq c b'/')) [
  | inl e ↦
      let (p, ps, at) = components_nonempty [] path in
      rw e (
        rw at (
          ap (λ t. part ++ b'/' ∷ t)
            (ap join_components (sym at) ∙ join_components-components [] path)
          ∙ ground arith))
  | inr e ↦
      rw e (join_components-components (part ++ c ∷ []) path ∙ append_assoc part (c ∷ []) path)
]

-- `full` is `root` or lies below it, behind a separator.
abbrev pub IsUnder : Str → Str → Type 0
IsUnder root full =
    (full ≡ root)
    ⊎ ((separator : ℕ) × (rest : Str) × (full ≡ root ++ separator ∷ rest)
        × ((separator ≡ b'/') ⊎ (separator ≡ 92)))

take_whole : (n : ℕ) (xs : Str) → get_elem? xs n ≡ none → take n xs ≡ xs
take_whole zero [] h = refl
take_whole zero (x ∷ xs) h = cc
take_whole (suc n) [] h = refl
take_whole (suc n) (x ∷ xs) h = ap (λ t. x ∷ t) (take_whole n xs h)

take_split :
    (n : ℕ) (xs : Str) (x : ℕ) → get_elem? xs n ≡ some x → xs ≡ take n xs ++ x ∷ drop (suc n) xs
take_split n [] x h = cc
take_split zero (y ∷ xs) x h = ground arith
take_split (suc n) (y ∷ xs) x h = ap (λ t. y ∷ t) (take_split n xs x h)

under_root-IsUnder : (root full : Str) → under_root root full ≡ true → IsUnder root full
unfolding under_root
under_root-IsUnder root full h = elim (Option-cases (get_elem? full (length root))) [
  | inl e ↦
      inl
        (ground (arith, take_whole (length root) full e, str_eq_iff (take (length root) full) root))
  | inr (c, e) ↦ inr (
    c,
    drop (suc (length root)) full,
    take_split (length root) full c e
        ∙ ap (λ t. t ++ c ∷ drop (suc (length root)) full)
            (ground (arith, str_eq_iff (take (length root) full) root)),
    ground arith,
  )
]

any-false :
    (part : Str) (parts : List Str)
    → any (λ p. str_eq p part) parts ≡ false
    → All (λ p. p ≢ part) parts
any-false part [] h = tt
any-false part (p ∷ parts) h =
    (ground (arith, str_eq_iff p part), any-false part parts (ground arith))

module _ (weakly_canonical : Str → Option Str) where
  -- A path that the guard accepts is not empty, none of its components is "..", it does not begin
  -- with a slash, and the file system resolves it to the root itself or to a path that continues
  -- the root's text behind a separator.
  pub is_path_safe-IsUnder :
      (root rel : Str)
      → is_path_safe_with_canonical_root weakly_canonical root rel ≡ true
      → (rel ≢ [])
        × All (λ part. part ≢ parent_dir) (components [] rel)
        × (is_absolute rel ≡ false)
        × ((full : Str) × (weakly_canonical (join_path root rel) ≡ some full) × IsUnder root full)
  unfolding is_path_safe_with_canonical_root
  is_path_safe-IsUnder root [] h = cc
  is_path_safe-IsUnder root (c ∷ rel) h =
      elim (Option-cases (weakly_canonical (join_path root (c ∷ rel)))) [
        | inl e ↦ absurd (ground arith)
        | inr (full, e) ↦ (
          (λ q. cc),
          any-false parent_dir (components [] (c ∷ rel)) (ground arith),
          ground arith,
          (full, e, under_root-IsUnder root full (ground arith)),
        )
      ]

  -- With "/" as the root the guard refuses every path that the file system resolves to an
  -- ordinary absolute path, one whose second byte is no separator: so nothing can be received
  -- into a synchronised "/".
  pub is_path_safe_slash_root :
      (rel rest : Str) (c : ℕ)
      → weakly_canonical (join_path (b'/' ∷ []) rel) ≡ some (b'/' ∷ c ∷ rest)
      → c ≢ b'/'
      → c ≢ 92
      → is_path_safe_with_canonical_root weakly_canonical (b'/' ∷ []) rel ≡ false
  unfolding is_path_safe_with_canonical_root
  is_path_safe_slash_root [] rest c e h k = refl
  is_path_safe_slash_root (d ∷ rel) rest c e h k = ground arith
