-- ===== src/Storage/FileFilter.antt =====
-- include/VeritasSync/storage/FileFilter.h and src/storage/FileFilter.cpp: the rules for paths that are
-- not synchronised. `std::regex` is a parameter: its constructor (`none` where it throws) and
-- `std::regex_match`. The sets of the fast path are lists, asked only for membership.
pub mod Glob
pub mod Precedence
use veritas_sync.Base.{
  ℕ, zero, suc, ◌+◌, ◌-◌, ◌*◌, ◌/◌, ◌%◌, ◌^◌, ◌≤◌, ◌<◌, min, ◌≡◌, refl, sym, ap, ◌∙◌, subst, ◌≢◌,
  ◌↔◌, ◌⊎◌, inl, inr, Bool, true, false, not, ◌&&◌, ◌||◌, List, [], ◌∷◌, ◌++◌, map, Option, none,
  some, arith, Str, KeyEq, ◌==◌, str_key, nat_key, nat_eq, nat_eq_iff, str_eq, str_eq_iff,
  str_eq_refl, ltb, leb, if◌then◌else◌, length, take, drop, get_elem?, Bool-cases, Option-cases,
  All, any, bytes, contains, In, keep_if, In-append, In-append_left, In-append_right, keep_if-In,
  In-keep_if, length-append, drop-append, length-keep_if, All-append, All-reverse,
}
use veritas_sync.Storage.FileFilter.Glob.{glob_to_regex, is_byte, pop_slash}

pub record FastPath : Type 0 where
  pub exts : List Str
  pub dirs : List Str

pub record CompiledRule (Regex : Type 0) : Type 0 where
  pub regex : Regex
  pub negated : Bool
  pub original : Str

pub record FileFilter (Regex : Type 0) : Type 0 where
  pub default_fast : FastPath
  pub default_complex : List Regex
  pub user_rules : List (CompiledRule Regex)
  pub user_fast : FastPath
  pub has_negation : Bool

abbrev pub default_patterns : List Str
default_patterns =
    bytes ".git"
    ∷ bytes ".git/"
    ∷ bytes "*.veritas_tmp"
    ∷ bytes ".veritasignore"
    ∷ bytes "*.part"
    ∷ bytes ".DS_Store"
    ∷ bytes "Thumbs.db"
    ∷ bytes "build/"
    ∷ bytes "bin/"
    ∷ bytes "out/"
    ∷ bytes ".veritas.db"
    ∷ bytes ".veritas.db-journal"
    ∷ bytes ".veritas.db-wal"
    ∷ bytes ".veritas.db-shm"
    ∷ []

-- From the last dot on.
unfoldable pub extension : Str → Option Str
extension [] = none
extension (c ∷ path) = elim (extension path) [
  | some ext ↦ some ext
  | none ↦ if nat_eq c b'.' then some (c ∷ path) else none
]

unfoldable pub ext_hit : List Str → Str → Bool
unfolding extension
ext_hit exts path = elim (extension path) [ none ↦ false | some ext ↦ contains exts ext ]

-- The directory itself, or a path below it.
unfoldable pub dir_hit : Str → Str → Bool
dir_hit path dir =
    str_eq path dir
    || (str_eq (take (length dir) path) dir
        && elim (get_elem? path (length dir)) [ none ↦ false | some c ↦ nat_eq c b'/' ])

unfoldable pub fast_hit : FastPath → Str → Bool
unfolding ext_hit dir_hit
fast_hit fast path = ext_hit fast.exts path || any (dir_hit path) fast.dirs

-- "*.ext" without another wildcard.
unfoldable pub is_suffix_pattern : Str → Bool
is_suffix_pattern pattern =
    ltb 2 (length pattern)
    && str_eq (take 2 pattern) (b'*' ∷ b'.' ∷ [])
    && not (any (λ c. nat_eq c b'*' || nat_eq c b'?' || nat_eq c b'[') (drop 2 pattern))
    && not (any (is_byte b'/') pattern)

unfoldable pub is_fixed_pattern : Bool → Str → Bool
is_fixed_pattern rooted pattern =
    not (any (λ c. nat_eq c b'*' || nat_eq c b'?' || nat_eq c b'[') pattern)
    && (rooted || any (is_byte b'/') pattern)

unfoldable pub is_rooted : Str → Bool
is_rooted [] = false
is_rooted (c ∷ rest) = nat_eq c b'/'

abbrev pub unrooted : Str → Str
unrooted rule = if is_rooted rule then drop 1 rule else rule

-- The user's rules fill both sets where both tests hold.
unfoldable pub cache_rule : Str → FastPath → FastPath
unfolding is_suffix_pattern is_fixed_pattern is_rooted pop_slash
cache_rule rule fast =
    let pattern = unrooted rule in
    if nat_eq (length pattern) 0 then fast else record {
      exts = if is_suffix_pattern pattern then drop 1 pattern ∷ fast.exts else fast.exts;
      dirs =
          if is_fixed_pattern (is_rooted rule) pattern
          then pop_slash pattern ∷ fast.dirs
          else fast.dirs;
    }

unfoldable pub is_negated : Bool → Str → Bool
is_negated bang_escaped [] = false
is_negated bang_escaped (c ∷ rest) = not bang_escaped && nat_eq c b'!'

abbrev pub rule_body : Bool → Str → Str
rule_body bang_escaped raw = if is_negated bang_escaped raw then drop 1 raw else raw

module _ {Regex : Type 0} (compile : Str → Option Regex) (regex_match : Str → Regex → Bool) where
  -- `parse_rule` with `is_default`.
  unfoldable pub parse_default : Str → FileFilter Regex → FileFilter Regex
  unfolding is_suffix_pattern is_fixed_pattern is_rooted pop_slash
  parse_default rule f =
      let pattern = unrooted rule in
      let fast = f.default_fast in
      if nat_eq (length pattern) 0
      then f
      else if is_suffix_pattern pattern
      then record f { default_fast = record fast { exts = drop 1 pattern ∷ fast.exts } }
      else if is_fixed_pattern (is_rooted rule) pattern
      then record f { default_fast = record fast { dirs = pop_slash pattern ∷ fast.dirs } }
      else elim (compile (glob_to_regex rule)) [
        | none ↦ f
        | some regex ↦ record f { default_complex = f.default_complex ++ regex ∷ [] }
      ]

  unfoldable pub load_defaults : List Str → FileFilter Regex → FileFilter Regex
  unfolding parse_default
  load_defaults [] f = f
  load_defaults (pattern ∷ patterns) f = load_defaults patterns (parse_default pattern f)

  unfoldable pub add_rule : Str → Str → Bool → FileFilter Regex → FileFilter Regex
  add_rule original rule negated f = elim (compile (glob_to_regex rule)) [
    | none ↦ f
    | some regex ↦ record f {
      user_rules =
          f.user_rules ++ record { regex = regex; negated = negated; original = original } ∷ [];
    }
  ]

  -- `parse_rule` for a rule of the user.
  unfoldable pub parse_rule : Bool → Str → FileFilter Regex → FileFilter Regex
  unfolding add_rule is_negated cache_rule
  parse_rule bang_escaped raw f =
      if nat_eq (length (rule_body bang_escaped raw)) 0
      then f
      else add_rule raw (rule_body bang_escaped raw) (is_negated bang_escaped raw) (record f {
        has_negation = f.has_negation || is_negated bang_escaped raw;
        user_fast =
            if is_negated bang_escaped raw || f.has_negation
            then f.user_fast
            else cache_rule raw f.user_fast;
      })

  -- The loop over the lines of the user's file: each is a rule, with whether its "!" was escaped.
  unfoldable pub load_rules : List (Bool × Str) → FileFilter Regex → FileFilter Regex
  unfolding parse_rule
  load_rules [] f = f
  load_rules ((bang_escaped, raw) ∷ lines) f = load_rules lines (parse_rule bang_escaped raw f)

  unfoldable pub default_hit : FileFilter Regex → Str → Bool
  unfolding fast_hit
  default_hit f path = fast_hit f.default_fast path || any (regex_match path) f.default_complex

  -- The last rule that matches decides; `ignored` is the answer if none does.
  unfoldable pub last_match : Str → Bool → List (CompiledRule Regex) → Bool
  last_match path ignored [] = ignored
  last_match path ignored (rule ∷ rules) =
      last_match path (if regex_match path rule.regex then not rule.negated else ignored) rules

  unfoldable pub should_ignore : FileFilter Regex → Str → Bool
  unfolding default_hit last_match
  should_ignore f [] = false
  should_ignore f (c ∷ path) =
      if default_hit f (c ∷ path)
      then true
      else if not f.has_negation
      then fast_hit f.user_fast (c ∷ path)
        || any (λ rule. regex_match (c ∷ path) rule.regex) f.user_rules
      else last_match (c ∷ path) (fast_hit f.user_fast (c ∷ path)) f.user_rules
