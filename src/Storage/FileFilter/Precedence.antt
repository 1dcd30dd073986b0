-- ===== src/Storage/FileFilter/Precedence.antt =====
-- Which rule decides.
use veritas_sync.Base.{
  ◌≡◌, refl, ◌∙◌, ◌≢◌, inl, inr, Bool, true, false, not, ◌||◌, List, [], ◌∷◌, ◌++◌, Option, some,
  arith, Str, str_key, nat_key, nat_eq, if◌then◌else◌, length, Bool-cases, Option-cases, any,
}
use veritas_sync.Storage.FileFilter.Glob.{glob_to_regex}
use veritas_sync.Storage.FileFilter.{
  CompiledRule, FileFilter, cache_rule, is_negated, rule_body, add_rule, parse_rule, load_rules,
  default_hit, last_match, should_ignore,
}

any_last :
    {A : Type 0} (p : A → Bool) (xs : List A) (x : A) → p x ≡ true → any p (xs ++ x ∷ []) ≡ true
any_last p [] x h = ground (arith, h)
any_last p (y ∷ xs) x h = ground (arith, any_last p xs x h)

or_true : (b : Bool) → (b || true) ≡ true
or_true true = refl
or_true false = refl

body_test : (body : Str) → body ≢ [] → nat_eq (length body) 0 ≡ false
body_test [] n = absurd (n refl)
body_test (c ∷ rest) n = ground arith

module _ {Regex : Type 0} (compile : Str → Option Regex) (regex_match : Str → Regex → Bool) where
  last_match-append :
      (path : Str) (rules : List (CompiledRule Regex)) (ignored : Bool) (rule : CompiledRule Regex)
      → regex_match path rule.regex ≡ true
      → last_match compile regex_match path ignored (rules ++ rule ∷ []) ≡ not rule.negated
  unfolding last_match
  last_match-append path [] ignored rule h = rw h refl
  last_match-append path (r ∷ rules) ignored rule h = last_match-append path rules _ rule h

  decided :
      (hit negation negated fast anywhere last : Bool)
      → anywhere ≡ true
      → last ≡ not negated
      → (negated ≡ true → negation ≡ true)
      → (if hit then true else if not negation then fast || anywhere else last)
        ≡ (hit || not negated)
  decided hit negation negated fast anywhere last a l n =
      rw (a, l) (lift hit negation negated fast n)
    where
      lift :
          (hit negation negated fast : Bool)
          → (negated ≡ true → negation ≡ true)
          → (if hit then true else if not negation then fast || true else not negated)
            ≡ (hit || not negated)
      lift hit negation true fast n = rw (n refl) (ground arith)
      lift hit negation false fast n = ground arith

  with_rule : FileFilter Regex → Bool → Str → Regex → FileFilter Regex
  with_rule f bang_escaped raw regex = record {
    default_fast = f.default_fast;
    default_complex = f.default_complex;
    user_rules =
        f.user_rules
        ++ record { regex = regex; negated = is_negated bang_escaped raw; original = raw } ∷ [];
    user_fast =
        if is_negated bang_escaped raw || f.has_negation
        then f.user_fast
        else cache_rule raw f.user_fast;
    has_negation = f.has_negation || is_negated bang_escaped raw;
  }

  parse_rule-with_rule :
      (f : FileFilter Regex) (bang_escaped : Bool) (raw : Str) (regex : Regex)
      → rule_body bang_escaped raw ≢ []
      → compile (glob_to_regex (rule_body bang_escaped raw)) ≡ some regex
      → parse_rule compile regex_match bang_escaped raw f ≡ with_rule f bang_escaped raw regex
  unfolding parse_rule with_rule
  parse_rule-with_rule f bang_escaped raw regex m e =
      rw (body_test (rule_body bang_escaped raw) m, e, add_rule) refl

  -- The rule that is added last decides for every path that it matches, against all rules before
  -- it, unless a default rule has the path: an ordinary rule makes it ignored, a negated one not.
  pub last_rule_decides :
      (f : FileFilter Regex) (bang_escaped : Bool) (raw path : Str) (regex : Regex)
      → path ≢ []
      → rule_body bang_escaped raw ≢ []
      → compile (glob_to_regex (rule_body bang_escaped raw)) ≡ some regex
      → regex_match path regex ≡ true
      → should_ignore compile regex_match (parse_rule compile regex_match bang_escaped raw f) path
        ≡ (default_hit compile regex_match f path || not (is_negated bang_escaped raw))
  unfolding should_ignore default_hit with_rule
  last_rule_decides f bang_escaped raw [] regex n m e h = absurd (n refl)
  last_rule_decides f bang_escaped raw (c ∷ path) regex n m e h =
      let rule : CompiledRule Regex = record {
        regex = regex;
        negated = is_negated bang_escaped raw;
        original = raw;
      } in
      rw (parse_rule-with_rule f bang_escaped raw regex m e) (
        decided _ _ (is_negated bang_escaped raw) _ _ _
          (any_last (λ r. regex_match (c ∷ path) r.regex) f.user_rules rule h)
          (last_match-append (c ∷ path) f.user_rules _ rule h) (λ k. rw k (or_true f.has_negation)))

  parse_rule-default_hit :
      (f : FileFilter Regex) (bang_escaped : Bool) (raw path : Str)
      → default_hit compile regex_match (parse_rule compile regex_match bang_escaped raw f) path
        ≡ default_hit compile regex_match f path
  unfolding default_hit parse_rule
  parse_rule-default_hit f bang_escaped raw path =
      elim (Bool-cases (nat_eq (length (rule_body bang_escaped raw)) 0)) [
        | inl h ↦ rw h refl
        | inr h ↦ elim (Option-cases (compile (glob_to_regex (rule_body bang_escaped raw)))) [
          | inl e ↦ rw (h, e, add_rule) refl
          | inr (regex, e) ↦ rw (h, e, add_rule) refl
        ]
      ]

  default_hit-ignored :
      (f : FileFilter Regex) (path : Str)
      → path ≢ []
      → default_hit compile regex_match f path ≡ true
      → should_ignore compile regex_match f path ≡ true
  unfolding should_ignore
  default_hit-ignored f [] n h = absurd (n refl)
  default_hit-ignored f (c ∷ path) n h = rw h refl

  -- No rules of the user, negated ones included, take a path out that a default rule ignores.
  pub defaults_stay :
      (lines : List (Bool × Str)) (f : FileFilter Regex) (path : Str)
      → path ≢ []
      → default_hit compile regex_match f path ≡ true
      → should_ignore compile regex_match (load_rules compile regex_match lines f) path ≡ true
  unfolding load_rules
  defaults_stay [] f path n h = default_hit-ignored f path n h
  defaults_stay ((bang_escaped, raw) ∷ lines) f path n h =
      defaults_stay lines (parse_rule compile regex_match bang_escaped raw f) path n
        (parse_rule-default_hit f bang_escaped raw path ∙ h)
