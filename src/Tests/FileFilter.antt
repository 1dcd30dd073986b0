-- ===== src/Tests/FileFilter.antt =====
-- Rules at work on paths.
use veritas_sync.Base.{
  ◌≡◌, refl, Bool, true, false, not, ◌||◌, List, [], ◌∷◌, Option, some, Str, str_key, nat_key,
  str_eq, str_eq_refl, bytes,
}
use veritas_sync.Storage.FileFilter.Glob.{glob_to_regex}
use veritas_sync.Storage.FileFilter.{
  FileFilter, default_patterns, is_negated, load_defaults, parse_rule, load_rules, default_hit,
  should_ignore,
}
use veritas_sync.Storage.FileFilter.Precedence.{last_rule_decides, defaults_stay}
use veritas_sync.Tests.Common.{text_a, differ}

abbrev no_rules : FileFilter Str
no_rules = record {
  default_fast = record { exts = []; dirs = [] };
  default_complex = [];
  user_rules = [];
  user_fast = record { exts = []; dirs = [] };
  has_negation = false;
}

-- Regular expressions are texts; one stands for the path that it is made from.
abbrev keep_text : Str → Option Str
keep_text regex = some regex

abbrev literal_match : Str → Str → Bool
literal_match path regex = str_eq regex (glob_to_regex path)

abbrev keep_a : Str
keep_a = bytes "!a"

abbrev git_file : Str
git_file = bytes ".git/config"

abbrev default_filter : FileFilter Str
default_filter = load_defaults keep_text literal_match default_patterns no_rules

abbrev user_lines : List (Bool × Str)
user_lines = (false, bytes "*.log") ∷ (false, bytes "!.git/config") ∷ []

last_rule_decides_example :
    should_ignore keep_text literal_match
      (parse_rule keep_text literal_match false keep_a default_filter)
      text_a
    ≡ (default_hit keep_text literal_match default_filter text_a || not (is_negated false keep_a))
unfolding str_eq is_negated
last_rule_decides_example =
    last_rule_decides keep_text literal_match default_filter false keep_a text_a
      (glob_to_regex text_a) (differ text_a [] refl) (differ text_a [] refl) refl
      (str_eq_refl (glob_to_regex text_a))

defaults_stay_example :
    should_ignore keep_text literal_match
      (load_rules keep_text literal_match user_lines default_filter)
      git_file
    ≡ true
unfolding str_eq default_hit load_defaults
defaults_stay_example =
    defaults_stay keep_text literal_match user_lines default_filter git_file
      (differ git_file [] refl) refl
