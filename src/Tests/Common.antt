-- ===== src/Tests/Common.antt =====
-- Paths and keys.
use veritas_sync.Base.{
  ◌≤◌, ◌≡◌, refl, ◌≢◌, ◌↔◌, true, false, [], Option, some, arith, Str, str_key, nat_key, str_eq,
  str_eq_iff, length, All, bytes,
}
use veritas_sync.Common.PathUtils.{
  are_equal, hash_text, components, parent_dir, is_absolute, join_path,
  is_path_safe_with_canonical_root,
}
use veritas_sync.Common.PathUtils.Safety.{IsUnder, is_path_safe-IsUnder}
use veritas_sync.Common.PathUtils.Normalize.{are_equal-hash_text}
use veritas_sync.Common.SyncKey.{IsKeyChar, is_valid_sync_key, is_valid_sync_key_iff}

abbrev pub text_a : Str
text_a = bytes "a"

abbrev pub text_b : Str
text_b = bytes "b"

abbrev pub text_c : Str
text_c = bytes "c"

abbrev pub text_d : Str
text_d = bytes "d"

pub differ : (a b : Str) → str_eq a b ≡ false → a ≢ b
differ a b h = ground (arith, str_eq_iff a b)

-- A file system without links.
abbrev pub no_links : Str → Option Str
no_links path = some path

abbrev mixed_path : Str
mixed_path = bytes "Docs/Plan/"

abbrev lower_path : Str
lower_path = bytes "docs/plan"

abbrev pub home : Str
home = bytes "/r"

abbrev key_text : Str
key_text = bytes "team_1"

is_path_safe-IsUnder_example :
    (text_a ≢ [])
    × All (λ part. part ≢ parent_dir) (components [] text_a)
    × (is_absolute text_a ≡ false)
    × ((full : Str) × (no_links (join_path home text_a) ≡ some full) × IsUnder home full)
unfolding is_path_safe_with_canonical_root str_eq
is_path_safe-IsUnder_example = is_path_safe-IsUnder no_links home text_a refl

are_equal-hash_text_example :
    are_equal mixed_path lower_path ≡ str_eq (hash_text mixed_path) (hash_text lower_path)
are_equal-hash_text_example = are_equal-hash_text mixed_path lower_path

is_valid_sync_key_iff_example :
    (is_valid_sync_key key_text ≡ true)
    ↔ ((1 ≤ length key_text) × (length key_text ≤ 64) × All IsKeyChar key_text)
is_valid_sync_key_iff_example = is_valid_sync_key_iff key_text
