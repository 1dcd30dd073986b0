-- ===== src/Sync/SyncManager/Tables.antt =====
-- The containers that the comparison builds, by what a lookup in them finds.
use veritas_sync.Base.{
  ◌≡◌, refl, Bool, true, ◌||◌, List, [], ◌∷◌, Option, none, some, arith, Str, str_key, nat_key,
  if◌then◌else◌, any, contains,
}
use veritas_sync.Base.Map.{Map, find, insert_or_assign, find-insert_or_assign}
use veritas_sync.Common.PathUtils.{normalize, are_equal}
use veritas_sync.Common.PathUtils.Normalize.{path_key, are_equal_sym, are_equal_congr}
use veritas_sync.Sync.Protocol.{FileInfo}
use veritas_sync.Sync.SyncManager.{local_file_hashes, path_set}

-- Two paths name one file: their normalised forms are equal without case.
abbrev pub same_file : Bool → Str → Str → Bool
same_file win32 p q = are_equal (normalize win32 p) (normalize win32 q)

-- The hash that a list of files gives a path: that of the last file of the list that the path
-- names.
unfoldable pub hash_of : Bool → Str → List FileInfo → Option Str
hash_of win32 path [] = none
hash_of win32 path (info ∷ files) = elim (hash_of win32 path files) [
  | some hash ↦ some hash
  | none ↦ if same_file win32 info.path path then some info.hash else none
]

find-local_file_hashes_onto :
    (win32 : Bool) (path : Str) (m : Map Str Str) (files : List FileInfo)
    → find ⦃e = path_key⦄ (normalize win32 path) (local_file_hashes win32 m files)
      ≡ (elim (hash_of win32 path files) [
        | some hash ↦ some hash
        | none ↦ find ⦃e = path_key⦄ (normalize win32 path) m
      ])
unfolding hash_of local_file_hashes
find-local_file_hashes_onto win32 path m [] = refl
find-local_file_hashes_onto win32 path m (info ∷ files) = ground (
  arith,
  find-local_file_hashes_onto win32 path
      (insert_or_assign ⦃e = path_key⦄ (normalize win32 info.path) info.hash m) files,
  find-insert_or_assign ⦃e = path_key⦄ (normalize win32 path) (normalize win32 info.path) info.hash
      m,
)

pub find-local_file_hashes :
    (win32 : Bool) (path : Str) (files : List FileInfo)
    → find ⦃e = path_key⦄ (normalize win32 path) (local_file_hashes win32 [] files)
      ≡ hash_of win32 path files
unfolding find
find-local_file_hashes win32 path files =
    ground (arith, find-local_file_hashes_onto win32 path [] files)

-- Some path of the list names the file.
abbrev pub names : Bool → List Str → Str → Bool
names win32 paths path = any (λ p. same_file win32 p path) paths

contains_congr :
    (set : List Str) (a b : Str)
    → are_equal a b ≡ true
    → contains ⦃e = path_key⦄ set a ≡ contains ⦃e = path_key⦄ set b
contains_congr [] a b h = refl
contains_congr (x ∷ set) a b h =
    ground (
      arith,
      contains_congr set a b h,
      are_equal_congr a b x h,
      are_equal_sym a x,
      are_equal_sym b x,
    )

contains-path_set_onto :
    (win32 : Bool) (path : Str) (set paths : List Str)
    → contains ⦃e = path_key⦄ (path_set win32 set paths) (normalize win32 path)
      ≡ (contains ⦃e = path_key⦄ set (normalize win32 path) || names win32 paths path)
unfolding path_set
contains-path_set_onto win32 path set [] = ground arith
contains-path_set_onto win32 path set (p ∷ paths) = ground (
  arith,
  contains-path_set_onto win32 path set paths,
  contains-path_set_onto win32 path (normalize win32 p ∷ set) paths,
  contains_congr set (normalize win32 p) (normalize win32 path),
)

pub contains-path_set :
    (win32 : Bool) (path : Str) (paths : List Str)
    → contains ⦃e = path_key⦄ (path_set win32 [] paths) (normalize win32 path)
      ≡ names win32 paths path
contains-path_set win32 path paths = contains-path_set_onto win32 path [] paths
