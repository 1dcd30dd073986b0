-- ===== src/Sync/SyncManager/Views.antt =====
-- What a list of files, and a list of actions, says of one path.
use veritas_sync.Base.{
  ◌≡◌, refl, ap, ◌∙◌, inl, inr, Bool, true, List, [], ◌∷◌, Option, none, some, arith, Str, str_key,
  nat_key, str_eq, str_eq_iff, if◌then◌else◌, Bool-cases, Option-cases, In,
}
use veritas_sync.Common.PathUtils.{normalize}
use veritas_sync.Common.PathUtils.Normalize.{are_equal_sym, are_equal_congr}
use veritas_sync.Sync.Protocol.{FileInfo}
use veritas_sync.Sync.SyncManager.{SyncActions}
use veritas_sync.Sync.SyncManager.Tables.{same_file, hash_of, names}
use veritas_sync.Sync.SyncManager.Deletions.{IsAbsent}

pub dec_some : (o : Option Str) (h : Str) → Dec (o ≡ some h)
dec_some none h = no (λ e. cc)
dec_some (some g) h = elim (Bool-cases (str_eq g h)) [
  | inl e ↦ yes (ap some ((str_eq_iff g h).0 e))
  | inr e ↦ no (λ q. ground (arith, str_eq_iff g h))
]

pub names-true :
    (win32 : Bool) (paths : List Str) (p : Str)
    → names win32 paths p ≡ true
    → (q : Str) × In q paths × (same_file win32 q p ≡ true)
names-true win32 [] p h = cc
names-true win32 (x ∷ paths) p h = elim (Bool-cases (same_file win32 x p)) [
  | inl e ↦ (x, inl refl, e)
  | inr e ↦ let (q, m, s) = names-true win32 paths p (ground arith) in (q, inr m, s)
]

pub names_of_In :
    (win32 : Bool) (paths : List Str) (p q : Str)
    → In q paths
    → same_file win32 q p ≡ true
    → names win32 paths p ≡ true
names_of_In win32 [] p q m h = elim m [ ]
names_of_In win32 (x ∷ paths) p q (inl e) h = rw (← e) (rw h refl)
names_of_In win32 (x ∷ paths) p q (inr m) h = ground (arith, names_of_In win32 paths p q m h)

pub hash_of-some :
    (win32 : Bool) (p hash : Str) (files : List FileInfo)
    → hash_of win32 p files ≡ some hash
    → (f : FileInfo) × In f files × (same_file win32 f.path p ≡ true) × (f.hash ≡ hash)
unfolding hash_of
hash_of-some win32 p hash [] h = cc
hash_of-some win32 p hash (f ∷ files) h = elim (Option-cases (hash_of win32 p files)) [
  | inl e ↦ (f, inl refl, ground arith, ground arith)
  | inr (k, e) ↦
      let (g, m, s, q) = hash_of-some win32 p hash files (ground arith) in (g, inr m, s, q)
]

pub hash_of-none :
    (win32 : Bool) (p : Str) (files : List FileInfo)
    → hash_of win32 p files ≡ none
    → IsAbsent win32 files p
unfolding hash_of
hash_of-none win32 p [] h f m = elim m [ ]
hash_of-none win32 p (g ∷ files) h f (inl e) = rw e (ground arith)
hash_of-none win32 p (g ∷ files) h f (inr m) = hash_of-none win32 p files (ground arith) f m

pub hash_of_congr :
    (win32 : Bool) (p q : Str) (files : List FileInfo)
    → same_file win32 p q ≡ true
    → hash_of win32 p files ≡ hash_of win32 q files
unfolding hash_of
hash_of_congr win32 p q [] h = refl
hash_of_congr win32 p q (f ∷ files) h = ground (
  arith,
  hash_of_congr win32 p q files h,
  are_equal_congr (normalize win32 p) (normalize win32 q) (normalize win32 f.path) h,
  are_equal_sym (normalize win32 f.path) (normalize win32 p),
  are_equal_sym (normalize win32 f.path) (normalize win32 q),
)

pub same_file_trans :
    (win32 : Bool) (p q r : Str)
    → same_file win32 p q ≡ true
    → same_file win32 r q ≡ true
    → same_file win32 p r ≡ true
same_file_trans win32 p q r h k = are_equal_congr _ _ (normalize win32 r) h ∙ are_equal_sym _ _ ∙ k

-- The hash that this side has for a path once the actions are carried out: deleted paths have
-- none, requested ones that of the remote file, and the others keep theirs.
abbrev pub hash_after : Bool → List FileInfo → List FileInfo → SyncActions → Str → Option Str
hash_after win32 locals remotes actions path =
    if names win32 actions.files_to_delete path
    then none
    else if names win32 actions.files_to_request path
    then hash_of win32 path remotes
    else hash_of win32 path locals
