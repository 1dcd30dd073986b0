-- ===== src/Tracker/Rooms.antt =====
-- What `join`, `leave` and `forward` do to the rooms and to the directory of peers.
use veritas_sync.Base.{
  ℕ, ◌≡◌, refl, ap, ◌≢◌, ◌↔◌, ◌⊎◌, inl, inr, true, false, not, ◌&&◌, List, [], ◌∷◌, none, some,
  arith, Str, str_key, nat_key, nat_eq, str_eq, str_eq_iff, if◌then◌else◌, length, Bool-cases,
  Option-cases, contains, In, keep_if-In, In-keep_if,
}
use veritas_sync.Base.Map.{Map, find, insert_or_assign, erase, find-insert_or_assign, find-erase}
use veritas_sync.Tracker.State.{Tracker, get_id, set_insert, set_erase, group_of}
use veritas_sync.Tracker.TrackerServer.{evict_old, leave}

pub group_of-insert_or_assign :
    (k key : Str) (set : List ℕ) (groups : Map Str (List ℕ))
    → group_of k (insert_or_assign key set groups)
      ≡ (if str_eq key k then set else group_of k groups)
unfolding group_of
group_of-insert_or_assign k key set groups = ground (arith, find-insert_or_assign k key set groups)

pub group_of-erase :
    (k key : Str) (groups : Map Str (List ℕ))
    → group_of k (erase key groups) ≡ (if str_eq key k then [] else group_of k groups)
unfolding group_of
group_of-erase k key groups = ground (arith, find-erase k key groups)

contains_iff : (set : List ℕ) (x : ℕ) → (contains set x ≡ true) ↔ In x set
contains_iff [] x = (λ h. cc, λ m. elim m [ ])
contains_iff (y ∷ set) x = ground (arith, contains_iff set x)

pub In-set_insert : (x s : ℕ) (set : List ℕ) → In x (set_insert s set) ↔ ((x ≡ s) ⊎ In x set)
unfolding set_insert
In-set_insert x s set = elim (Bool-cases (contains set s)) [
  | inl e ↦ rw e (λ m. inr m, λ c. elim c [ inl q ↦ rw q ((contains_iff set s).0 e) | inr m ↦ m ])
  | inr e ↦ rw e (λ m. m, λ m. m)
]

pub In-set_erase : (x s : ℕ) (set : List ℕ) → In x (set_erase s set) ↔ (In x set × (x ≢ s))
unfolding set_erase
In-set_erase x s set = (
  λ m. let (i, t) = In-keep_if _ x set m in (i, ground arith),
  λ (i, n). keep_if-In _ x set i (ground arith),
)

set_erase_nil : (s : ℕ) → set_erase s [] ≡ []
unfolding set_erase
set_erase_nil s = refl

pub key_nonempty : (key : Str) → key ≢ [] → nat_eq (length key) 0 ≡ false
key_nonempty [] h = absurd (h refl)
key_nonempty (c ∷ key) h = ground arith

length_zero {ℓ} : {A : Type ℓ} (xs : List A) → nat_eq (length xs) 0 ≡ true → xs ≡ []
length_zero [] h = refl
length_zero (x ∷ xs) h = absurd (ground arith)

-- The rooms after a departure.
pub group_of-leave :
    (t : Tracker) (s : ℕ) (k : Str)
    → (t.sessions s).sync_key ≢ []
    → group_of k (leave t s).peer_groups ≡ (
        if str_eq (t.sessions s).sync_key k
        then set_erase s (group_of k t.peer_groups)
        else group_of k t.peer_groups)
unfolding leave group_of
group_of-leave t s k h = elim (Option-cases (find (t.sessions s).sync_key t.peer_groups)) [
  | inl e ↦ ground (
    arith,
    key_nonempty (t.sessions s).sync_key h,
    str_eq_iff (t.sessions s).sync_key k,
    set_erase_nil s,
  )
  | inr (set, e) ↦ ground (
    arith,
    key_nonempty (t.sessions s).sync_key h,
    str_eq_iff (t.sessions s).sync_key k,
    find-erase k (t.sessions s).sync_key t.peer_groups,
    find-insert_or_assign k (t.sessions s).sync_key (set_erase s set) t.peer_groups,
    length_zero (set_erase s set),
  )
]

pub find-leave :
    (t : Tracker) (s : ℕ) (id : Str)
    → (t.sessions s).sync_key ≢ []
    → find id (leave t s).peers_by_id
      ≡ (if str_eq (get_id t s) id then none else find id t.peers_by_id)
unfolding leave
find-leave t s id h =
    ground (arith, key_nonempty (t.sessions s).sync_key h, find-erase id (get_id t s) t.peers_by_id)

pub leave-sessions : (t : Tracker) (s : ℕ) → (leave t s).sessions ≡ t.sessions
unfolding leave
leave-sessions t s = ground arith

pub leave_unregistered : (t : Tracker) (s : ℕ) → (t.sessions s).sync_key ≡ [] → leave t s ≡ t
unfolding leave
leave_unregistered t s h = ground (arith, ap length h)

pub group_of-evict_old :
    (t : Tracker) (s : ℕ) (key k : Str)
    → group_of k (evict_old t s key).peer_groups ≡ (elim (find (get_id t s) t.peers_by_id) [
      | none ↦ group_of k t.peer_groups
      | some old ↦
          if str_eq key k && not (nat_eq old s)
          then set_erase old (group_of k t.peer_groups)
          else group_of k t.peer_groups
    ])
unfolding evict_old
group_of-evict_old t s key k = elim (Option-cases (find (get_id t s) t.peers_by_id)) [
  | inl e ↦ rw e (
      ground (
        arith,
        group_of-insert_or_assign k key (group_of key t.peer_groups) t.peer_groups,
        str_eq_iff key k,
      ))
  | inr (old, e) ↦ rw e (
      ground (
        arith,
        group_of-insert_or_assign k key (group_of key t.peer_groups) t.peer_groups,
        group_of-insert_or_assign k key (set_erase old (group_of key t.peer_groups)) t.peer_groups,
        str_eq_iff key k,
      ))
]
