-- ===== src/Tracker/Joining.antt =====
-- What a registration that is accepted leads to.
use mathlib.Core.Option.{some-injective}
use veritas_sync.Base.{
  ℕ, ◌≡◌, refl, sym, ap, ◌∙◌, ◌≢◌, ◌↔◌, inl, inr, false, not, ◌&&◌, some, arith, Str, str_key,
  nat_key, nat_eq, str_eq, str_eq_iff, str_eq_refl, if◌then◌else◌, Bool-cases, Option-cases, In,
}
use veritas_sync.Base.Map.{find, find-insert_or_assign, find-erase}
use veritas_sync.Tracker.State.{Tracker, get_id, set_insert, group_of}
use veritas_sync.Tracker.TrackerServer.{evict_old, admit, join}
use veritas_sync.Tracker.Rooms.{
  group_of-insert_or_assign, In-set_insert, In-set_erase, group_of-evict_old,
}

pub evict_old-sessions :
    (t : Tracker) (s : ℕ) (key : Str) → (evict_old t s key).sessions ≡ t.sessions
unfolding evict_old
evict_old-sessions t s key = ground arith

pub join-sessions : (t : Tracker) (s : ℕ) (key : Str) → (join t s key).sessions ≡ t.sessions
unfolding join admit
join-sessions t s key = evict_old-sessions t s key

find-evict_old :
    (t : Tracker) (s : ℕ) (key j : Str)
    → str_eq (get_id t s) j ≡ false
    → find j (evict_old t s key).peers_by_id ≡ find j t.peers_by_id
unfolding evict_old
find-evict_old t s key j h = ground (arith, find-erase j (get_id t s) t.peers_by_id)

pub find-join :
    (t : Tracker) (s : ℕ) (key j : Str)
    → find j (join t s key).peers_by_id
      ≡ (if str_eq (get_id t s) j then some s else find j t.peers_by_id)
unfolding join admit
find-join t s key j =
    find-insert_or_assign j _ s (evict_old t s key).peers_by_id
    ∙ rw (evict_old-sessions t s key) (ground (arith, find-evict_old t s key j))

pub group_of-join :
    (t : Tracker) (s : ℕ) (key k : Str)
    → group_of k (join t s key).peer_groups ≡ (
        if str_eq key k
        then set_insert s (group_of k (evict_old t s key).peer_groups)
        else group_of k (evict_old t s key).peer_groups)
unfolding join admit
group_of-join t s key k = ground (
  arith,
  str_eq_iff key k,
  group_of-insert_or_assign k key (set_insert s (group_of key (evict_old t s key).peer_groups))
      (evict_old t s key).peer_groups,
)

str_eq_ne : (a b : Str) → b ≢ a → str_eq a b ≡ false
str_eq_ne a b n = ground (arith, str_eq_iff a b)

group_of-evict_old_ne :
    (t : Tracker) (s : ℕ) (key k : Str)
    → k ≢ key
    → group_of k (evict_old t s key).peer_groups ≡ group_of k t.peer_groups
group_of-evict_old_ne t s key k n = ground (arith, group_of-evict_old t s key k, str_eq_ne key k n)

-- Who was in a room and is not the session that `join` evicts from it.
abbrev pub Stays : Tracker → ℕ → Str → Str → ℕ → Type 0
Stays t s key k x =
    In x (group_of k t.peer_groups) × ¬ ((k ≡ key) × (find (get_id t s) t.peers_by_id ≡ some x))

In-evict_old :
    (t : Tracker) (s : ℕ) (key k : Str) (x : ℕ)
    → x ≢ s
    → In x (group_of k (evict_old t s key).peer_groups) ↔ Stays t s key k x
In-evict_old t s key k x n =
    rw (group_of-evict_old t s key k) (elim (Option-cases (find (get_id t s) t.peers_by_id)) [
      | inl e ↦ rw e (λ m. (m, λ (_, q). cc), λ (m, _). m)
      | inr (old, e) ↦ rw e (elim (Bool-cases (str_eq key k && not (nat_eq old s))) [
        | inl b ↦ rw b (
          λ m.
              let (i, d) = (In-set_erase x old _).0 m in
              (i, λ (_, q). d (sym (some-injective _ _ q))),
          λ (i, d).
              (In-set_erase x old _).1
                (i, λ q. d (sym ((str_eq_iff key k).0 (ground arith)), ap some (sym q))),
        )
        | inr b ↦ rw b (λ m. (m, λ (p, q). n (ground (arith, str_eq_iff key k))), λ (m, _). m)
      ])
    ])

pub join_effect :
    (t : Tracker) (s : ℕ) (key : Str)
    → let u = join t s key in
      ((j : Str)
        → find j u.peers_by_id ≡ (if str_eq (get_id t s) j then some s else find j t.peers_by_id))
      × In s (group_of key u.peer_groups)
      × ((k : Str) → k ≢ key → In s (group_of k u.peer_groups) ↔ In s (group_of k t.peer_groups))
      × ((k : Str) (x : ℕ) → x ≢ s → In x (group_of k u.peer_groups) ↔ Stays t s key k x)
      × (u.sessions ≡ t.sessions)
join_effect t s key = (
  find-join t s key,
  rw (group_of-join t s key key, str_eq_refl key) ((In-set_insert s s _).1 (inl refl)),
  λ k n.
      rw (group_of-join t s key k, str_eq_ne key k n, group_of-evict_old_ne t s key k n)
        (λ m. m, λ m. m),
  λ k x n. rw (group_of-join t s key k) (present k x n),
  join-sessions t s key,
)
  where
    present :
        (k : Str) (x : ℕ)
        → x ≢ s
        → In x (
            if str_eq key k
            then set_insert s (group_of k (evict_old t s key).peer_groups)
            else group_of k (evict_old t s key).peer_groups)
          ↔ Stays t s key k x
    present k x n = elim (Bool-cases (str_eq key k)) [
      | inl e ↦ rw e (
        λ m. elim ((In-set_insert x s _).0 m) [
          | inl q ↦ absurd (n q)
          | inr i ↦ (In-evict_old t s key k x n).0 i
        ],
        λ st. (In-set_insert x s _).1 (inr ((In-evict_old t s key k x n).1 st)),
      )
      | inr e ↦ rw e (In-evict_old t s key k x n)
    ]

-- After a session has joined a room, its id leads to it and every other id to where it led before.
-- The session is in that room, and in no other room that it was not in before; any other session
-- is in a room exactly when it was there before and is not the session that held the id until now
-- in this very room. No session has changed.
pub join_outcome :
    (t : Tracker) (s x : ℕ) (key other room id : Str)
    → other ≢ key
    → x ≢ s
    → (find id (join t s key).peers_by_id
        ≡ (if str_eq (get_id t s) id then some s else find id t.peers_by_id))
      × In s (group_of key (join t s key).peer_groups)
      × (In s (group_of other (join t s key).peer_groups) ↔ In s (group_of other t.peer_groups))
      × (In x (group_of room (join t s key).peer_groups) ↔ Stays t s key room x)
      × ((join t s key).sessions ≡ t.sessions)
join_outcome t s x key other room id n m =
    let (by_id, own, elsewhere, rooms, same) = join_effect t s key in
    (by_id id, own, elsewhere other n, rooms room x m, same)
