-- ===== src/P2p/PeerRegistry.antt =====
-- include/VeritasSync/p2p/PeerRegistry.h and src/p2p/PeerRegistry.cpp: the connections, by the id of
-- the peer. The lock makes each call one step. A controller that is closed on the way out is
-- returned, as its other owners see it.
use veritas_sync.Base.{
  ℕ, ◌≡◌, refl, sym, ◌∙◌, ◌⊎◌, inl, inr, Bool, true, false, not, ◌&&◌, List, [], ◌∷◌, map, Option,
  none, some, arith, Str, ◌==◌, str_key, nat_key, if◌then◌else◌, length, Bool-cases, Option-cases,
}
use veritas_sync.Base.Map.{
  Map, values, find, insert_or_assign, erase, find-erase, find-insert_self, find-erase_self,
  find_congr,
}
use veritas_sync.P2p.PeerController.{
  PeerState, disconnected, connecting, connected, failed, Peer, is_connected, close,
}

abbrev pub Registry : Type 0
Registry = Map Str Peer

unfoldable pub add : Str → Peer → Registry → Registry
add peer_id controller r = insert_or_assign peer_id controller r

unfoldable pub try_add : Str → Peer → Registry → Registry × Bool
try_add peer_id controller r = elim (find peer_id r) [
  | some _ ↦ (r, false)
  | none ↦ (insert_or_assign peer_id controller r, true)
]

unfoldable pub remove : Str → Registry → Registry × Option Peer
remove peer_id r = elim (find peer_id r) [
  | none ↦ (r, none)
  | some controller ↦ (erase peer_id r, some controller)
]

unfoldable pub collect_connected : Registry → List Peer
collect_connected [] = []
collect_connected ((_, c) ∷ r) =
    let rest = collect_connected r in if is_connected c then c ∷ rest else rest

unfoldable pub collect_all : Registry → List Peer
collect_all r = values r

-- Whether the connection is up or on its way.
unfoldable pub is_live : PeerState → Bool
is_live connected = true
is_live connecting = true
is_live disconnected = false
is_live failed = false

-- Whether the caller is to skip the peer, and the controller that was closed.
unfoldable pub try_reuse_or_evict : Str → Bool → Registry → Registry × Bool × Option Peer
unfolding is_live
try_reuse_or_evict peer_id force r = elim (find peer_id r) [
  | none ↦ (r, false, none)
  | some p ↦
      if not force && is_live p.state
      then (r, true, none)
      else (erase peer_id r, false, some (close p))
]

unfoldable pub close_all : Registry → Registry × List Peer
close_all r = ([], map close (values r))

unfoldable pub size : Registry → ℕ
size r = length r

unfoldable pub closed_of : Option Peer → Option Peer
closed_of none = none
closed_of (some p) = some (close p)

is_live_state : (s : PeerState) → is_live s ≡ true → (s ≡ connected) ⊎ (s ≡ connecting)
unfolding is_live
is_live_state connected h = inl refl
is_live_state connecting h = inr refl
is_live_state disconnected h = cc
is_live_state failed h = cc

is_live_not : (s : PeerState) → is_live s ≡ false → (s ≡ disconnected) ⊎ (s ≡ failed)
unfolding is_live
is_live_not connected h = cc
is_live_not connecting h = cc
is_live_not disconnected h = inl refl
is_live_not failed h = inr refl

idle_of : (f l : Bool) → f ≡ false → (not f && l) ≡ false → l ≡ false
idle_of f l e h = ground arith

force_of : (f l : Bool) → (not f && l) ≡ true → f ≡ false
force_of f l h = ground arith

live_of : (f l : Bool) → (not f && l) ≡ true → l ≡ true
live_of f l h = ground arith

try_add_absent :
    (s : Registry) (peer_id : Str) (c : Peer)
    → find peer_id s ≡ none
    → (try_add peer_id c s ≡ (insert_or_assign peer_id c s, true))
      × (find peer_id (try_add peer_id c s).0 ≡ some c)
unfolding try_add insert_or_assign
try_add_absent s peer_id c n =
    (rw (n, try_add) refl, rw (n, try_add) (find-insert_self peer_id c s))

find_other_absent :
    (r : Registry) (peer_id other : Str)
    → find peer_id r ≡ none
    → find other r ≡ (if peer_id == other then none else find other r)
find_other_absent r peer_id other n = elim (Bool-cases (peer_id == other)) [
  | inl h ↦ rw h (sym (find_congr peer_id other r h) ∙ n)
  | inr h ↦ rw h refl
]

-- The call is forced, no controller is there, or the one there is disconnected or failed.
abbrev pub IsReplaceable : Str → Bool → Registry → Type 0
IsReplaceable peer_id force r =
    (force ≡ true)
    ⊎ (find peer_id r ≡ none)
    ⊎ ((p : Peer) × (find peer_id r ≡ some p) × ((p.state ≡ disconnected) ⊎ (p.state ≡ failed)))

IsReplaceable-unless_live :
    (r : Registry) (peer_id : Str) (force : Bool) (p : Peer)
    → find peer_id r ≡ some p
    → (not force && is_live p.state) ≡ false
    → IsReplaceable peer_id force r
IsReplaceable-unless_live r peer_id force p e k = elim (Bool-cases force) [
  | inl f ↦ inl f
  | inr f ↦ inr (inr (p, e, is_live_not p.state (idle_of force (is_live p.state) f k)))
]

-- For every peer there are two cases, which exclude each other. The call was not forced and a
-- controller is there that is connected or connecting: the caller is told to skip it and the
-- registry is as before. Or the call was forced, or no controller is there, or the one there is
-- disconnected or failed: the caller is not to skip, the controller that was there is closed, it
-- alone leaves the registry, and `try_add` then puts the new one in, to be found by this peer.
pub reuse_or_evict_outcome :
    (r : Registry) (peer_id other : Str) (force : Bool) (controller : Peer)
    → ((p : Peer) × (find peer_id r ≡ some p)
        × (force ≡ false)
        × ((p.state ≡ connected) ⊎ (p.state ≡ connecting))
        × (try_reuse_or_evict peer_id force r ≡ (r, true, none)))
      ⊎ ((s : Registry) × IsReplaceable peer_id force r
          × (try_reuse_or_evict peer_id force r ≡ (s, false, closed_of (find peer_id r)))
          × (find other s ≡ (if peer_id == other then none else find other r))
          × (try_add peer_id controller s ≡ (insert_or_assign peer_id controller s, true))
          × (find peer_id (try_add peer_id controller s).0 ≡ some controller))
unfolding try_reuse_or_evict closed_of
reuse_or_evict_outcome r peer_id other force controller = elim (Option-cases (find peer_id r)) [
  | inl e ↦
      let (b, c) = try_add_absent r peer_id controller e in
      inr
        (r, inr (inl e), rw (e, try_reuse_or_evict) refl, find_other_absent r peer_id other e, b, c)
  | inr (p, e) ↦ elim (Bool-cases (not force && is_live p.state)) [
    | inl k ↦ inl (
      p,
      e,
      force_of force (is_live p.state) k,
      is_live_state p.state (live_of force (is_live p.state) k),
      rw (e, k, try_reuse_or_evict) refl,
    )
    | inr k ↦
        let (b, c) =
          try_add_absent (erase peer_id r) peer_id controller (find-erase_self peer_id r) in
        inr (
          erase peer_id r,
          IsReplaceable-unless_live r peer_id force p e k,
          rw (e, k, try_reuse_or_evict) refl,
          find-erase other peer_id r,
          b,
          c,
        )
  ]
]
