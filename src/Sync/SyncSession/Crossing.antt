-- ===== src/Sync/SyncSession/Crossing.antt =====
-- Two peers that begin a flood at the same time.
use veritas_sync.Base.{
  ◌≡◌, ◌≢◌, ◌⊎◌, inl, inr, Bool, true, false, not, some, arith, str_key, nat_key, Bool-cases,
}
use veritas_sync.P2p.PeerController.{Peer, is_offer_side, start_sync_timeout}
use veritas_sync.P2p.PeerController.Roles.{AreEnds, one_end_offers}
use veritas_sync.Sync.SyncSession.{SyncBegin, begin_progress, handle_sync_begin}

ignored :
    (p : Peer) (b c : SyncBegin)
    → p.progress.session_id ≡ b.session_id
    → b.session_id ≢ 0
    → is_offer_side p ≡ true
    → (handle_sync_begin (some c) p).0 ≡ p
unfolding handle_sync_begin
ignored p b c e n h = ground (arith, e, n, h)

yields :
    (p : Peer) (c : SyncBegin)
    → is_offer_side p ≡ false
    → (handle_sync_begin (some c) p).0.progress ≡ begin_progress c
unfolding handle_sync_begin start_sync_timeout
yields p c h = ground (arith, h)

other_not : (x y : Bool) → x ≡ not y → x ≡ true → y ≡ false
other_not x y e h = ground (arith, e, h)

other_is : (x y : Bool) → x ≡ not y → x ≡ false → y ≡ true
other_is x y e h = ground (arith, e, h)

-- When both ends of a connection between different devices have a session of their own and each
-- receives the other's begin, both go on with the session of the side that makes the offer: that
-- side ignores the begin, and the other expects its counts and has received nothing yet.
pub crossing_begins :
    (p q : Peer) (b c : SyncBegin)
    → AreEnds p q
    → p.self_id ≢ p.peer_id
    → p.progress.session_id ≡ b.session_id
    → q.progress.session_id ≡ c.session_id
    → b.session_id ≢ 0
    → c.session_id ≢ 0
    → ((is_offer_side p ≡ true)
        × ((handle_sync_begin (some c) p).0 ≡ p)
        × ((handle_sync_begin (some b) q).0.progress ≡ begin_progress b))
      ⊎ ((is_offer_side q ≡ true)
          × ((handle_sync_begin (some b) q).0 ≡ q)
          × ((handle_sync_begin (some c) p).0.progress ≡ begin_progress c))
crossing_begins p q b c (e, f) differ pb qc b0 c0 =
    let opposite = one_end_offers p q (e, f) differ in
    elim (Bool-cases (is_offer_side p)) [
      | inl h ↦ inl (
        h,
        ignored p b c pb b0 h,
        yields q b (other_not (is_offer_side p) (is_offer_side q) opposite h),
      )
      | inr h ↦ inr (
        (other_is (is_offer_side p) (is_offer_side q) opposite h),
        ignored q c b qc c0 (other_is (is_offer_side p) (is_offer_side q) opposite h),
        yields p c h,
      )
    ]
