-- ===== src/P2p/KcpScheduler/Pace.antt =====
-- How soon the next pass comes, and how far apart the pings are.
use veritas_sync.Base.{
  ℕ, ◌+◌, ◌-◌, ◌/◌, ◌%◌, ◌^◌, ◌≤◌, min, ◌≡◌, subst, ◌⊎◌, inl, inr, true, List, [], ◌∷◌, arith,
  str_key, nat_key, leb, Bool-cases, In,
}
use veritas_sync.P2p.PeerController.{Peer}
use veritas_sync.P2p.KcpScheduler.{
  interval_max_ms, keepalive_interval_ns, Scheduler, is_valid, check_kcp, next_wakeup, clamp,
  update_all_kcps,
}

next_wakeup_le_start :
    (check : Peer → ℕ → ℕ) (t w : ℕ) (cs : List Peer) → next_wakeup check t w cs ≤ w
unfolding next_wakeup
next_wakeup_le_start check t w [] = omega arith
next_wakeup_le_start check t w (c ∷ cs) = ground (
  arith,
  next_wakeup_le_start check t w cs,
  next_wakeup_le_start check t (min w (check_kcp check t c)) cs,
)

next_wakeup_le_due :
    (check : Peer → ℕ → ℕ) (t w : ℕ) (cs : List Peer) (p : Peer)
    → In p cs
    → is_valid p ≡ true
    → next_wakeup check t w cs ≤ check_kcp check t p
unfolding next_wakeup
next_wakeup_le_due check t w [] p i v = elim i [ ]
next_wakeup_le_due check t w (c ∷ cs) p (inl e) v =
    let below = next_wakeup_le_start check t (min w (check_kcp check t c)) cs in
    let live = subst (λ q. is_valid q ≡ true) e v in rw (e, live) ground (arith, below)
next_wakeup_le_due check t w (c ∷ cs) p (inr i) v = elim (Bool-cases (is_valid c)) [
  | inl h ↦ rw h (next_wakeup_le_due check t (min w (check_kcp check t c)) cs p i v)
  | inr h ↦ rw h (next_wakeup_le_due check t w cs p i v)
]

clamp_bounds :
    (x : ℕ)
    → (1 ≤ clamp x 1 100) × (clamp x 1 100 ≤ 100) × ((clamp x 1 100 ≡ 1) ⊎ (clamp x 1 100 ≤ x))
unfolding clamp
clamp_bounds x = (ground arith, ground arith, ground arith)

in_time :
    (x t w due : ℕ)
    → w ≤ due
    → (1 ≤ x) × (x ≤ 100) × ((x ≡ 1) ⊎ (x ≤ w - t))
    → (1 ≤ x) × (x ≤ 100) × ((x ≡ 1) ⊎ (t + x ≤ due))
in_time x t w due le (a, b, inl c) = (a, b, inl c)
in_time x t w due le (a, b, inr c) = (a, b, inr (omega arith))

-- After a pass over a list with a valid connection in it the next one comes in 1 to 100
-- milliseconds, and not after the time that this connection asked for unless that is less than a
-- millisecond away.
pub next_pass_bounds :
    (check : Peer → ℕ → ℕ) (now : ℕ) (cs : List Peer) (s : Scheduler) (p : Peer)
    → In p cs
    → is_valid p ≡ true
    → (1 ≤ (update_all_kcps check now cs s).0.interval_ms)
      × ((update_all_kcps check now cs s).0.interval_ms ≤ 100)
      × (((update_all_kcps check now cs s).0.interval_ms ≡ 1)
          ⊎ (now / 1000000 % 2 ^ 32 + (update_all_kcps check now cs s).0.interval_ms
              ≤ check_kcp check (now / 1000000 % 2 ^ 32) p))
unfolding update_all_kcps
next_pass_bounds check now [] s p i v = elim i [ ]
next_pass_bounds check now (c ∷ cs) s p i v =
    let t = now / 1000000 % 2 ^ 32 in
    let w = next_wakeup check t ((t + interval_max_ms) % 2 ^ 32) (c ∷ cs) in
    let due = next_wakeup_le_due check t ((t + interval_max_ms) % 2 ^ 32) (c ∷ cs) p i v in
    let settled =
      in_time (clamp (w - t) 1 100) t w (check_kcp check t p) due (clamp_bounds (w - t)) in
    elim (Bool-cases (leb (s.last_keepalive_time + keepalive_interval_ns) now)) [
      | inl h ↦ rw h settled
      | inr h ↦ rw h settled
    ]

unfoldable pub note_pings : ℕ → List Peer → List ℕ → List ℕ
note_pings now [] later = later
note_pings now (_ ∷ _) later = now ∷ later

-- The times of the passes that send pings.
unfoldable pub ping_times : (Peer → ℕ → ℕ) → List (ℕ × List Peer) → Scheduler → List ℕ
unfolding update_all_kcps note_pings
ping_times check [] s = []
ping_times check ((now, cs) ∷ passes) s =
    let (after, driven) = update_all_kcps check now cs s in
    let later = ping_times check passes after in note_pings now driven.pinged later

-- Each time is at least the keepalive interval after the one before it.
abbrev pub Spaced : ℕ → List ℕ → Type 0
Spaced last [] = Unit
Spaced last (t ∷ ts) = (last + keepalive_interval_ns ≤ t) × Spaced t ts

Spaced-earlier : (a b : ℕ) (ts : List ℕ) → a ≤ b → Spaced b ts → Spaced a ts
Spaced-earlier a b [] h s = tt
Spaced-earlier a b (t ∷ ts) h s = (omega (arith, h, s.0), s.1)

note_pings-Spaced :
    (last now : ℕ) (pinged : List Peer) (later : List ℕ)
    → last + keepalive_interval_ns ≤ now
    → Spaced now later
    → Spaced last (note_pings now pinged later)
unfolding note_pings
note_pings-Spaced last now [] later h k = Spaced-earlier last now later (omega (arith, h)) k
note_pings-Spaced last now (_ ∷ _) later h k = (h, k)

leb_le : (a b : ℕ) → leb a b ≡ true → a ≤ b
leb_le a b h = ground arith

-- Whatever the passes are, the pings are sent at least 15 seconds apart, the first as long after the
-- keepalive time at the start.
pub ping_times-Spaced :
    (check : Peer → ℕ → ℕ) (passes : List (ℕ × List Peer)) (s : Scheduler)
    → Spaced s.last_keepalive_time (ping_times check passes s)
unfolding ping_times
ping_times-Spaced check [] s = tt
ping_times-Spaced check ((now, []) ∷ passes) s = ping_times-Spaced check passes s
ping_times-Spaced check ((now, c ∷ cs) ∷ passes) s =
    elim (Bool-cases (leb (s.last_keepalive_time + keepalive_interval_ns) now)) [
      | inl h ↦
          rw (Spaced, h)
            (note_pings-Spaced s.last_keepalive_time now _ _
              (leb_le (s.last_keepalive_time + keepalive_interval_ns) now h)
              (ping_times-Spaced check passes _))
      | inr h ↦ rw (h) (ping_times-Spaced check passes _)
    ]
