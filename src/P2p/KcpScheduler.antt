-- ===== src/P2p/KcpScheduler.antt =====
-- include/VeritasSync/p2p/KcpScheduler.h and src/p2p/KcpScheduler.cpp: one pass of the thread that
-- drives the connections. The clock counts nanoseconds; `ikcp_check` is asked through the function
-- `check`, and what the pass does to the connections is returned as two lists.
pub mod Pace
use veritas_sync.Base.{
  ℕ, zero, suc, ◌+◌, ◌-◌, ◌*◌, ◌/◌, ◌%◌, ◌^◌, ◌≤◌, ◌<◌, min, ◌≡◌, refl, sym, ap, ◌∙◌, subst, ◌≢◌,
  ◌↔◌, ◌⊎◌, inl, inr, Bool, true, false, not, ◌&&◌, ◌||◌, List, [], ◌∷◌, ◌++◌, map, Option, none,
  some, arith, Str, KeyEq, ◌==◌, str_key, nat_key, nat_eq, nat_eq_iff, str_eq, str_eq_iff,
  str_eq_refl, ltb, leb, if◌then◌else◌, length, take, drop, get_elem?, Bool-cases, Option-cases,
  All, any, bytes, contains, In, keep_if, In-append, In-append_left, In-append_right, keep_if-In,
  In-keep_if, length-append, drop-append, length-keep_if, All-append, All-reverse,
}
use veritas_sync.P2p.PeerController.{Peer, is_connected}

abbrev pub interval_min_ms : ℕ
interval_min_ms = 1

abbrev pub interval_max_ms : ℕ
interval_max_ms = 100

abbrev pub keepalive_interval_ns : ℕ
keepalive_interval_ns = 15000000000

pub record Scheduler : Type 0 where
  pub interval_ms : ℕ
  pub last_keepalive_time : ℕ

-- What a pass asked of the connections: `update_kcp` and the ping message.
pub record Driven : Type 0 where
  pub updated : List Peer
  pub pinged : List Peer

abbrev pub is_valid : Peer → Bool
is_valid p = not p.closed

-- The thread is woken at once for a connection that has no KCP session yet.
unfoldable pub check_kcp : (Peer → ℕ → ℕ) → ℕ → Peer → ℕ
check_kcp check current_ms p = if p.has_kcp then check p current_ms else current_ms

unfoldable pub next_wakeup : (Peer → ℕ → ℕ) → ℕ → ℕ → List Peer → ℕ
unfolding check_kcp
next_wakeup check current_ms wakeup [] = wakeup
next_wakeup check current_ms wakeup (p ∷ ps) =
    let later = min wakeup (check_kcp check current_ms p) in
    if is_valid p
    then next_wakeup check current_ms later ps
    else next_wakeup check current_ms wakeup ps

unfoldable pub clamp : ℕ → ℕ → ℕ → ℕ
clamp x low high = if ltb x low then low else if ltb high x then high else x

unfoldable pub update_all_kcps : (Peer → ℕ → ℕ) → ℕ → List Peer → Scheduler → Scheduler × Driven
unfolding next_wakeup clamp
update_all_kcps check now [] s = (s, record { updated = []; pinged = [] })
update_all_kcps check now (c ∷ cs) s =
    let current_ms = now / 1000000 % 2 ^ 32 in
    let wakeup = next_wakeup check current_ms ((current_ms + interval_max_ms) % 2 ^ 32) (c ∷ cs) in
    let interval = clamp (wakeup - current_ms) interval_min_ms interval_max_ms in
    let updated = keep_if is_valid (c ∷ cs) in
    if leb (s.last_keepalive_time + keepalive_interval_ns) now
    then (
      record { interval_ms = interval; last_keepalive_time = now },
      record { updated = updated; pinged = keep_if (λ p. is_valid p && is_connected p) (c ∷ cs) },
    )
    else (record s { interval_ms = interval }, record { updated = updated; pinged = [] })
