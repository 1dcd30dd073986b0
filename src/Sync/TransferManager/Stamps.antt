-- ===== src/Sync/TransferManager/Stamps.antt =====
-- The packets of an upload in the order in which they were sent, with their times.
use veritas_sync.Base.{
  ℕ, zero, suc, ◌+◌, ◌≤◌, ◌<◌, ◌≡◌, refl, ap, inl, inr, List, [], ◌∷◌, ◌++◌, arith, Str, str_key,
  nat_key, All, In,
}
use native.Mathlib.Decide.{ℕ_discrete}
use veritas_sync.Sync.TransferManager.Packet.{Snappy, chunk_packet}
use veritas_sync.Sync.TransferManager.Slices.{chunk_of}
use veritas_sync.Sync.TransferManager.Sending.{chunk_packets}
use veritas_sync.Sync.TransferManager.Delivery.{packets_of, indices}

-- Packets with the times at which they arrive.
unfoldable pub stamped : (ℕ → ℕ) → ℕ → List Str → List (ℕ × Str)
stamped clock first [] = []
stamped clock first (packet ∷ packets) = (clock first, packet) ∷ stamped clock (suc first) packets

unfoldable pub arrivals_of : (ℕ → ℕ) → ℕ → ℕ → List (ℕ × ℕ)
arrivals_of clock first zero = []
arrivals_of clock first (suc m) = (clock first, first) ∷ arrivals_of clock (suc first) m

pub stamped-packets_of :
    (S : Snappy) (size : ℕ) (path file : Str) (total : ℕ) (clock : ℕ → ℕ)
    (threshold first last m : ℕ)
    → last ≡ first + m
    → stamped clock first (chunk_packets S size threshold path total file first (suc m))
      ≡ packets_of S size path file total (arrivals_of clock first m ++ (clock last, last) ∷ [])
unfolding stamped chunk_packets arrivals_of
stamped-packets_of S size path file total clock threshold first last zero e =
    let p : last ≡ first = omega (arith, e) in rw p refl
stamped-packets_of S size path file total clock threshold first last (suc m) e =
    ap (λ r. (clock first, chunk_packet S path first total (chunk_of size file first)) ∷ r)
      (stamped-packets_of S size path file total clock threshold (suc first) last m
        (omega (arith, e)))

pub arrivals_below :
    (clock : ℕ → ℕ) (first m n : ℕ)
    → first + m ≤ n
    → All (λ i. i < n) (indices (arrivals_of clock first m))
unfolding arrivals_of
arrivals_below clock first zero n l = tt
arrivals_below clock first (suc m) n l =
    (omega (arith, l), arrivals_below clock (suc first) m n (omega (arith, l)))

pub arrivals_at_most :
    (clock : ℕ → ℕ) (first m k : ℕ) → In k (indices (arrivals_of clock first m)) → k < first + m
unfolding arrivals_of
arrivals_at_most clock first zero k p = absurd p
arrivals_at_most clock first (suc m) k (inl e) = omega (arith, e)
arrivals_at_most clock first (suc m) k (inr p) =
    omega (arith, arrivals_at_most clock (suc first) m k p)

pub arrivals_all :
    (clock : ℕ → ℕ) (first m k : ℕ)
    → first ≤ k
    → k < first + m
    → In k (indices (arrivals_of clock first m))
unfolding arrivals_of
arrivals_all clock first zero k l h = absurd (omega (arith, l, h))
arrivals_all clock first (suc m) k l h = elim (ℕ_discrete k first) [
  | yes e ↦ inl e
  | no n ↦ inr (arrivals_all clock (suc first) m k (ground (arith, l, n)) (omega (arith, h)))
]
