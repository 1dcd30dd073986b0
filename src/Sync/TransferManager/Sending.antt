-- ===== src/Sync/TransferManager/Sending.antt =====
-- What the upload loop sends, and that it ends.
use veritas_sync.Base.{
  ℕ, zero, suc, ◌+◌, ◌%◌, ◌^◌, ◌≤◌, ◌<◌, ◌≡◌, refl, ap, ◌∙◌, inl, inr, List, [], ◌∷◌, ◌++◌, Option,
  none, arith, Str, str_key, nat_key, ltb, Bool-cases, Option-cases,
}
use veritas_sync.Sync.TransferManager.State.{Transfer}
use veritas_sync.Sync.TransferManager.State.{make_sending_key}
use veritas_sync.Sync.TransferManager.Packet.{Snappy, chunk_packet}
use veritas_sync.Sync.TransferManager.Slices.{chunk_of}
use veritas_sync.Sync.TransferManager.Upload.{
  UploadContext, update_sending, Flow, all_sent, disconnected, congested, send_chunks,
}

module _ (S : Snappy) (size congestion_threshold : ℕ) where
  -- The packets of `count` chunks from `first` on.
  unfoldable pub chunk_packets : Str → ℕ → Str → ℕ → ℕ → List Str
  chunk_packets path total content first zero = []
  chunk_packets path total content first (suc count) =
      chunk_packet S path first total (chunk_of size content first)
      ∷ chunk_packets path total content (suc first) count

  pub chunk_packets-append :
      (path : Str) (total : ℕ) (content : Str) (first next m n k : ℕ)
      → next ≡ first + m
      → k ≡ m + n
      → chunk_packets path total content first m ++ chunk_packets path total content next n
        ≡ chunk_packets path total content first k
  unfolding chunk_packets
  chunk_packets-append path total content first next zero n k e f =
      let e' : next ≡ first = omega (arith, e) in
      let f' : k ≡ n = omega (arith, f) in rw (e', f') refl
  chunk_packets-append path total content first next (suc m) n zero e f = absurd (omega (arith, f))
  chunk_packets-append path total content first next (suc m) n (suc k) e f =
      ap (λ r. chunk_packet S path first total (chunk_of size content first) ∷ r)
        (chunk_packets-append path total content (suc first) next m n k (omega (arith, e))
          (omega (arith, f)))

  -- How a run ended, and what it sent.
  pub data Outcome (answer : ℕ → Option ℕ) (content : Str) (ctx : UploadContext) (left m : ℕ)
      : List Str → Flow → Type 0 where
    sent_rest :
        m ≡ left
        → Outcome answer content ctx left m
            (chunk_packets ctx.path ctx.total_chunks content ctx.current_chunk m)
            all_sent
    paused :
        1 ≤ m
        → Outcome answer content ctx left m
            (chunk_packets ctx.path ctx.total_chunks content ctx.current_chunk m)
            congested
    lost :
        {packets : List Str} (i : ℕ)
        → answer i ≡ none
        → Outcome answer content ctx left m packets disconnected

  pub record Sent (answer : ℕ → Option ℕ) (content : Str) (ctx : UploadContext) (left : ℕ)
      (result : List Str × UploadContext × Transfer × Flow) : Type 0 where
    pub count : ℕ
    pub within : count ≤ left
    pub moved : result.1 ≡ record ctx { current_chunk = ctx.current_chunk + count }
    pub outcome : Outcome answer content ctx left count result.0 result.3

  abbrev advanced : UploadContext → UploadContext
  advanced ctx = record ctx { current_chunk = (ctx.current_chunk + 1) % 2 ^ 32 }

  abbrev packet_at : UploadContext → Str → Str
  packet_at ctx content =
      chunk_packet S ctx.path ctx.current_chunk ctx.total_chunks
        (chunk_of size content ctx.current_chunk)

  outcome_one :
      (answer : ℕ → Option ℕ) (content : Str) (ctx : UploadContext) (left m : ℕ)
      (packets : List Str) (flow : Flow)
      → ctx.current_chunk + 1 < 2 ^ 32
      → Outcome answer content (advanced ctx) left m packets flow
      → Outcome answer content ctx (suc left) (suc m) (packet_at ctx content ∷ packets) flow
  unfolding chunk_packets
  outcome_one answer content ctx left m packets flow small (sent_rest p) =
      let e : (ctx.current_chunk + 1) % 2 ^ 32 ≡ suc ctx.current_chunk = omega (arith, small) in
      let q : suc m ≡ suc left = omega (arith, p) in rw e (sent_rest q)
  outcome_one answer content ctx left m packets flow small (paused p) =
      let e : (ctx.current_chunk + 1) % 2 ^ 32 ≡ suc ctx.current_chunk = omega (arith, small) in
      let q : 1 ≤ suc m = omega arith in rw e (paused q)
  outcome_one answer content ctx left m packets flow small (lost i e) = lost i e

  same_place : (ctx : UploadContext) → ctx ≡ record ctx { current_chunk = ctx.current_chunk + 0 }
  same_place ctx = let e : ctx.current_chunk + 0 ≡ ctx.current_chunk = omega arith in rw e refl

  -- After one chunk.
  next_place :
      (ctx ended : UploadContext) (m : ℕ)
      → ctx.current_chunk + 1 < 2 ^ 32
      → ended ≡ record (advanced ctx) { current_chunk = (advanced ctx).current_chunk + m }
      → ended ≡ record ctx { current_chunk = ctx.current_chunk + suc m }
  next_place ctx ended m small e =
      let p : (ctx.current_chunk + 1) % 2 ^ 32 + m ≡ ctx.current_chunk + suc m =
        omega (arith, small) in
      e ∙ rw p refl

  abbrev shown_one : UploadContext → Transfer → Transfer
  shown_one ctx t =
      update_sending (make_sending_key ctx.peer_id ctx.path)
        (λ entry. record entry { sent_chunks = (ctx.current_chunk + 1) % 2 ^ 32 }) t

  pub send_chunks-Sent :
      (left : ℕ) (answer : ℕ → Option ℕ) (content : Str) (ctx : UploadContext) (t : Transfer)
      → ctx.current_chunk + left < 2 ^ 32
      → Sent answer content ctx left
          (send_chunks S size congestion_threshold left answer content ctx t)
  unfolding send_chunks chunk_packets
  send_chunks-Sent zero answer content ctx t small = record {
    count = 0;
    within = omega arith;
    moved = same_place ctx;
    outcome = sent_rest refl;
  }
  send_chunks-Sent (suc left) answer content ctx t small =
      let one : ctx.current_chunk + 1 < 2 ^ 32 = omega (arith, small) in
      elim (Option-cases (answer ctx.current_chunk)) [
        | inl e ↦
            rw (e, send_chunks)
              (record {
                count = 0;
                within = omega arith;
                moved = same_place ctx;
                outcome = lost ctx.current_chunk e;
              })
        | inr (pending, e) ↦ elim (Bool-cases (ltb congestion_threshold pending)) [
          | inl p ↦
              rw (e, p, send_chunks)
                (record {
                  count = 1;
                  within = omega arith;
                  moved = next_place ctx (advanced ctx) 0 one (same_place (advanced ctx));
                  outcome = paused (omega arith);
                })
          | inr p ↦
              let rest =
                send_chunks-Sent left answer content (advanced ctx) (shown_one ctx t)
                  (omega (arith, small)) in
              rw (e, p, send_chunks)
                (record {
                  count = suc rest.count;
                  within = omega (arith, rest.within);
                  moved = next_place ctx _ rest.count one rest.moved;
                  outcome = outcome_one answer content ctx left rest.count _ _ one rest.outcome;
                })
        ]
      ]
