-- ===== src/Sync/TransferManager/Complete.antt =====
-- An upload whose file opens and whose connection holds.
use veritas_sync.Base.{
  ℕ, ◌+◌, ◌-◌, ◌^◌, ◌≤◌, ◌<◌, ◌≡◌, refl, sym, ap, ◌∙◌, subst, ◌≢◌, inl, inr, false, List, [], ◌∷◌,
  ◌++◌, Option, none, some, arith, Str, str_key, nat_key, nat_eq, length, Bool-cases, All, In,
  In-append_right,
}
use veritas_sync.Base.Map.{find, find-erase_self}
use veritas_sync.Sync.TransferManager.State.{Transfer}
use veritas_sync.Sync.TransferManager.State.{make_sending_key}
use veritas_sync.Sync.TransferManager.Packet.{Snappy}
use veritas_sync.Sync.TransferManager.Upload.{
  UploadContext, chunk_count, Flow, all_sent, finish_upload, upload_loop, run_upload,
}
use veritas_sync.Sync.TransferManager.Sending.{
  chunk_packets, chunk_packets-append, Outcome, sent_rest, paused, lost, send_chunks-Sent,
}
use veritas_sync.Sync.TransferManager.Ending.{
  IsWithin, opened_context, shown_total, finished, resume_upload-send_chunks,
}

-- The upload is over, and the file is recorded as sent if it has a hash.
pub record IsUploaded (ctx : UploadContext) (t : Transfer) : Type 0 where
  pub no_entry : find (make_sending_key ctx.peer_id ctx.path) t.sending_files ≡ none
  pub recorded :
      1 ≤ length ctx.file_hash
      → In (record { peer_id = ctx.peer_id; path = ctx.path; hash = ctx.file_hash }) t.sent

module _ (S : Snappy) (size congestion_threshold : ℕ) where
  end_upload-IsUploaded :
      (ctx ended : UploadContext) (n m : ℕ) (t : Transfer)
      → ended ≡ record (opened_context S size congestion_threshold n ctx) { current_chunk = m }
      → IsUploaded ctx (finish_upload (ended, t, all_sent)).1
  unfolding finish_upload
  end_upload-IsUploaded ctx ended n m t e = rw e (record {
    no_entry = elim (Bool-cases (nat_eq (length ctx.file_hash) 0)) [
      | inl p ↦ rw p (find-erase_self (make_sending_key ctx.peer_id ctx.path) t.sending_files)
      | inr p ↦ rw p (find-erase_self (make_sending_key ctx.peer_id ctx.path) t.sending_files)
    ];
    recorded = λ h.
        let p : nat_eq (length ctx.file_hash) 0 ≡ false = ground (arith, h) in
        rw p (In-append_right _ t.sent _ (inl refl));
  })

  -- A run on an open file and a connection that holds: it sends the rest, or some of it.
  pub data Run (n : ℕ) (content : Str) (ctx : UploadContext)
      (result : List Str × Option UploadContext × Transfer) : Type 0 where
    complete :
        result.0
          ≡ chunk_packets S size congestion_threshold ctx.path n content ctx.current_chunk
              (n - ctx.current_chunk)
        → result.1 ≡ none
        → IsUploaded ctx result.2
        → Run n content ctx result
    partial :
        (m : ℕ)
        → 1 ≤ m
        → m ≤ n - ctx.current_chunk
        → result.0
          ≡ chunk_packets S size congestion_threshold ctx.path n content ctx.current_chunk m
        → result.1
          ≡ some (record (opened_context S size congestion_threshold n ctx) {
            current_chunk = ctx.current_chunk + m;
          })
        → Run n content ctx result

  outcome-Run :
      (n m : ℕ) (answer : ℕ → Option ℕ) (content : Str) (ctx ended : UploadContext)
      (packets : List Str) (t : Transfer) (flow : Flow)
      → ((i : ℕ) → answer i ≢ none)
      → m ≤ n - ctx.current_chunk
      → ended ≡ record (opened_context S size congestion_threshold n ctx) {
        current_chunk = ctx.current_chunk + m;
      }
      → Outcome S size congestion_threshold answer content
          (opened_context S size congestion_threshold n ctx)
          (n - ctx.current_chunk)
          m
          packets
          flow
      → Run n content ctx (finished S size congestion_threshold (packets, ended, t, flow))
  unfolding finish_upload
  outcome-Run n m answer content ctx ended packets t flow holds l e (sent_rest p) =
      complete (rw p refl) refl (end_upload-IsUploaded ctx ended n (ctx.current_chunk + m) t e)
  outcome-Run n m answer content ctx ended packets t flow holds l e (paused p) =
      partial m p l refl (ap (λ c. some c) e)
  outcome-Run n m answer content ctx ended packets t flow holds l e (lost i p) = absurd (holds i p)

  upload_loop-Run :
      (max_retries n : ℕ) (answer : ℕ → Option ℕ) (content : Str) (ctx : UploadContext)
      (t : Transfer)
      → n < 2 ^ 32
      → IsWithin n ctx
      → chunk_count size content ≡ n
      → ((i : ℕ) → answer i ≢ none)
      → Run n content ctx
          (upload_loop S size congestion_threshold max_retries (some content) answer ctx t)
  unfolding upload_loop
  upload_loop-Run max_retries n answer content ctx t small w sized holds =
      let s =
        send_chunks-Sent S size congestion_threshold (n - ctx.current_chunk) answer content
          (opened_context S size congestion_threshold n ctx)
          (shown_total S size congestion_threshold n ctx t) (omega (arith, small, w.not_past)) in
      subst (λ r. Run n content ctx r)
        (sym (resume_upload-send_chunks S size congestion_threshold n answer content ctx t w sized))
        (outcome-Run n s.count answer content ctx _ _ _ _ holds s.within s.moved s.outcome)

  again-IsUploaded :
      (n m : ℕ) (ctx : UploadContext) (t : Transfer)
      → IsUploaded
          (record (opened_context S size congestion_threshold n ctx) { current_chunk = m })
          t
      → IsUploaded ctx t
  again-IsUploaded n m ctx t u = record { no_entry = u.no_entry; recorded = u.recorded }

  -- The file opens at every run with the same bytes and the connection is never lost: with one run
  -- more than there are chunks to send, the upload sends each of them once and in order, then ends and
  -- records the file, if it has a hash. The number of chunks is below 2 ^ 32, and the upload does not
  -- begin beyond them.
  pub run_upload_complete :
      (max_retries n : ℕ) (content : Str) (attempts : List (Option Str × (ℕ → Option ℕ)))
      (ctx : UploadContext) (t : Transfer)
      → n < 2 ^ 32
      → IsWithin n ctx
      → chunk_count size content ≡ n
      → All (λ (opened, answer). (opened ≡ some content) × ((i : ℕ) → answer i ≢ none)) attempts
      → n - ctx.current_chunk < length attempts
      → let result = run_upload S size congestion_threshold max_retries attempts ctx t in
        (result.0
          ≡ chunk_packets S size congestion_threshold ctx.path n content ctx.current_chunk
              (n - ctx.current_chunk))
        × (result.1 ≡ none)
        × IsUploaded ctx result.2
  unfolding run_upload
  run_upload_complete max_retries n content [] ctx t small w sized all l = absurd (omega (arith, l))
  run_upload_complete max_retries n content ((opened, answer) ∷ attempts) ctx t small w sized
        ((o, holds), all) l =
      let run : Run n content ctx
          (upload_loop S size congestion_threshold max_retries opened answer ctx t) =
        rw o (upload_loop-Run max_retries n answer content ctx t small w sized holds) in
      elim run [
        | complete p e u ↦ rw (e, run_upload) (p, refl, u)
        | partial m some_sent within p e ↦
            let again = record (opened_context S size congestion_threshold n ctx) {
              current_chunk = ctx.current_chunk + m;
            } in
            let w' : IsWithin n again = record {
              counted_or_new = inr refl;
              not_past = omega (arith, within, w.not_past);
            } in
            let (q, f, u) =
              run_upload_complete max_retries n content attempts again
                (upload_loop S size congestion_threshold max_retries opened answer ctx t).2 small w'
                sized all (omega (arith, l, some_sent, within)) in
            rw (e, run_upload)
              (
                ap
                      (λ r.
                        r
                        ++ (run_upload S size congestion_threshold max_retries attempts again
                            (upload_loop S size congestion_threshold max_retries opened answer ctx
                              t).2).0)
                      p
                    ∙ ap
                        (λ r.
                          chunk_packets S size congestion_threshold ctx.path n content
                            ctx.current_chunk m
                          ++ r)
                        q
                    ∙ chunk_packets-append S size congestion_threshold ctx.path n content
                        ctx.current_chunk (ctx.current_chunk + m) m (n - (ctx.current_chunk + m))
                        (n - ctx.current_chunk) refl (omega (arith, within, w.not_past)),
                f,
                again-IsUploaded n (ctx.current_chunk + m) ctx _ u,
              )
      ]
