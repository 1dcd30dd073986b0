-- ===== src/Sync/TransferManager/Ending.antt =====
-- An upload as a sequence of runs of its loop.
use veritas_sync.Base.{
  ℕ, suc, ◌+◌, ◌-◌, ◌*◌, ◌^◌, ◌≤◌, ◌<◌, ◌≡◌, refl, sym, ap, ◌∙◌, ◌⊎◌, inl, inr, true, List, [], ◌∷◌,
  Option, none, some, arith, Str, str_key, nat_key, nat_eq, ltb, if◌then◌else◌, length, Bool-cases,
  Option-cases, All,
}
use veritas_sync.Sync.TransferManager.State.{Transfer}
use native.Mathlib.Nat.{mul-le-mul_right}
use veritas_sync.Sync.TransferManager.State.{make_sending_key}
use veritas_sync.Sync.TransferManager.Packet.{Snappy}
use veritas_sync.Sync.TransferManager.Upload.{
  UploadContext, chunk_count, update_sending, Flow, send_chunks, finish_upload, resume_upload,
  upload_loop, run_upload,
}
use veritas_sync.Sync.TransferManager.Sending.{Outcome, sent_rest, paused, lost, send_chunks-Sent}

-- A context of a file of `n` chunks, of which the number may not be known yet.
pub record IsWithin (n : ℕ) (ctx : UploadContext) : Type 0 where
  pub counted_or_new : (ctx.total_chunks ≡ 0) ⊎ (ctx.total_chunks ≡ n)
  pub not_past : ctx.current_chunk ≤ n

-- How many runs are left at most.
abbrev pub runs_left : ℕ → ℕ → UploadContext → ℕ
runs_left max_retries n ctx =
    (n - ctx.current_chunk) * (max_retries + 1) + (max_retries - ctx.open_retry_count)

module _ (S : Snappy) (size congestion_threshold : ℕ) where
  abbrev pub opened_context : ℕ → UploadContext → UploadContext
  opened_context n ctx = record ctx { open_retry_count = 0; total_chunks = n }

  abbrev pub finished :
      List Str × UploadContext × Transfer × Flow → List Str × Option UploadContext × Transfer
  finished r =
      let (packets, ended, last, flow) = r in
      let (next, after) = finish_upload (ended, last, flow) in (packets, next, after)

  abbrev pub shown_total : ℕ → UploadContext → Transfer → Transfer
  shown_total n ctx t =
      if nat_eq ctx.total_chunks 0
      then update_sending (make_sending_key ctx.peer_id ctx.path)
          (λ entry. record entry { total_chunks = n }) t
      else t

  pub resume_upload-send_chunks :
      (n : ℕ) (answer : ℕ → Option ℕ) (content : Str) (ctx : UploadContext) (t : Transfer)
      → IsWithin n ctx
      → chunk_count size content ≡ n
      → resume_upload S size congestion_threshold answer content ctx t
        ≡ finished (
            send_chunks S size congestion_threshold
              (n - ctx.current_chunk)
              answer
              content
              (opened_context n ctx)
              (shown_total n ctx t))
  unfolding resume_upload
  resume_upload-send_chunks n answer content ctx t w e =
      let total : (if nat_eq ctx.total_chunks 0 then chunk_count size content else ctx.total_chunks)
          ≡ n =
        elim w.counted_or_new [ inl p ↦ rw p e | inr p ↦ ground (arith, p, e) ] in
      rw (total, resume_upload) refl

  -- A run that is to be followed by another has sent a chunk.
  outcome-runs_left :
      (max_retries n m : ℕ) (answer : ℕ → Option ℕ) (content : Str)
      (ctx ended again : UploadContext) (packets : List Str) (t : Transfer) (flow : Flow)
      → IsWithin n ctx
      → m ≤ n - ctx.current_chunk
      → ended ≡ record (opened_context n ctx) { current_chunk = ctx.current_chunk + m }
      → Outcome S size congestion_threshold answer content
          (opened_context n ctx)
          (n - ctx.current_chunk)
          m
          packets
          flow
      → (finish_upload (ended, t, flow)).0 ≡ some again
      → IsWithin n again × (runs_left max_retries n again < runs_left max_retries n ctx)
  unfolding finish_upload
  outcome-runs_left max_retries n m answer content ctx ended again packets t flow w l e
        (sent_rest p) q =
      cc
  outcome-runs_left max_retries n m answer content ctx ended again packets t flow w l e (lost i p)
        q =
      cc
  outcome-runs_left max_retries n m answer content ctx ended again packets t flow w l e (paused p)
        q =
      let same : again ≡ record (opened_context n ctx) { current_chunk = ctx.current_chunk + m } =
        sym (some_same q) ∙ e in
      rw same (record { counted_or_new = inr refl; not_past = omega (arith, l, w.not_past) }, fewer)
    where
      some_same : {a b : UploadContext} → some a ≡ some b → a ≡ b
      some_same h = cc

      fewer :
          (n - (ctx.current_chunk + m)) * (max_retries + 1) + (max_retries - 0)
          < (n - ctx.current_chunk) * (max_retries + 1) + (max_retries - ctx.open_retry_count)
      fewer =
          let le : suc (n - (ctx.current_chunk + m)) * (max_retries + 1)
              ≤ (n - ctx.current_chunk) * (max_retries + 1) =
            mul-le-mul_right (max_retries + 1) (omega (arith, p, l)) in
          omega (arith, le)

  -- Every run but the last leaves fewer runs.
  upload_loop-runs_left :
      (max_retries n : ℕ) (opened : Option Str) (answer : ℕ → Option ℕ) (ctx again : UploadContext)
      (t : Transfer)
      → n < 2 ^ 32
      → IsWithin n ctx
      → ((content : Str) → opened ≡ some content → chunk_count size content ≡ n)
      → (upload_loop S size congestion_threshold max_retries opened answer ctx t).1 ≡ some again
      → IsWithin n again × (runs_left max_retries n again < runs_left max_retries n ctx)
  unfolding upload_loop
  upload_loop-runs_left max_retries n none answer ctx again t small w sized e =
      elim (Bool-cases (ltb ctx.open_retry_count max_retries)) [
        | inl p ↦ retried p (rw p at e)
        | inr p ↦ gave_up (rw p at e)
      ]
    where
      retried :
          ltb ctx.open_retry_count max_retries ≡ true
          → some (record ctx { open_retry_count = ctx.open_retry_count + 1 }) ≡ some again
          → IsWithin n again × (runs_left max_retries n again < runs_left max_retries n ctx)
      retried p q =
          let same : again ≡ record ctx { open_retry_count = ctx.open_retry_count + 1 } = cc in
          let below : ctx.open_retry_count < max_retries = ground (arith, p) in
          rw same (
            record { counted_or_new = w.counted_or_new; not_past = w.not_past },
            omega (arith, below),
          )

      gave_up :
          ◌≡◌ {A = Option UploadContext} none (some again)
          → IsWithin n again × (runs_left max_retries n again < runs_left max_retries n ctx)
      gave_up q = cc
  upload_loop-runs_left max_retries n (some content) answer ctx again t small w sized e =
      let s =
        send_chunks-Sent S size congestion_threshold (n - ctx.current_chunk) answer content
          (opened_context n ctx) (shown_total n ctx t) (omega (arith, small, w.not_past)) in
      outcome-runs_left max_retries n s.count answer content ctx _ again _ _ _ w s.within s.moved
        s.outcome
        (ap (λ r. r.1)
            (sym (resume_upload-send_chunks n answer content ctx t w (sized content refl)))
          ∙ e)

  -- An upload ends: however often the file does not open, whatever the callback answers, no more runs
  -- of the loop follow once there were as many as one more than the retries for each missing chunk,
  -- and the retries that are left. The file has the same number of chunks each time it opens, which
  -- is below 2 ^ 32, and the upload does not begin beyond them.
  pub run_upload-ends :
      (max_retries n : ℕ) (attempts : List (Option Str × (ℕ → Option ℕ))) (ctx : UploadContext)
      (t : Transfer)
      → n < 2 ^ 32
      → IsWithin n ctx
      → All
          (λ (opened, answer).
            (content : Str) → opened ≡ some content → chunk_count size content ≡ n)
          attempts
      → runs_left max_retries n ctx < length attempts
      → (run_upload S size congestion_threshold max_retries attempts ctx t).1 ≡ none
  unfolding run_upload
  run_upload-ends max_retries n [] ctx t small w sized l = absurd (omega (arith, l))
  run_upload-ends max_retries n ((opened, answer) ∷ attempts) ctx t small w (s, sized) l =
      elim (Option-cases
        (upload_loop S size congestion_threshold max_retries opened answer ctx t).1) [
          | inl e ↦ rw (e, run_upload) refl
          | inr (again, e) ↦
              let (w', fewer) =
                upload_loop-runs_left max_retries n opened answer ctx again t small w s e in
              rw (e, run_upload)
                (run_upload-ends max_retries n attempts again _ small w' sized
                  (omega (arith, l, fewer)))
        ]
