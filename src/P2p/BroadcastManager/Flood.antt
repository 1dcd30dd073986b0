-- ===== src/P2p/BroadcastManager/Flood.antt =====
-- A flood: what a peer gets of it.
use native.Mathlib.Decide.{ℕ_discrete}
use veritas_sync.Base.{
  ℕ, zero, suc, ◌+◌, ◌-◌, ◌≤◌, ◌<◌, ◌≡◌, refl, ap, ◌∙◌, ◌≢◌, ◌⊎◌, inl, inr, Bool, true, false, List,
  [], ◌∷◌, ◌++◌, map, arith, Str, str_key, nat_key, Bool-cases,
}
use veritas_sync.Sync.Protocol.{FileInfo}
use veritas_sync.P2p.BroadcastManager.Batches.{total_batches, batch, batches, batches_from, concat}
use veritas_sync.P2p.BroadcastManager.{
  Message, sync_begin, dir_batch, file_update_batch, file_delete_batch, goodbye, Peer, goes_on,
  pace_from, pace_and_send_file_batches, file_update_batch_size,
}

-- The files and the new directories that messages tell of.
unfoldable pub files_of : List Message → List FileInfo
files_of [] = []
files_of (file_update_batch files ∷ messages) = files ++ files_of messages
files_of (sync_begin session_id file_count dir_count ∷ messages) = files_of messages
files_of (dir_batch creates deletes ∷ messages) = files_of messages
files_of (file_delete_batch paths ∷ messages) = files_of messages
files_of (goodbye ∷ messages) = files_of messages

unfoldable pub dirs_of : List Message → List Str
dirs_of [] = []
dirs_of (dir_batch creates deletes ∷ messages) = creates ++ dirs_of messages
dirs_of (file_update_batch files ∷ messages) = dirs_of messages
dirs_of (sync_begin session_id file_count dir_count ∷ messages) = dirs_of messages
dirs_of (file_delete_batch paths ∷ messages) = dirs_of messages
dirs_of (goodbye ∷ messages) = dirs_of messages

abbrev pub update_batches : List (List FileInfo) → List Message
update_batches = map (λ part. file_update_batch part)

pub files_of-update_batches :
    (parts : List (List FileInfo)) → files_of (update_batches parts) ≡ concat parts
unfolding files_of concat
files_of-update_batches [] = refl
files_of-update_batches (part ∷ parts) = ap (λ r. part ++ r) (files_of-update_batches parts)

pub dirs_of-update_batches : (parts : List (List FileInfo)) → dirs_of (update_batches parts) ≡ []
unfolding dirs_of
dirs_of-update_batches [] = refl
dirs_of-update_batches (part ∷ parts) = dirs_of-update_batches parts

-- A look at a controller finds it valid and in the session.
abbrev pub IsInSession : ℕ → Peer → Type 0
IsInSession session_id peer = (peer.is_valid ≡ true) × (peer.sync_session_id ≡ session_id)

goes_on-IsInSession :
    (session_id : ℕ) (scheduled sent : Peer)
    → goes_on session_id scheduled sent ≡ true
    → IsInSession session_id scheduled × IsInSession session_id sent
goes_on-IsInSession session_id scheduled sent e = ground arith

IsInSession-goes_on :
    (session_id : ℕ) (scheduled sent : Peer)
    → IsInSession session_id scheduled
    → IsInSession session_id sent
    → goes_on session_id scheduled sent ≡ true
IsInSession-goes_on session_id scheduled sent (a, b) (c, d) = ground arith

both : {b : Bool} → b ≡ true → b ≢ false
both p q = cc

-- How far a flood gets.
pub record IsPrefix (session_id : ℕ) (looks : ℕ → Peer × Peer) (files : List FileInfo)
    (left first : ℕ) (messages : List Message) : Type 0 where
  pub count : ℕ
  pub within : count ≤ left
  pub in_order : messages ≡ update_batches (batches_from file_update_batch_size count first files)
  pub each_checked :
      (i : ℕ)
      → first ≤ i
      → i < first + count
      → IsInSession session_id (looks i).0 × IsInSession session_id (looks i).1
  pub all_or_stopped :
      (count ≡ left)
      ⊎ (¬ (
          IsInSession session_id (looks (first + count)).0
          × IsInSession session_id (looks (first + count)).1))

pace_from-IsPrefix :
    (session_id : ℕ) (looks : ℕ → Peer × Peer) (files : List FileInfo) (left first : ℕ)
    → IsPrefix session_id looks files left first (pace_from session_id looks files left first)
unfolding pace_from batches_from
pace_from-IsPrefix session_id looks files zero first = record {
  count = 0;
  within = omega arith;
  in_order = refl;
  each_checked = λ i l m. absurd (omega (arith, l, m));
  all_or_stopped = inl refl;
}
pace_from-IsPrefix session_id looks files (suc left) first =
    let rest = pace_from-IsPrefix session_id looks files left (suc first) in
    elim (Bool-cases (goes_on session_id (looks first).0 (looks first).1)) [
      | inr e ↦ rw e (record {
        count = 0;
        within = omega arith;
        in_order = refl;
        each_checked = λ i l m. absurd (omega (arith, l, m));
        all_or_stopped = inr (at_first first e);
      })
      | inl e ↦ rw e (record {
        count = suc rest.count;
        within = omega (arith, rest.within);
        in_order =
            ap (λ r. file_update_batch (batch file_update_batch_size first files) ∷ r)
              rest.in_order;
        each_checked = λ i l m. elim (ℕ_discrete i first) [
          | yes p ↦ rw p (goes_on-IsInSession session_id (looks first).0 (looks first).1 e)
          | no n ↦ rest.each_checked i (ground (arith, l, n)) (omega (arith, m))
        ];
        all_or_stopped = elim rest.all_or_stopped [
          | inl p ↦ inl (ap (λ k. suc k) p)
          | inr p ↦ inr (later rest.count p)
        ];
      })
    ]
  where
    at_first :
        (first : ℕ)
        → goes_on session_id (looks first).0 (looks first).1 ≡ false
        → ¬ (
            IsInSession session_id (looks (first + 0)).0
            × IsInSession session_id (looks (first + 0)).1)
    at_first first e =
        let z : first + 0 ≡ first = omega arith in
        rw z (λ (a, b). both (IsInSession-goes_on session_id (looks first).0 (looks first).1 a b) e)

    later :
        (k : ℕ)
        → ¬ (
            IsInSession session_id (looks (suc first + k)).0
            × IsInSession session_id (looks (suc first + k)).1)
        → ¬ (
            IsInSession session_id (looks (first + suc k)).0
            × IsInSession session_id (looks (first + suc k)).1)
    later k p = let z : first + suc k ≡ suc first + k = omega arith in rw z p

-- The batches of files that a flood sends are the first ones in their order, and before each of them
-- the controller was valid and still in this session, both when the batch was scheduled and when it
-- was sent. If they are not all, then at the next one the controller was found invalid or in another
-- session, at one of the two times: after a new session began or the peer went away, none is sent.
pub pace_and_send_file_batches-IsPrefix :
    (session_id : ℕ) (looks : ℕ → Peer × Peer) (files : List FileInfo)
    → IsPrefix session_id looks files
        (total_batches file_update_batch_size files)
        0
        (pace_and_send_file_batches session_id looks files 0)
unfolding pace_and_send_file_batches
pace_and_send_file_batches-IsPrefix session_id looks files =
    let none_before : total_batches file_update_batch_size files - 0
        ≡ total_batches file_update_batch_size files =
      omega arith in
    rw none_before
      (pace_from-IsPrefix session_id looks files (total_batches file_update_batch_size files) 0)

pub pace-all :
    (session_id : ℕ) (looks : ℕ → Peer × Peer) (files : List FileInfo)
    → ((i : ℕ) → goes_on session_id (looks i).0 (looks i).1 ≡ true)
    → pace_and_send_file_batches session_id looks files 0
      ≡ update_batches (batches file_update_batch_size files)
unfolding batches
pace-all session_id looks files steady =
    let sent = pace_and_send_file_batches-IsPrefix session_id looks files in
    let all : sent.count ≡ total_batches file_update_batch_size files = elim sent.all_or_stopped [
      | inl e ↦ e
      | inr e ↦ absurd (
          e (
            goes_on-IsInSession session_id (looks (0 + sent.count)).0 (looks (0 + sent.count)).1
              (steady (0 + sent.count))))
    ] in
    sent.in_order ∙ rw all refl
