-- ===== src/Net/KcpSession/Drain.antt =====
-- The drain callback: how often it is called or handed out.
use veritas_sync.Base.{
  ℕ, suc, ◌+◌, ◌≡◌, refl, ◌⊎◌, ◌∙◌, inl, inr, Bool-cases, Bool, true, false, not, ◌&&◌, List, [],
  ◌∷◌, ◌++◌, none, some, arith, Str, str_key, nat_key, Option-cases,
}
use veritas_sync.Net.KcpSession.{
  Ikcp, Called, drained, message_received, Session, drain_calls, message_calls, take_messages,
  input, send, drain_due, is_set, deliver, update, receive, flush, set_on_drain, queue_short,
  set_drain_threshold, take_pending_drain,
}

abbrev pub count_drained : List Called → ℕ
count_drained [] = 0
count_drained (drained callback locked ∷ calls) = suc (count_drained calls)
count_drained (message_received text ∷ calls) = count_drained calls

count_drained-append :
    (xs ys : List Called) → count_drained (xs ++ ys) ≡ count_drained xs + count_drained ys
count_drained-append [] ys = omega arith
count_drained-append (drained c l ∷ xs) ys = omega (arith, count_drained-append xs ys)
count_drained-append (message_received t ∷ xs) ys = omega (arith, count_drained-append xs ys)

count_drained-message_calls :
    (receiver : Bool) (messages : List Str) → count_drained (message_calls receiver messages) ≡ 0
count_drained-message_calls false messages = refl
count_drained-message_calls true [] = refl
count_drained-message_calls true (t ∷ messages) = count_drained-message_calls true messages

-- A call on a session, other than the registration and the removal of the callback.
pub data Op : Type 0 where
  inputs sends : Str → Op
  updates : (fuel current_ms : ℕ) → Op
  receives : ℕ → Op
  flushes : Op
  sets_threshold : ℕ → Op
  takes_pending : Op

abbrev pub one_if : Bool → ℕ
one_if true = 1
one_if false = 0

module _ (I : Ikcp) where
  -- The session after a call, and how often the drain callback was called or handed out.
  unfoldable pub apply : Session I.Kcp → Op → Session I.Kcp × ℕ
  apply s (inputs text) = ((input I s text).0, 0)
  apply s (sends text) = ((send I s text).0, 0)
  apply s (updates fuel current_ms) =
      ((update I fuel s current_ms).0, count_drained (update I fuel s current_ms).1)
  apply s (receives fuel) = ((receive I fuel s).0, 0)
  apply s flushes = (flush I s, 0)
  apply s (sets_threshold threshold) = (set_drain_threshold I s threshold, 0)
  apply s takes_pending = ((take_pending_drain I s).0, one_if (is_set (take_pending_drain I s).1))

  unfoldable pub notifications : Session I.Kcp → List Op → ℕ
  unfolding apply
  notifications s [] = 0
  notifications s (op ∷ ops) = (apply s op).1 + notifications (apply s op).0 ops

  -- How often the callback is still to be called or handed out.
  abbrev credit : Session I.Kcp → ℕ
  credit s = one_if (is_set s.on_drain && not s.drain_notified) + one_if (is_set s.pending_drain)

  credit-deliver :
      (fuel : ℕ) (s : Session I.Kcp) (kcp : I.Kcp)
      → count_drained (deliver I fuel s kcp).1 + credit (deliver I fuel s kcp).0 ≡ credit s
  unfolding deliver drain_due
  credit-deliver fuel s kcp = elim (Option-cases (I.ikcp_peeksize kcp)) [
    | inl e ↦ rw (e, deliver) (ground arith)
    | inr (size, e) ↦
        rw (e, deliver)
          (ground (
            arith,
            count_drained-append (drain_calls (drain_due I s kcp) false)
                (message_calls s.has_receiver (take_messages I fuel kcp []).0),
            count_drained-message_calls s.has_receiver (take_messages I fuel kcp []).0,
          ))
  ]

  credit-apply : (s : Session I.Kcp) (op : Op) → (apply s op).1 + credit (apply s op).0 ≡ credit s
  unfolding apply input send update receive flush set_drain_threshold take_pending_drain
  credit-apply s (inputs text) = ground arith
  credit-apply s (sends text) = ground arith
  credit-apply s (updates fuel current_ms) = elim (Option-cases s.kcp) [
    | inl e ↦ rw e (omega arith)
    | inr (kcp, e) ↦ rw e (credit-deliver fuel s (I.ikcp_update kcp current_ms))
  ]
  credit-apply s (receives fuel) = ground arith
  credit-apply s flushes = ground arith
  credit-apply s (sets_threshold threshold) = ground arith
  credit-apply s takes_pending = ground arith

  -- The session after the calls.
  unfoldable pub after : Session I.Kcp → List Op → Session I.Kcp
  unfolding apply
  after s [] = s
  after s (op ∷ ops) = after (apply s op).0 ops

  credit-notifications :
      (s : Session I.Kcp) (ops : List Op) → notifications s ops + credit (after s ops) ≡ credit s
  unfolding notifications after
  credit-notifications s [] = omega arith
  credit-notifications s (op ∷ ops) =
      omega (arith, credit-apply s op, credit-notifications (apply s op).0 ops)

  -- The registered callback is this one, and no other is to be taken.
  abbrev IsRegistered : ℕ → Session I.Kcp → Type 0
  IsRegistered callback s =
      (s.on_drain ≡ some callback) × ((s.pending_drain ≡ none) ⊎ (s.pending_drain ≡ some callback))

  deliver-IsRegistered :
      (callback fuel : ℕ) (s : Session I.Kcp) (kcp : I.Kcp)
      → IsRegistered callback s
      → IsRegistered callback (deliver I fuel s kcp).0
  unfolding deliver
  deliver-IsRegistered callback fuel s kcp r = elim (Option-cases (I.ikcp_peeksize kcp)) [
    | inl e ↦ rw (e, deliver) r
    | inr (size, e) ↦ rw (e, deliver) r
  ]

  apply-IsRegistered :
      (callback : ℕ) (s : Session I.Kcp) (op : Op)
      → IsRegistered callback s
      → IsRegistered callback (apply s op).0
  unfolding apply input send update receive flush set_drain_threshold take_pending_drain
  apply-IsRegistered callback s (inputs text) r = ground arith
  apply-IsRegistered callback s (sends text) r = ground arith
  apply-IsRegistered callback s (updates fuel current_ms) r = elim (Option-cases s.kcp) [
    | inl e ↦ rw e r
    | inr (kcp, e) ↦ rw e (deliver-IsRegistered callback fuel s (I.ikcp_update kcp current_ms) r)
  ]
  apply-IsRegistered callback s (receives fuel) r = ground arith
  apply-IsRegistered callback s flushes r = ground arith
  apply-IsRegistered callback s (sets_threshold threshold) r = r
  apply-IsRegistered callback s takes_pending r = (r.0, inl refl)

  after-IsRegistered :
      (callback : ℕ) (s : Session I.Kcp) (ops : List Op)
      → IsRegistered callback s
      → IsRegistered callback (after s ops)
  unfolding after
  after-IsRegistered callback s [] r = r
  after-IsRegistered callback s (op ∷ ops) r =
      after-IsRegistered callback (apply s op).0 ops (apply-IsRegistered callback s op r)

  -- The callback is not called or handed out yet: either `update` is still to find the queue short,
  -- or the callback is to be taken.
  abbrev pub IsOwed : ℕ → Session I.Kcp → Type 0
  IsOwed callback s =
      ((s.on_drain ≡ some callback) × (s.drain_notified ≡ false) × (s.pending_drain ≡ none))
      ⊎ ((s.pending_drain ≡ some callback) × (s.drain_notified ≡ true))

  still_due :
      (callback count : ℕ) (s : Session I.Kcp)
      → IsRegistered callback s
      → count + credit s ≡ 1
      → ((count ≡ 1) × (s.drain_notified ≡ true) × (s.pending_drain ≡ none))
        ⊎ ((count ≡ 0) × IsOwed callback s)
  still_due callback count s (e, inl f) c = elim (Bool-cases s.drain_notified) [
    | inl n ↦ inl (omega (arith, rw (e, f, n) at c), n, f)
    | inr n ↦ inr (omega (arith, rw (e, f, n) at c), inl (e, n, f))
  ]
  still_due callback count s (e, inr f) c = elim (Bool-cases s.drain_notified) [
    | inl n ↦ inr (omega (arith, rw (e, f, n) at c), inr (f, n))
    | inr n ↦ absurd (omega (arith, rw (e, f, n) at c))
  ]

  registered :
      (s : Session I.Kcp) (callback : ℕ)
      → (credit (set_on_drain I s (some callback)) ≡ 1)
        × IsRegistered callback (set_on_drain I s (some callback))
  unfolding set_on_drain
  registered s callback = elim (Bool-cases (queue_short I s)) [
    | inl e ↦ rw e (refl, (refl, inr refl))
    | inr e ↦ rw e (refl, (refl, inl refl))
  ]

  -- A registered drain callback is called or handed out at most once and is never lost, whatever is
  -- sent, received, driven, flushed or reconfigured afterwards, until another one is registered:
  -- after any such calls it was called or handed out exactly once and nothing is left of it; or it
  -- was not, and it is still registered and not notified, or still there to be taken.
  pub drain_exactly_once :
      (s : Session I.Kcp) (callback : ℕ) (ops : List Op)
      → ((notifications (set_on_drain I s (some callback)) ops ≡ 1)
          × ((after (set_on_drain I s (some callback)) ops).drain_notified ≡ true)
          × ((after (set_on_drain I s (some callback)) ops).pending_drain ≡ none))
        ⊎ ((notifications (set_on_drain I s (some callback)) ops ≡ 0)
            × IsOwed callback (after (set_on_drain I s (some callback)) ops))
  drain_exactly_once s callback ops =
      let t = set_on_drain I s (some callback) in
      still_due callback (notifications t ops) (after t ops)
        (after-IsRegistered callback t ops (registered s callback).1)
        (credit-notifications t ops ∙ (registered s callback).0)
