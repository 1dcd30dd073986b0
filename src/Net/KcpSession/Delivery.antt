-- ===== src/Net/KcpSession/Delivery.antt =====
-- The messages that `update` and `receive` take out of ikcp, and the bounds on what goes in.
use mathlib.Core.List.{append_assoc, append-nil}
use veritas_sync.Base.{
  ℕ, zero, suc, ◌<◌, ◌≡◌, refl, sym, ap, ◌∙◌, inl, inr, Bool, true, false, List, [], ◌∷◌, ◌++◌,
  Option, none, some, arith, Str, str_key, nat_key, Option-cases,
}
use veritas_sync.Net.KcpSession.{
  Ikcp, Called, drained, message_received, Session, drain_calls, message_calls, take_messages,
  drain_due, deliver, update, receive,
}

-- The messages among the calls.
abbrev pub received : List Called → List Str
received [] = []
received (drained callback locked ∷ calls) = received calls
received (message_received text ∷ calls) = text ∷ received calls

received-message_calls : (messages : List Str) → received (message_calls true messages) ≡ messages
received-message_calls [] = refl
received-message_calls (t ∷ messages) = ap (λ ts. t ∷ ts) (received-message_calls messages)

received-drain_calls :
    (due : Option ℕ) (held : Bool) (calls : List Called)
    → received (drain_calls due held ++ calls) ≡ received calls
received-drain_calls none held calls = refl
received-drain_calls (some c) held calls = refl

module _ (I : Ikcp) where
  -- Taking messages one by one from the first state leads to the second: it stops when no message
  -- is complete, or after one that has no bytes.
  pub data Takes (after : I.Kcp) : I.Kcp → List Str → Type 0 where
    nothing_complete : {kcp : I.Kcp} → I.ikcp_peeksize kcp ≡ none → after ≡ kcp → Takes after kcp []
    no_bytes :
        {kcp : I.Kcp} (size : ℕ)
        → I.ikcp_peeksize kcp ≡ some size
        → (I.ikcp_recv kcp size).0 ≡ none
        → after ≡ (I.ikcp_recv kcp size).1
        → Takes after kcp []
    took :
        {kcp : I.Kcp} (size : ℕ) (text : Str) (rest : List Str)
        → I.ikcp_peeksize kcp ≡ some size
        → (I.ikcp_recv kcp size).0 ≡ some text
        → Takes after (I.ikcp_recv kcp size).1 rest
        → Takes after kcp (text ∷ rest)

  -- `ready` counts the complete messages: receiving one takes it away.
  abbrev pub Counts : (I.Kcp → ℕ) → Type 0
  Counts ready =
      (kcp : I.Kcp) (size : ℕ)
      → I.ikcp_peeksize kcp ≡ some size
      → ready (I.ikcp_recv kcp size).1 < ready kcp

  module _ (ready : I.Kcp → ℕ) (counts : Counts ready) where
    take_messages_onto :
        (fuel : ℕ) (kcp : I.Kcp) (messages : List Str)
        → ready kcp < fuel
        → (rest : List Str) × ((take_messages I fuel kcp messages).0 ≡ messages ++ rest)
          × Takes (take_messages I fuel kcp messages).1 kcp rest
    unfolding take_messages
    take_messages_onto zero kcp messages h = absurd (omega arith)
    take_messages_onto (suc fuel) kcp messages h = elim (Option-cases (I.ikcp_peeksize kcp)) [
      | inl e ↦ (
        [],
        rw (e, take_messages) (sym (append-nil messages)),
        rw (e, take_messages) (nothing_complete e refl),
      )
      | inr (size, e) ↦ elim (Option-cases (I.ikcp_recv kcp size).0) [
        | inl r ↦ (
          [],
          rw (e, take_messages, r) (sym (append-nil messages)),
          rw (e, take_messages, r) (no_bytes size e r refl),
        )
        | inr (text, r) ↦
            let (rest, out, takes) =
              take_messages_onto fuel (I.ikcp_recv kcp size).1 (messages ++ text ∷ [])
                (omega (arith, counts kcp size e)) in
            (
              text ∷ rest,
              rw (e, take_messages, r) (out ∙ append_assoc messages (text ∷ []) rest),
              rw (e, take_messages, r) (took size text rest e r takes),
            )
      ]
    ]

  take_messages-none :
      (fuel : ℕ) (kcp : I.Kcp) (messages : List Str)
      → I.ikcp_peeksize kcp ≡ none
      → take_messages I fuel kcp messages ≡ (messages, kcp)
  unfolding take_messages
  take_messages-none zero kcp messages e = refl
  take_messages-none (suc fuel) kcp messages e = rw (e, take_messages)

  -- What `deliver` hands on and keeps is what the loop takes and leaves.
  deliver_takes :
      (fuel : ℕ) (s : Session I.Kcp) (kcp : I.Kcp)
      → s.has_receiver ≡ true
      → (received (deliver I fuel s kcp).1 ≡ (take_messages I fuel kcp []).0)
        × ((deliver I fuel s kcp).0.kcp ≡ some (take_messages I fuel kcp []).1)
  unfolding deliver
  deliver_takes fuel s kcp r = elim (Option-cases (I.ikcp_peeksize kcp)) [
    | inl e ↦
        rw (e, deliver, take_messages-none fuel kcp [] e)
          (ground (arith, received-drain_calls (drain_due I s kcp) true []), refl)
    | inr (size, e) ↦
        rw (e, deliver)
          (received-drain_calls (drain_due I s kcp) false _ ∙ rw r (received-message_calls _), refl)
  ]

  -- Given more fuel than there are complete messages, `update` hands to the receiver, in the order
  -- in which they leave ikcp, all messages up to the first that is not complete or has no bytes;
  -- and `receive` returns the same list for the same state of ikcp, and leaves the same state.
  pub update_delivers :
      (ready : I.Kcp → ℕ) (fuel current_ms : ℕ) (s : Session I.Kcp) (kcp : I.Kcp)
      → Counts ready
      → s.kcp ≡ some kcp
      → s.has_receiver ≡ true
      → ready (I.ikcp_update kcp current_ms) < fuel
      → let driven : Session I.Kcp = record s { kcp = some (I.ikcp_update kcp current_ms) } in
        (messages : List Str) × (after : I.Kcp) × Takes after
          (I.ikcp_update kcp current_ms)
          messages
        × (received (update I fuel s current_ms).1 ≡ messages)
        × ((update I fuel s current_ms).0.kcp ≡ some after)
        × (receive I fuel driven ≡ (record s { kcp = some after }, messages))
  unfolding update receive
  update_delivers ready fuel current_ms s kcp counts e r h =
      let driven : I.Kcp = I.ikcp_update kcp current_ms in
      let (rest, out, takes) = take_messages_onto ready counts fuel driven [] h in
      let (heard, left) = deliver_takes fuel s driven r in
      (
        (take_messages I fuel driven []).0,
        (take_messages I fuel driven []).1,
        rw out takes,
        rw (e, update) heard,
        rw (e, update) left,
        refl,
      )
