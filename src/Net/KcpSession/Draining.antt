-- ===== src/Net/KcpSession/Draining.antt =====
-- When `update` calls the drain callback, and under which lock.
use veritas_sync.Base.{
  ℕ, ◌≤◌, ◌≡◌, refl, ◌↔◌, inl, inr, Bool, true, false, List, [], ◌∷◌, Option, none, some, arith,
  Str, str_key, nat_key, Option-cases, In, In-append,
}
use veritas_sync.Net.KcpSession.{
  Ikcp, drained, Session, drain_calls, message_calls, drain_due, deliver, update,
}

module _ (I : Ikcp) where
  In-message_calls :
      (receiver : Bool) (messages : List Str) (callback : ℕ) (locked : Bool)
      → ¬ In (drained callback locked) (message_calls receiver messages)
  In-message_calls false messages callback locked m = elim m [ ]
  In-message_calls true [] callback locked m = elim m [ ]
  In-message_calls true (t ∷ messages) callback locked (inl e) = cc
  In-message_calls true (t ∷ messages) callback locked (inr m) =
      In-message_calls true messages callback locked m

  In-drain_calls :
      (due : Option ℕ) (callback : ℕ) (locked held : Bool)
      → In (drained callback locked) (drain_calls due held)
      → (due ≡ some callback) × (locked ≡ held)
  In-drain_calls none callback locked held m = elim m [ ]
  In-drain_calls (some c) callback locked held (inl e) = ground arith
  In-drain_calls (some c) callback locked held (inr m) = elim m [ ]

  drain_due-some :
      (s : Session I.Kcp) (kcp : I.Kcp) (callback : ℕ)
      → drain_due I s kcp ≡ some callback
      → (s.on_drain ≡ some callback)
        × (s.drain_notified ≡ false)
        × (I.ikcp_waitsnd kcp ≤ s.drain_threshold)
  unfolding drain_due
  drain_due-some s kcp callback h = ground arith

  deliver_drains :
      (fuel : ℕ) (s : Session I.Kcp) (kcp : I.Kcp) (callback : ℕ) (locked : Bool)
      → In (drained callback locked) (deliver I fuel s kcp).1
      → (drain_due I s kcp ≡ some callback)
        × ((deliver I fuel s kcp).0.drain_notified ≡ true)
        × ((locked ≡ true) ↔ (I.ikcp_peeksize kcp ≡ none))
  unfolding deliver
  deliver_drains fuel s kcp callback locked m = elim (Option-cases (I.ikcp_peeksize kcp)) [
    | inl e ↦
        let (d, l) =
          In-drain_calls (drain_due I s kcp) callback locked true (rw (e, deliver) at m) in
        (d, rw (e, deliver) (ground arith), rw e (λ _. refl, λ _. l))
    | inr (size, e) ↦
        elim (In-append _ (drain_calls (drain_due I s kcp) false) _ (rw (e, deliver) at m)) [
          | inl n ↦
              let (d, l) = In-drain_calls (drain_due I s kcp) callback locked false n in
              (d, rw (e, deliver) (ground arith), rw e (λ t. cc, λ t. cc))
          | inr n ↦ absurd (In-message_calls _ _ callback locked n)
        ]
  ]

  -- `update` calls the drain callback only if it is the registered one, was not notified yet, and
  -- the send queue is at most at the threshold after ikcp was driven; from then on it counts as
  -- notified. It is called while the session's mutex is held exactly when no message is complete.
  update_drains_when_short :
      (fuel current_ms : ℕ) (s : Session I.Kcp) (callback : ℕ) (locked : Bool)
      → In (drained callback locked) (update I fuel s current_ms).1
      → (kcp : I.Kcp) × (s.kcp ≡ some kcp)
        × (s.on_drain ≡ some callback)
        × (s.drain_notified ≡ false)
        × (I.ikcp_waitsnd (I.ikcp_update kcp current_ms) ≤ s.drain_threshold)
        × ((update I fuel s current_ms).0.drain_notified ≡ true)
        × ((locked ≡ true) ↔ (I.ikcp_peeksize (I.ikcp_update kcp current_ms) ≡ none))
  unfolding update
  update_drains_when_short fuel current_ms s callback locked m = elim (Option-cases s.kcp) [
    | inl e ↦ absurd (elim (rw (e, update) at m) [ ])
    | inr (kcp, e) ↦
        let (due, noted, held) =
          deliver_drains fuel s (I.ikcp_update kcp current_ms) callback locked
            (rw (e, update) at m) in
        let (set, fresh, short) = drain_due-some s (I.ikcp_update kcp current_ms) callback due in
        (kcp, e, set, fresh, short, rw (e, update) noted, held)
  ]
