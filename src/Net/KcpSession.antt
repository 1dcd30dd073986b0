-- ===== src/Net/KcpSession.antt =====
-- include/VeritasSync/net/KcpSession.h and src/net/KcpSession.cpp: a reliable session over ikcp, with
-- the callback that tells a sender when the send queue has drained. The C library ikcp is a
-- parameter. A callback is a number, its identity; what is called is logged, with the state of the
-- session's mutex.
pub mod Delivery
pub mod Drain
mod Draining
use veritas_sync.Base.{
  ℕ, zero, suc, ◌+◌, ◌-◌, ◌*◌, ◌/◌, ◌%◌, ◌^◌, ◌≤◌, ◌<◌, min, ◌≡◌, refl, sym, ap, ◌∙◌, subst, ◌≢◌,
  ◌↔◌, ◌⊎◌, inl, inr, Bool, true, false, not, ◌&&◌, ◌||◌, List, [], ◌∷◌, ◌++◌, map, Option, none,
  some, arith, Str, KeyEq, ◌==◌, str_key, nat_key, nat_eq, nat_eq_iff, str_eq, str_eq_iff,
  str_eq_refl, ltb, leb, if◌then◌else◌, length, take, drop, get_elem?, Bool-cases, Option-cases,
  All, any, bytes, contains, In, keep_if, In-append, In-append_left, In-append_right, keep_if-In,
  In-keep_if, length-append, drop-append, length-keep_if, All-append, All-reverse,
}

-- The calls of ikcp.h: the length of the next message (`none` if it is negative), the bytes that
-- were received (`none` if the length is not positive), and the rest of the state, which nothing
-- here looks into. `Code` is the `int` that the library returns.
pub record Ikcp : Type 1 where
  pub Kcp : Type 0
  pub Code : Type 0
  pub ikcp_input : Kcp → Str → Code × Kcp
  pub ikcp_send : Kcp → Str → Code × Kcp
  pub ikcp_update : Kcp → ℕ → Kcp
  pub ikcp_check : Kcp → ℕ → ℕ
  pub ikcp_flush : Kcp → Kcp
  pub ikcp_waitsnd : Kcp → ℕ
  pub ikcp_peeksize : Kcp → Option ℕ
  pub ikcp_recv : Kcp → ℕ → Option Str × Kcp

-- A callback that is called: the drain callback, with whether the mutex is held, or a message.
pub data Called : Type 0 where
  drained : ℕ → Bool → Called
  message_received : Str → Called

-- The result of `input` and `send`: -1, or what ikcp returned.
pub data Returned (Code : Type 0) : Type 0 where
  refused : Returned Code
  returned : Code → Returned Code

pub record Session (Kcp : Type 0) : Type 0 where
  pub kcp : Option Kcp
  pub on_drain : Option ℕ
  pub pending_drain : Option ℕ
  pub drain_threshold : ℕ
  pub drain_notified : Bool
  -- Whether `on_message_received` is set.
  pub has_receiver : Bool

abbrev pub long_max : ℕ
long_max = 2 ^ 63 - 1

abbrev pub int_max : ℕ
int_max = 2 ^ 31 - 1

abbrev pub is_set : Option ℕ → Bool
is_set none = false
is_set (some callback) = true

abbrev pub drain_calls : Option ℕ → Bool → List Called
drain_calls none locked = []
drain_calls (some callback) locked = drained callback locked ∷ []

abbrev pub message_calls : Bool → List Str → List Called
message_calls true messages = map message_received messages
message_calls false messages = []

module _ (I : Ikcp) where
  open I use {Kcp, Code}

  -- The loop that both `update` and `receive` have: it takes messages until none is complete, or
  -- one has no bytes.
  unfoldable pub take_messages : ℕ → Kcp → List Str → List Str × Kcp
  take_messages zero kcp messages = (messages, kcp)
  take_messages (suc fuel) kcp messages = elim (I.ikcp_peeksize kcp) [
    | none ↦ (messages, kcp)
    | some size ↦ elim (I.ikcp_recv kcp size).0 [
      | none ↦ (messages, (I.ikcp_recv kcp size).1)
      | some text ↦ take_messages fuel (I.ikcp_recv kcp size).1 (messages ++ text ∷ [])
    ]
  ]

  -- `created` is what `ikcp_create` and the calls that configure it give.
  unfoldable pub create : Option Kcp → Bool → Option (Session Kcp)
  create none has_receiver = none
  create (some kcp) has_receiver = some (record {
    kcp = some kcp;
    on_drain = none;
    pending_drain = none;
    drain_threshold = 512;
    drain_notified = false;
    has_receiver = has_receiver;
  })

  unfoldable pub input : Session Kcp → Str → Session Kcp × Returned Code
  input s text = if ltb long_max (length text) then (s, refused) else elim s.kcp [
    | none ↦ (s, refused)
    | some kcp ↦
        let (code, after) = I.ikcp_input kcp text in (record s { kcp = some after }, returned code)
  ]

  unfoldable pub send : Session Kcp → Str → Session Kcp × Returned Code
  send s text = if ltb int_max (length text) then (s, refused) else elim s.kcp [
    | none ↦ (s, refused)
    | some kcp ↦
        let (code, after) = I.ikcp_send kcp text in (record s { kcp = some after }, returned code)
  ]

  -- The test of `update`: the callback is set, was not notified yet, and the queue is short.
  unfoldable pub drain_due : Session Kcp → Kcp → Option ℕ
  drain_due s kcp = elim s.on_drain [
    | none ↦ none
    | some callback ↦
        if not s.drain_notified && leb (I.ikcp_waitsnd kcp) s.drain_threshold
        then some callback
        else none
  ]

  -- `update` once the state of ikcp is driven to `kcp`: the mutex is held up to the end of the
  -- block, so also where the function returns because no message is complete.
  unfoldable pub deliver : ℕ → Session Kcp → Kcp → Session Kcp × List Called
  unfolding take_messages drain_due
  deliver fuel s kcp =
      let due = drain_due s kcp in
      let notified = s.drain_notified || is_set due in
      elim (I.ikcp_peeksize kcp) [
        | none ↦ (record s { kcp = some kcp; drain_notified = notified }, drain_calls due true)
        | some size ↦
            let (messages, after) = take_messages fuel kcp [] in
            (
              record s { kcp = some after; drain_notified = notified },
              drain_calls due false ++ message_calls s.has_receiver messages,
            )
      ]

  unfoldable pub update : ℕ → Session Kcp → ℕ → Session Kcp × List Called
  unfolding deliver
  update fuel s current_ms = elim s.kcp [
    | none ↦ (s, [])
    | some kcp ↦ deliver fuel s (I.ikcp_update kcp current_ms)
  ]

  unfoldable pub check : Session Kcp → ℕ → ℕ
  check s current_ms = elim s.kcp [ none ↦ current_ms | some kcp ↦ I.ikcp_check kcp current_ms ]

  unfoldable pub receive : ℕ → Session Kcp → Session Kcp × List Str
  unfolding take_messages
  receive fuel s = elim s.kcp [
    | none ↦ (s, [])
    | some kcp ↦
        let (messages, after) = take_messages fuel kcp [] in
        (record s { kcp = some after }, messages)
  ]

  unfoldable pub flush : Session Kcp → Session Kcp
  flush s = elim s.kcp [ none ↦ s | some kcp ↦ record s { kcp = some (I.ikcp_flush kcp) } ]

  unfoldable pub get_wait_send_count : Session Kcp → ℕ
  get_wait_send_count s = elim s.kcp [ none ↦ 0 | some kcp ↦ I.ikcp_waitsnd kcp ]

  -- `m_kcp && ikcp_waitsnd(m_kcp) <= m_drain_threshold`
  unfoldable pub queue_short : Session Kcp → Bool
  queue_short s = elim s.kcp [
    | none ↦ false
    | some kcp ↦ leb (I.ikcp_waitsnd kcp) s.drain_threshold
  ]

  -- An empty `std::function` is `none`.
  unfoldable pub set_on_drain : Session Kcp → Option ℕ → Session Kcp
  unfolding queue_short
  set_on_drain s on_drain = record s {
    on_drain = on_drain;
    pending_drain = if queue_short s then on_drain else none;
    drain_notified = queue_short s;
  }

  unfoldable pub clear_on_drain : Session Kcp → Session Kcp
  clear_on_drain s = record s { on_drain = none; pending_drain = none; drain_notified = false }

  unfoldable pub set_drain_threshold : Session Kcp → ℕ → Session Kcp
  set_drain_threshold s threshold = record s { drain_threshold = threshold }

  -- A `std::function` that is moved from is empty.
  unfoldable pub take_pending_drain : Session Kcp → Session Kcp × Option ℕ
  take_pending_drain s = (record s { pending_drain = none }, s.pending_drain)
