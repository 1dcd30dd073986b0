-- ===== src/Tests/Net.antt =====
-- A queue as the KCP library.
use veritas_sync.Base.{
  ℕ, suc, ◌-◌, ◌<◌, ◌≡◌, refl, true, false, List, [], ◌∷◌, ◌++◌, Option, none, some, arith, Str,
  str_key, nat_key, length,
}
use veritas_sync.Net.KcpSession.{Ikcp, Session, update, receive, set_on_drain}
use veritas_sync.Base.{◌⊎◌}
use veritas_sync.Net.KcpSession.Drain.{
  Op, sends, updates, flushes, takes_pending, notifications, after, IsOwed, drain_exactly_once,
}
use veritas_sync.Net.KcpSession.Delivery.{received, Takes, update_delivers}
use veritas_sync.Tests.Common.{text_a, text_b}

-- The complete messages, and the number of packets to send.
record Queue : Type 0 where
  messages : List Str
  packets : ℕ

unfoldable next_size : List Str → Option ℕ
next_size [] = none
next_size (text ∷ rest) = some (length text)

unfoldable next_text : List Str → Option Str
next_text [] = none
next_text ([] ∷ rest) = none
next_text ((c ∷ text) ∷ rest) = some (c ∷ text)

unfoldable others : List Str → List Str
others [] = []
others (text ∷ rest) = rest

abbrev queue_library : Ikcp
queue_library = record {
  Kcp = Queue;
  Code = ℕ;
  ikcp_input = λ q text. (0, record q { messages = q.messages ++ text ∷ [] });
  ikcp_send = λ q text. (0, record q { packets = suc q.packets });
  ikcp_update = λ q now. record q { packets = q.packets - 1 };
  ikcp_check = λ q now. now;
  ikcp_flush = λ q. record q { packets = 0 };
  ikcp_waitsnd = λ q. q.packets;
  ikcp_peeksize = λ q. next_size q.messages;
  ikcp_recv = λ q size. (next_text q.messages, record q { messages = others q.messages });
}

abbrev count_messages : Queue → ℕ
count_messages q = length q.messages

others_shorter :
    (messages : List Str) (size : ℕ)
    → next_size messages ≡ some size
    → length (others messages) < length messages
unfolding next_size others
others_shorter [] size e = cc
others_shorter (text ∷ rest) size e = omega arith

abbrev two_messages : Queue
two_messages = record { messages = text_a ∷ text_b ∷ []; packets = 4 }

abbrev quiet : Queue
quiet = record { messages = []; packets = 4 }

abbrev busy_session : Session Queue
busy_session = record {
  kcp = some two_messages;
  on_drain = none;
  pending_drain = none;
  drain_threshold = 3;
  drain_notified = false;
  has_receiver = true;
}

abbrev draining_session : Session Queue
draining_session = record {
  kcp = some quiet;
  on_drain = some 7;
  pending_drain = none;
  drain_threshold = 3;
  drain_notified = false;
  has_receiver = true;
}

abbrev calls : List Op
calls = sends text_a ∷ updates 5 100 ∷ flushes ∷ updates 5 200 ∷ takes_pending ∷ []

abbrev in_buffer : Str
in_buffer = 9 ∷ []

abbrev after_it : Str
after_it = 8 ∷ []

drain_exactly_once_example :
    ((notifications queue_library (set_on_drain queue_library busy_session (some 7)) calls ≡ 1)
      × ((after queue_library
            (set_on_drain queue_library busy_session (some 7))
            calls).drain_notified
          ≡ true)
      × ((after queue_library
            (set_on_drain queue_library busy_session (some 7))
            calls).pending_drain
          ≡ none))
    ⊎ ((notifications queue_library (set_on_drain queue_library busy_session (some 7)) calls ≡ 0)
        × IsOwed queue_library 7
            (after queue_library (set_on_drain queue_library busy_session (some 7)) calls))
drain_exactly_once_example = drain_exactly_once queue_library busy_session 7 calls

update_delivers_example :
    let driven : Session queue_library.Kcp = record busy_session {
      kcp = some (queue_library.ikcp_update two_messages 100);
    } in
    (messages : List Str) × (after : queue_library.Kcp) × Takes queue_library after
      (queue_library.ikcp_update two_messages 100)
      messages
    × (received (update queue_library 5 busy_session 100).1 ≡ messages)
    × ((update queue_library 5 busy_session 100).0.kcp ≡ some after)
    × (receive queue_library 5 driven ≡ (record busy_session { kcp = some after }, messages))
update_delivers_example =
    update_delivers queue_library count_messages 5 100 busy_session two_messages
      (λ q size e. others_shorter q.messages size e) refl refl (omega arith)
