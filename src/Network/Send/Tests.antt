-- ===== src/Network/Send/Tests.antt =====
-- A connection that sends two messages over send buffers of four bytes.
use server.Base.{
  ℕ, ◌⊎◌, drop, ◌<◌, ◌≡◌, refl, List, [], ◌∷◌, ◌++◌, length, true, false, some, none, arith,
}
use server.Network.Stream.Buffers.{contents}
use server.Network.Send.{Sender, flush_send, on_send_completed}
use server.Network.Send.Completed.{on_send_completed-Starts}
use server.Network.Send.Order.{Starts, flush_send-Sends, Sends, wire_frames}

abbrev four : ℕ → List ℕ
four n = 9 ∷ 9 ∷ 9 ∷ 9 ∷ []

four-pooled : (n : ℕ) → 0 < length (four n)
four-pooled n = omega arith

-- Two nodes wait, and nothing is in the stream.
abbrev loaded : Sender
loaded = record {
  queue = record { nodes = (7, 5 ∷ []) ∷ (8, []) ∷ []; count = 2 };
  stream = record { bytes_count = 0; buffers = []; requests = 0 };
  is_sending = false;
  in_flight = none;
  wire = [];
  posted = 1;
  open_socket = true;
}

flush_send-Sends_example :
    (c' : Sender) × (flush_send four loaded ≡ some c')
    × (c'.queue.nodes ≡ [])
    × Sends four four-pooled loaded c'
        (contents loaded.stream.buffers ++ wire_frames loaded.queue.nodes)
flush_send-Sends_example = flush_send-Sends four four-pooled loaded tt refl

-- The connection after the flush.
abbrev flushed : Sender
flushed = (flush_send-Sends four four-pooled loaded tt refl).0

-- Three bytes of the front buffer are being written, and a message waits.
abbrev busy : Sender
busy = record loaded {
  stream = record {
    bytes_count = 0;
    buffers = record { memory = 1 ∷ 2 ∷ 3 ∷ 4 ∷ []; start_pos = 0; end_pos = 3 } ∷ [];
    requests = 1;
  };
  is_sending = true;
  in_flight = some (record { offset = 0; data_length = 3 });
}

on_send_completed-Starts_example :
    let left = drop 3 (contents busy.stream.buffers) in
    (c' : Sender) × (on_send_completed four false 3 busy ≡ some c')
    × ((Starts four four-pooled busy c'
          × (contents c'.stream.buffers ≡ left)
          × (c'.queue ≡ busy.queue))
        ⊎ ((left ≡ [])
            × (c'.queue.nodes ≡ [])
            × Sends four four-pooled busy c' (wire_frames busy.queue.nodes)))
on_send_completed-Starts_example =
    on_send_completed-Starts four four-pooled busy
      (record { memory = 1 ∷ 2 ∷ 3 ∷ 4 ∷ []; start_pos = 0; end_pos = 3 }) [] 3 refl (omega arith)
      refl (omega arith)
