-- ===== src/Network/Receive/Tests.antt =====
-- Receptions on concrete bytes, and the theorems of this folder at them.
use server.Base.{
  ℕ, ◌≡◌, refl, false, List, [], ◌∷◌, ◌++◌, some, none, length, arith, ◌==◌, replicate,
}
use server.Network.Packet.{
  peek, le_value, frame_size, header, body, Inbox, Serializer, process_receive_data,
  process_internal, process_packet, internal_packet_id,
}
use server.Network.Receive.{
  Receiver, Outcome, pass, direct_pass, direct_packet, pending_pass, pending_header, pending_body,
  complete_pending, append_data, on_received, receive_impl, on_data_received, closed, receive_loop,
  receive_stream, again, dispatch, no_header,
}
use server.Network.Receive.Framing.{IsFrame, short, Delivers, rest, next}
use server.Network.Receive.Passes.{Holds, nothing}
use server.Network.Receive.Stream.{receive_stream-Delivers}
use server.Network.Receive.Reject.{rejected_cut}
use server.Network.Receive.Stall.{receive_loop_stalls, receive_loop_ends, Keeps}

-- A serializer that knows the id 100 and parses a body to its length.
abbrev lengths : Serializer ℕ
lengths = record { is_valid = λ id. id == 100; parse = λ id b. some (length b) }

abbrev empty : Inbox ℕ
empty = record { internal = []; packets = [] }

-- A frame of id 100 with a body of two bytes, then three bytes of another.
abbrev frame : List ℕ
frame = 100 ∷ 0 ∷ 0 ∷ 0 ∷ 0 ∷ 0 ∷ 0 ∷ 0 ∷ 2 ∷ 0 ∷ 0 ∷ 0 ∷ 0 ∷ 0 ∷ 0 ∷ 0 ∷ 7 ∷ 8 ∷ []

abbrev tail : List ℕ
tail = 1 ∷ 2 ∷ 3 ∷ []

abbrev cut_in_header : List (List ℕ)
cut_in_header =
    (100 ∷ 0 ∷ 0 ∷ [])
    ∷ (0 ∷ 0 ∷ 0 ∷ 0 ∷ 0 ∷ 2 ∷ 0 ∷ 0 ∷ 0 ∷ 0 ∷ 0 ∷ 0 ∷ 0 ∷ 7 ∷ [])
    ∷ (8 ∷ 1 ∷ 2 ∷ 3 ∷ [])
    ∷ []

abbrev fresh : Receiver ℕ
fresh = record { pending = none; protocol = some empty }

abbrev after_frame : Inbox ℕ
after_frame = record { internal = []; packets = (100, 2) ∷ [] }

runs :
    receive_stream lengths 4096 fresh cut_in_header
    ≡ some (
        again false (record {
          pending = some (record { header = no_header; data_buffer = tail });
          protocol = some after_frame;
        }))
unfolding receive_stream receive_loop pass direct_pass direct_packet pending_pass pending_header
    pending_body complete_pending append_data on_received receive_impl process_receive_data
    process_internal process_packet internal_packet_id dispatch peek header body frame_size le_value
    on_data_received
runs = refl

frame-IsFrame : IsFrame frame
unfolding peek le_value
frame-IsFrame = record { sized = refl; small = omega arith }

frame-Delivers : Delivers lengths (some empty) (frame ++ tail) (some after_frame) tail
unfolding dispatch process_receive_data process_internal process_packet internal_packet_id header
    body peek le_value
frame-Delivers = next frame tail refl frame-IsFrame refl (rest (short (omega arith)))

receive_stream-Delivers_example :
    (r' : Receiver ℕ) × (receive_stream lengths 4096 fresh cut_in_header ≡ some (again false r'))
    × Holds r'.pending tail
    × (r'.protocol ≡ some after_frame)
receive_stream-Delivers_example =
    receive_stream-Delivers lengths 4096 fresh [] cut_in_header (omega arith) (nothing refl refl)
      frame-Delivers

-- Id 200, size 2^64 - 16.
abbrev hostile : List ℕ
hostile = 200 ∷ 0 ∷ 0 ∷ 0 ∷ 0 ∷ 0 ∷ 0 ∷ 0 ∷ 240 ∷ 255 ∷ 255 ∷ 255 ∷ 255 ∷ 255 ∷ 255 ∷ 255 ∷ []

receive_loop_stalls_example : receive_loop lengths 1000 fresh false hostile ≡ none
unfolding peek le_value
receive_loop_stalls_example =
    receive_loop_stalls lengths 1000 fresh false hostile refl (omega arith) refl (omega arith) refl

receive_loop_ends_example :
    (o : Outcome) × (r : Receiver ℕ) × (receive_loop lengths 19 fresh false frame ≡ some (o, r))
    × Keeps o r
unfolding peek le_value frame_size
receive_loop_ends_example =
    receive_loop_ends lengths 19 fresh false frame (omega arith) (omega arith) tt

-- A header of id 200 with no body, cut after its first byte.
abbrev unknown : List ℕ
unknown = replicate 15 0

rejected_cut_example :
    (receive_stream lengths 4096 fresh ((200 ∷ unknown) ∷ []) ≡ some (again false fresh))
    × ((r' : Receiver ℕ) × (receive_stream lengths 4096 fresh ((200 ∷ []) ∷ unknown ∷ [])
          ≡ some (closed r')))
unfolding dispatch process_receive_data process_internal process_packet internal_packet_id header
    peek le_value
rejected_cut_example =
    rejected_cut lengths 4096 fresh (200 ∷ []) unknown {p' = some empty} (omega arith) (omega arith)
      (omega arith) refl (record { sized = refl; small = omega arith }) refl
