-- ===== src/Network/Receive.antt =====
-- The reassembly of packets from the byte stream: Connection::ReceiveImpl and its callers in
-- Source/Core/Network/Connection.cpp, and PendingStream of NetworkStream.h.
pub mod Framing
pub mod Passes
pub mod Refine
pub mod Stream
pub mod Stall
pub mod Reject
mod Tests
use server.Base.{
  ℕ, zero, suc, ◌-◌, min, Bool, true, false, List, [], ◌∷◌, ◌++◌, Option, none, some, length, take,
  drop, ltb, ◌==◌, if◌then◌else◌,
}
use server.Network.Packet.{
  PacketHeader, peek, frame_size, header_size, PacketSegment, Verdict, accepted, rejected, thrown,
  fault, Inbox, Serializer, process_receive_data,
}

pub record PendingStream : Type 0 where
  pub header : PacketHeader
  pub data_buffer : List ℕ

pub append_data : PendingStream → List ℕ → PendingStream
append_data p bytes = record p { data_buffer = p.data_buffer ++ bytes }

-- The header that a pending stream starts with.
abbrev pub no_header : PacketHeader
no_header = record { id = 0; size = 0 }

-- What a connection keeps between two receptions; `protocol` is `protocol_`, null if `none`.
pub record Receiver (P : Type 0) : Type 0 where
  pub pending : Option PendingStream
  pub protocol : Option (Inbox P)

-- A run of `ReceiveImpl`: returns true, with `has_any_completion_packets`; returns false, or
-- throws, which `OnReceived` treats alike; or reads out of range.
pub data Outcome : Type 0 where
  received : Bool → Outcome
  failed overrun : Outcome

-- What a pass of the loop leaves to do: the bytes still to process, or the way out.
pub data Pass (P : Type 0) : Type 0 where
  continue : Receiver P → Bool → List ℕ → Pass P
  break : Receiver P → Bool → Pass P
  leave : Receiver P → Outcome → Pass P

-- What `OnReceived` does next: `BeginReceive`, after `on_data_received_delegate_` if the flag is
-- set; `OnDisconnected`; `Disconnect`. The last case is the read out of range.
pub data Reaction (P : Type 0) : Type 0 where
  again : Bool → Receiver P → Reaction P
  disconnected closed overran : Receiver P → Reaction P

module _ {P : Type 0} (z : Serializer P) where
  -- `OnDataReceived` by the protocol alone, which is skipped if there is none.
  pub dispatch : Option (Inbox P) → PacketSegment → Verdict × Option (Inbox P)
  dispatch none s = (accepted, none)
  dispatch (some inbox) s = let (v, inbox') = process_receive_data z inbox s in (v, some inbox')

  -- `Connection::OnDataReceived`
  pub on_data_received : Receiver P → PacketSegment → Verdict × Receiver P
  on_data_received r s =
      let (v, protocol') = dispatch r.protocol s in (v, record r { protocol = protocol' })

  -- The completion of a pending packet: what its segment comes to, then `pending.reset()`.
  complete_pending : Receiver P → List ℕ → Bool → List ℕ → Pass P
  complete_pending r whole any rest =
      let (v, r') = on_data_received r (record { bytes = whole; length = length whole }) in
      elim v [
        | accepted ↦ continue (record r' { pending = none }) true rest
        | rejected ↦ leave r' failed
        | thrown ↦ leave r' failed
        | fault ↦ leave r' overrun
      ]

  -- The body of a pending packet, whose header is known; `rest` is what is left to process.
  pending_body : Receiver P → PendingStream → Bool → List ℕ → Pass P
  unfolding append_data complete_pending
  pending_body r p any rest =
      let required = frame_size p.header in
      if ltb required (length p.data_buffer)
      then leave (record r { pending = some p }) failed
      else let n = min (length rest) (required - length p.data_buffer) in
        let p' = append_data p (take n rest) in
        let r' = record r { pending = some p' } in
        (if required == length p'.data_buffer
          then complete_pending r' p'.data_buffer any (drop n rest)
          else continue r' any (drop n rest))

  -- The header of a pending packet, as far as the received bytes reach.
  pending_header : Receiver P → PendingStream → Bool → List ℕ → Pass P
  unfolding append_data pending_body
  pending_header r p any rest =
      let n = min (length rest) (header_size - length p.data_buffer) in
      let p' = append_data p (take n rest) in
      if ltb (length p'.data_buffer) header_size
      then break (record r { pending = some p' }) any
      else pending_body r (record p' { header = peek p'.data_buffer }) any (drop n rest)

  -- A pass with a pending packet: first its header, if that is not complete.
  pub pending_pass : Receiver P → PendingStream → Bool → List ℕ → Pass P
  unfolding pending_header
  pending_pass r p any rest =
      if ltb (length p.data_buffer) header_size
      then pending_header r p any rest
      else pending_body r p any rest

  -- A whole packet in the received bytes. A packet that the protocol rejects is skipped here.
  direct_packet : Receiver P → PacketHeader → Bool → List ℕ → Pass P
  direct_packet r h any rest =
      let (v, r') = on_data_received r (record { bytes = rest; length = frame_size h }) in
      elim v [
        | accepted ↦ continue r' true (drop (frame_size h) rest)
        | rejected ↦ continue r' any (drop (frame_size h) rest)
        | thrown ↦ leave r' failed
        | fault ↦ leave r' overrun
      ]

  -- A pass with no pending packet.
  pub direct_pass : Receiver P → Bool → List ℕ → Pass P
  unfolding direct_packet append_data
  direct_pass r any rest =
      if ltb (length rest) header_size
      then break
          (record r {
            pending = some (append_data (record { header = no_header; data_buffer = [] }) rest);
          })
          any
      else (if ltb (length rest) (frame_size (peek rest))
          then break
              (record r {
                pending = some (append_data (record { header = peek rest; data_buffer = [] }) rest);
              })
              any
          else direct_packet r (peek rest) any rest)

  pub pass : Receiver P → Bool → List ℕ → Pass P
  unfolding pending_pass direct_pass
  pass r any rest = elim r.pending [
    | some p ↦ pending_pass r p any rest
    | none ↦ direct_pass r any rest
  ]

  -- `while (processing_data_size < data_size)`, over the bytes not processed. `none` means that
  -- the fuel ran out.

  pub receive_loop : ℕ → Receiver P → Bool → List ℕ → Option (Outcome × Receiver P)
  receive_loop zero r any rest = none
  receive_loop (suc fuel) r any [] = some (received any, r)
  receive_loop (suc fuel) r any (b ∷ rest) = elim (pass r any (b ∷ rest)) [
    | continue r' any' rest' ↦ receive_loop fuel r' any' rest'
    | break r' any' ↦ some (received any', r')
    | leave r' o ↦ some (o, r')
  ]

  -- `ReceiveImpl`, for a buffer of `buffer_size` bytes whose first ones are `chunk`.
  pub receive_impl : ℕ → ℕ → Receiver P → List ℕ → Option (Outcome × Receiver P)
  receive_impl fuel buffer_size r chunk =
      if ltb buffer_size (length chunk) then some (failed, r) else receive_loop fuel r false chunk

  -- `OnReceived`, for the bytes that a read of the socket put into the buffer. The loop takes a byte
  -- or leaves at each pass but for a header whose size wraps round (`Receive.Stall`): this much fuel
  -- is enough.
  pub on_received : ℕ → Receiver P → Bool → List ℕ → Option (Reaction P)
  unfolding receive_impl
  on_received buffer_size r error chunk =
      if length chunk == 0
      then some (disconnected r)
      else (if error
          then some (disconnected r)
          else (elim (receive_impl (suc (length chunk)) buffer_size r chunk) [
            | none ↦ none
            | some (received any, r') ↦ some (again any r')
            | some (failed, r') ↦ some (closed r')
            | some (overrun, r') ↦ some (overran r')
          ]))

  -- The reads of a connection one after another, as long as each begins the next.
  pub receive_stream : ℕ → Receiver P → List (List ℕ) → Option (Reaction P)
  unfolding on_received
  receive_stream buffer_size r [] = some (again false r)
  receive_stream buffer_size r (c ∷ cs) = elim (on_received buffer_size r false c) [
    | some (again any r') ↦ receive_stream buffer_size r' cs
    | stop ↦ stop
  ]
