-- ===== src/Network/Receive/Stall.antt =====
-- Does the loop of Connection::ReceiveImpl end? It does, unless a header's size field wraps round
-- in `header.size + PacketHeader::Size()` to a packet of no bytes.
use server.Base.{
  ℕ, zero, suc, ◌-◌, ◌≤◌, ◌<◌, ◌≡◌, ◌≢◌, refl, Bool, true, false, List, [], ◌∷◌, ◌++◌, Option, some,
  none, min, length, length-append, length-drop, length-take, take, drop, arith, dec_lt, inl, inr,
  ◌⊎◌, lt→ltb, le→not-ltb, Option-cases, subst,
}
use server.Network.Packet.{
  PacketHeader, peek, header, header_size, size_mod, frame_size, PacketSegment, accepted, rejected,
  Inbox, Serializer, InternalPacketId, process_receive_data, process_internal, process_packet,
  internal_packet_id, hello, message, ping, pong, count,
}
use server.Network.Receive.{
  Receiver, PendingStream, Outcome, received, Pass, continue, break, leave, pass, pending_pass,
  pending_header, pending_body, direct_pass, direct_packet, complete_pending, append_data, dispatch,
  on_data_received, receive_loop,
}

-- Every id but `kMessage` is one that the base protocol ignores, or none of its own.
not_message :
    (id : ℕ)
    → id ≢ 1
    → ((i : InternalPacketId) × (internal_packet_id id ≡ some i) × (i ≢ message))
      ⊎ (internal_packet_id id ≡ none)
unfolding internal_packet_id
not_message zero n = inl (hello, refl, λ e. cc)
not_message (suc zero) n = absurd (n refl)
not_message (suc (suc zero)) n = inl (ping, refl, λ e. cc)
not_message (suc (suc (suc zero))) n = inl (pong, refl, λ e. cc)
not_message (suc (suc (suc (suc zero)))) n = inl (count, refl, λ e. cc)
not_message (suc (suc (suc (suc (suc k))))) n = inr refl

-- No header in these bytes, wherever it begins, makes a packet of no bytes.
abbrev NoStall : List ℕ → Type 0
NoStall [] = Unit {0}
NoStall (b ∷ bs) = (frame_size (peek (b ∷ bs)) ≢ 0) × NoStall bs

NoStall-drop : (n : ℕ) (bs : List ℕ) → NoStall bs → NoStall (drop n bs)
NoStall-drop zero bs v = v
NoStall-drop (suc n) [] v = v
NoStall-drop (suc n) (b ∷ bs) v = NoStall-drop n bs v.1

-- A pending packet is not complete: its bytes would have been handed over.
abbrev Awaits : Option PendingStream → Type 0
Awaits none = Unit {0}
Awaits (some p) = header_size ≤ length p.data_buffer → frame_size p.header ≢ length p.data_buffer

-- What the connection keeps for the next reception.
abbrev pub Keeps : {P : Type 0} → Outcome → Receiver P → Type 0
Keeps (received any) r = Awaits r.pending
Keeps _ r = Unit {0}

-- A pass that goes on leaves fewer bytes than the bound.
abbrev Shrinks : {P : Type 0} → ℕ → Pass P → Type 0
Shrinks bound (continue r any left) = (length left < bound) × NoStall left × Awaits r.pending
Shrinks bound (break r any) = Awaits r.pending
Shrinks bound (leave r o) = Keeps o r

module _ {P : Type 0} (z : Serializer P) where
  -- A protocol that does not read the body of a segment is left as it was.
  dispatch_unread :
      (p : Option (Inbox P)) (s : PacketSegment)
      → PacketHeader.id (header s) ≢ 1
      → z.is_valid (PacketHeader.id (header s)) ≡ false
      → (dispatch z p s ≡ (accepted, p)) ⊎ (dispatch z p s ≡ (rejected, p))
  unfolding dispatch process_receive_data process_internal process_packet
  dispatch_unread none s n v = inl refl
  dispatch_unread (some inbox) s n v = elim (not_message (PacketHeader.id (header s)) n) [
    | inl (hello, e, m) ↦ inl (ground arith)
    | inl (message, e, m) ↦ absurd (m refl)
    | inl (ping, e, m) ↦ inl (ground arith)
    | inl (pong, e, m) ↦ inl (ground arith)
    | inl (count, e, m) ↦ inl (ground arith)
    | inr e ↦ inr (ground arith)
  ]

  stalled_pass :
      (r : Receiver P) (any : Bool) (bytes : List ℕ)
      → r.pending ≡ none
      → header_size ≤ length bytes
      → PacketHeader.size (peek bytes) ≡ size_mod - header_size
      → PacketHeader.id (peek bytes) ≢ 1
      → z.is_valid (PacketHeader.id (peek bytes)) ≡ false
      → (any' : Bool) × (pass z r any bytes ≡ continue r any' bytes)
  unfolding pass direct_pass direct_packet on_data_received frame_size header
  stalled_pass r any bytes e long wrap n v =
      elim (dispatch_unread r.protocol (record { bytes = bytes; length = 0 }) n v) [
        | inl a ↦ (true, ground arith)
        | inr a ↦ (any, ground arith)
      ]

  -- A size field of 2^64 - 16 makes a packet of no bytes: if no packet is pending, all bytes of the header
  -- are in hand, and the id of it is neither `kMessage` nor one that the serializer knows, no number of
  -- passes gets past it, so `ReceiveImpl` does not return.
  pub receive_loop_stalls :
      (fuel : ℕ) (r : Receiver P) (any : Bool) (bytes : List ℕ)
      → r.pending ≡ none
      → header_size ≤ length bytes
      → PacketHeader.size (peek bytes) ≡ size_mod - header_size
      → PacketHeader.id (peek bytes) ≢ 1
      → z.is_valid (PacketHeader.id (peek bytes)) ≡ false
      → receive_loop z fuel r any bytes ≡ none
  unfolding receive_loop
  receive_loop_stalls zero r any bytes e long wrap n v = refl
  receive_loop_stalls (suc fuel) r any [] e long wrap n v = absurd (omega arith)
  receive_loop_stalls (suc fuel) r any (b ∷ bytes) e long wrap n v =
      let (any', p) = stalled_pass r any (b ∷ bytes) e long wrap n v in
      rw (p, receive_loop) (receive_loop_stalls fuel r any' (b ∷ bytes) e long wrap n v)

  pending_body-Shrinks :
      (bound : ℕ) (r : Receiver P) (p : PendingStream) (any : Bool) (bytes : List ℕ)
      → 0 < bound
      → length bytes ≤ bound
      → (length bytes < bound) ⊎ (frame_size p.header ≢ length p.data_buffer)
      → NoStall bytes
      → header_size ≤ length p.data_buffer
      → Shrinks bound (pending_body z r p any bytes)
  unfolding pending_body append_data complete_pending on_data_received
  pending_body-Shrinks bound r p any bytes pos le less v long =
      let n = min (length bytes) (frame_size p.header - length p.data_buffer) in
      ground (
        arith,
        length-drop n bytes,
        length-take n bytes,
        length-append p.data_buffer (take n bytes),
        NoStall-drop n bytes v,
      )

  pending_header-Shrinks :
      (r : Receiver P) (p : PendingStream) (any : Bool) (bytes : List ℕ)
      → 0 < length bytes
      → NoStall bytes
      → length p.data_buffer < header_size
      → Shrinks (length bytes) (pending_header z r p any bytes)
  unfolding pending_header append_data
  pending_header-Shrinks r p any bytes pos v few =
      let m = min (length bytes) (header_size - length p.data_buffer) in
      let buffer = p.data_buffer ++ take m bytes in
      let shorter : length (drop m bytes) < length bytes = omega (arith, length-drop m bytes) in
      elim (dec_lt (length buffer) header_size) [
        | yes short ↦ rw (lt→ltb _ _ short) (λ many e. absurd (omega (arith, many, short)))
        | no full ↦ rw (le→not-ltb (length buffer) header_size (omega arith)) (
            pending_body-Shrinks (length bytes) r
              (record { header = peek buffer; data_buffer = buffer }) any (drop m bytes) pos
              (omega arith) (inl shorter) (NoStall-drop m bytes v) (omega arith))
      ]

  pass-Shrinks :
      (r : Receiver P) (any : Bool) (bytes : List ℕ)
      → 0 < length bytes
      → NoStall bytes
      → Awaits r.pending
      → Shrinks (length bytes) (pass z r any bytes)
  unfolding pass pending_pass direct_pass direct_packet on_data_received
  pass-Shrinks r any [] pos v w = absurd (omega arith)
  pass-Shrinks r any (b ∷ bytes) pos v w = elim (Option-cases r.pending) [
    | inl e ↦
        let k = frame_size (peek (b ∷ bytes)) in
        ground (arith, v.0, length-drop k (b ∷ bytes), NoStall-drop k (b ∷ bytes) v)
    | inr (p, e) ↦
        let w' : Awaits (some p) = subst Awaits e w in
        rw (e, pass)
          (elim (dec_lt (length p.data_buffer) header_size) [
            | yes few ↦ rw (lt→ltb _ _ few) (pending_header-Shrinks r p any (b ∷ bytes) pos v few)
            | no many ↦ rw (le→not-ltb (length p.data_buffer) header_size (omega arith)) (
                pending_body-Shrinks (length (b ∷ bytes)) r p any (b ∷ bytes) pos (omega arith)
                  (inr (w' (omega arith))) v (omega arith))
          ])
  ]

  -- If no header in the bytes makes a packet of none, and the bytes of a pending packet, should there be
  -- one, are not yet as many as its header says, the loop ends within one pass more than there are bytes,
  -- whatever the protocol makes of the packets. If it does not end in a way that closes the connection, the
  -- bytes of a packet that is pending then are not yet as many as its header says either.
  pub receive_loop_ends :
      (fuel : ℕ) (r : Receiver P) (any : Bool) (bytes : List ℕ)
      → length bytes < fuel
      → NoStall bytes
      → Awaits r.pending
      → (o : Outcome) × (r' : Receiver P) × (receive_loop z fuel r any bytes ≡ some (o, r'))
        × Keeps o r'
  unfolding receive_loop
  receive_loop_ends zero r any bytes few v w = absurd (omega arith)
  receive_loop_ends (suc fuel) r any [] few v w = (received any, r, refl, w)
  receive_loop_ends (suc fuel) r any (b ∷ bytes) few v w =
      after (receive_loop_ends fuel) (pass z r any (b ∷ bytes)) refl
        (pass-Shrinks r any (b ∷ bytes) (omega arith) v w)
    where
      after :
          ((r' : Receiver P) (any' : Bool) (left : List ℕ)
            → length left < fuel
            → NoStall left
            → Awaits r'.pending
            → (o : Outcome) × (k : Receiver P) × (receive_loop z fuel r' any' left ≡ some (o, k))
              × Keeps o k)
          → (o : Pass P) → pass z r any (b ∷ bytes) ≡ o
          → Shrinks (length (b ∷ bytes)) o
          → (o' : Outcome) × (k : Receiver P) × (receive_loop z (suc fuel) r any (b ∷ bytes)
              ≡ some (o', k))
            × Keeps o' k
      after go (continue r' any' left) e s =
          rw (e, receive_loop) (go r' any' left (omega arith) s.1 s.2)
      after go (break r' any') e s = (received any', r', rw (e, receive_loop) refl, s)
      after go (leave r' o) e s = (o, r', rw (e, receive_loop) refl, s)
