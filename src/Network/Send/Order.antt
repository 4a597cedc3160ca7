-- ===== src/Network/Send/Order.antt =====
-- A flush of a connection with no write in progress: what it puts into the stream, and what it sends.
use server.Base.{
  ℕ, ◌+◌, ◌-◌, ◌%◌, ◌<◌, ◌≡◌, refl, sym, ap, ◌∙◌, true, false, List, [], ◌∷◌, ◌++◌, some, none,
  length, take, drop, arith, append_assoc, append-nil, ◌⊎◌, inl, inr, take-append_exact,
  length-take, length-drop, subst,
}
use server.Network.Packet.{size_mod}
use server.Network.Stream.{
  OutputStream, Buffer, BufferView, next_buffer, header_bytes, get_byte_count,
}
use server.Network.Stream.Buffers.{contents, IsStream, slice}
use server.Network.Stream.Writing.{write_message-Appends}
use server.Network.Stream.Front.{next_buffer-Fronts, IsStream-tail}
use server.Network.Send.Lost.{send_next-queue}
use server.Network.Send.{
  Sender, SendNode, decrease_node_count, drain, send_next, send_impl, front_bytes, flush_send,
}

-- The bytes of a message on the wire, and of messages one after another.
abbrev wire_frame : SendNode → List ℕ
wire_frame node = header_bytes node.0 (length node.1) ++ node.1

abbrev pub wire_frames : List SendNode → List ℕ
wire_frames [] = []
wire_frames (node ∷ nodes) = wire_frame node ++ wire_frames nodes

module _ (request : ℕ → List ℕ) (pooled : (n : ℕ) → 0 < length (request n)) where
  drain-Appends :
      (nodes : List SendNode) (count : ℕ) (s : OutputStream)
      → IsStream s.buffers
      → (count' : ℕ) × (s' : OutputStream) × (drain request nodes count s ≡ some (count', s'))
        × (contents s'.buffers ≡ contents s.buffers ++ wire_frames nodes)
        × IsStream s'.buffers
  unfolding drain
  drain-Appends [] count s v = (count, s, refl, sym (append-nil (contents s.buffers)), v)
  drain-Appends (node ∷ nodes) count s v =
      let (s', e, cw) = write_message-Appends request pooled s node.0 node.1 v in
      let (n, u, e', c', w') = drain-Appends nodes ((count + size_mod - 1) % size_mod) s' cw.1 in
      (
        n,
        u,
        rw (e, drain) e',
        c'
            ∙ ap (λ q. q ++ wire_frames nodes) cw.0
            ∙ append_assoc (contents s.buffers) (wire_frame node) (wire_frames nodes),
        w',
      )

  -- Bytes are given to the socket: a write is in progress, of the bytes at the front of the stream.
  abbrev pub Starts : Sender → Sender → Type 0
  Starts c c' =
      (v : BufferView) × (c'.is_sending ≡ true)
      × (c'.in_flight ≡ some v)
      × (0 < v.data_length)
      × (c'.wire ≡ c.wire ++ take v.data_length (contents c'.stream.buffers))

  take-contents :
      (b : Buffer) (bs : List Buffer)
      → IsStream (b ∷ bs)
      → take (get_byte_count b) (contents (b ∷ bs)) ≡ slice b
  unfolding contents
  take-contents b bs v = take-append_exact (get_byte_count b) (slice b) (contents bs) (
      omega (
        arith,
        length-take (get_byte_count b) (drop b.start_pos b.memory),
        length-drop b.start_pos b.memory,
        (IsStream-tail b bs v).0.ordered,
        (IsStream-tail b bs v).0.inside,
      ))

  pub front_bytes-contents :
      (l : List Buffer) (b : Buffer) (bs : List Buffer)
      → l ≡ b ∷ bs
      → IsStream l
      → front_bytes l (record { offset = b.start_pos; data_length = get_byte_count b })
        ≡ take (get_byte_count b) (contents l)
  unfolding front_bytes
  front_bytes-contents l b bs e v =
      subst
        (λ k.
          IsStream k
          → front_bytes k (record { offset = b.start_pos; data_length = get_byte_count b })
            ≡ take (get_byte_count b) (contents k))
        (sym e) (λ w. sym (take-contents b bs w)) v

  -- `send_next` with the next buffer known.
  send_next-some :
      (c : Sender) (view : BufferView)
      → (next_buffer c.stream).0 ≡ some view
      → send_next request c
        ≡ send_impl view (record c { stream = (next_buffer c.stream).1; is_sending = true })
  unfolding send_next
  send_next-some c view e = ground (arith, e)

  send_next-none :
      (c : Sender)
      → (next_buffer c.stream).0 ≡ none
      → send_next request c ≡ record c { stream = (next_buffer c.stream).1 }
  unfolding send_next
  send_next-none c e = ground (arith, e)

  abbrev pub Sends : Sender → Sender → List ℕ → Type 0
  Sends c c' bytes =
      (contents c'.stream.buffers ≡ bytes)
      × IsStream c'.stream.buffers
      × (Starts c c' ⊎ ((contents c'.stream.buffers ≡ []) × (c'.wire ≡ c.wire)))

  send_next-Starts :
      (c : Sender)
      → IsStream c.stream.buffers
      → Sends c (send_next request c) (contents c.stream.buffers)
  unfolding send_impl
  send_next-Starts c v =
      let (same, w, f, e) = next_buffer-Fronts c.stream v in
      elim f [
        | inl (n, z) ↦ rw (send_next-none c (e ∙ n)) (same, w, inr (z, refl))
        | inr (b, bs, l, n, pos) ↦ rw (send_next-some c _ (e ∙ n)) (
          same,
          w,
          inl (_, refl, refl, pos, ap (λ q. c.wire ++ q) (front_bytes-contents _ b bs l w)),
        )
      ]

  -- With no write in progress, FlushSend ends, empties the queue, and puts each message behind the bytes
  -- that wait, in order. Then it starts a write of bytes at the front, which are not none, unless no
  -- byte waits.
  pub flush_send-Sends :
      (c : Sender)
      → IsStream c.stream.buffers
      → c.is_sending ≡ false
      → (c' : Sender) × (flush_send request c ≡ some c')
        × (c'.queue.nodes ≡ [])
        × Sends c c' (contents c.stream.buffers ++ wire_frames c.queue.nodes)
  unfolding flush_send decrease_node_count
  flush_send-Sends c v idle =
      let (count, s, drained, filled, w) = drain-Appends c.queue.nodes c.queue.count c.stream v in
      let d : Sender = record c {
        queue = record { nodes = []; count = (count + size_mod - length c.queue.nodes) % size_mod };
        stream = s;
      } in
      let (same, w', f) = send_next-Starts d w in
      (
        send_next request d,
        rw (drained, idle, flush_send) refl,
        ap (λ q. q.nodes) (send_next-queue request d),
        (same ∙ filled, w', f),
      )
