-- ===== src/Network/Send/Completed.antt =====
-- OnSendCompleted: what is sent next, and what is left.
use server.Base.{
  ℕ, ◌≤◌, ◌<◌, ◌≡◌, refl, sym, ap, ◌∙◌, subst, ◌⊎◌, inl, inr, true, false, List, [], ◌∷◌, ◌++◌,
  some, none, length, take, drop, arith, drop-append_le, drop_all, length-take, length-drop,
}
use server.Network.Stream.{
  OutputStream, Buffer, BufferView, next_buffer, advance_front, get_byte_count,
}
use server.Network.Stream.Buffers.{contents, IsStream}
use server.Network.Stream.Front.{next_buffer-Fronts, advance_front-contents, IsStream-tail}
use server.Network.Send.{Sender, send_impl, on_send_completed}
use server.Network.Send.Order.{wire_frames, Starts, Sends, front_bytes-contents, flush_send-Sends}

module _ (request : ℕ → List ℕ) (pooled : (n : ℕ) → 0 < length (request n)) where
  advanced :
      (l : List Buffer) (b : Buffer) (bs : List Buffer) (n : ℕ)
      → l ≡ b ∷ bs
      → IsStream l
      → n ≤ get_byte_count b
      → (contents (advance_front n l) ≡ drop n (contents l)) × IsStream (advance_front n l)
  advanced l b bs n e v h =
      subst
        (λ k. (contents (advance_front n k) ≡ drop n (contents k)) × IsStream (advance_front n k))
        (sym e)
        (
          sym (
              ap (drop n) (sym joined.0)
              ∙ drop-append_le n sent behind (omega (arith, whole))
              ∙ ap (λ x. x ++ behind) (drop_all n sent (omega (arith, whole)))),
          joined.1,
        )
    where
      w : IsStream (b ∷ bs)
      w = subst IsStream e v

      sent : List ℕ
      sent = take n (drop b.start_pos b.memory)

      behind : List ℕ
      behind = contents (advance_front n (b ∷ bs))

      joined : (sent ++ behind ≡ contents (b ∷ bs)) × IsStream (advance_front n (b ∷ bs))
      joined = advance_front-contents b bs n w h

      whole : length sent ≡ n
      whole = omega (
        arith,
        h,
        length-take n (drop b.start_pos b.memory),
        length-drop b.start_pos b.memory,
        (IsStream-tail b bs w).0.ordered,
        (IsStream-tail b bs w).0.inside,
      )

  -- A write of `n` bytes of the front buffer completes, and these bytes are no longer in the stream. If
  -- bytes are left, a write of the first of them starts; otherwise the messages in the queue are put
  -- into the stream, and a write of their first bytes starts, or nothing is sent if there is no message.
  pub on_send_completed-Starts :
      (c : Sender) (b : Buffer) (bs : List Buffer) (n : ℕ)
      → c.stream.buffers ≡ b ∷ bs
      → IsStream c.stream.buffers
      → c.is_sending ≡ true
      → n ≤ get_byte_count b
      → let left = drop n (contents c.stream.buffers) in
        (c' : Sender) × (on_send_completed request false n c ≡ some c')
        × ((Starts request pooled c c' × (contents c'.stream.buffers ≡ left) × (c'.queue ≡ c.queue))
            ⊎ ((left ≡ [])
                × (c'.queue.nodes ≡ [])
                × Sends request pooled c c' (wire_frames c.queue.nodes)))
  unfolding on_send_completed send_impl
  on_send_completed-Starts c b bs n e v busy h =
      let (gone, w) = advanced c.stream.buffers b bs n e v h in
      let s : OutputStream = record c.stream { buffers = advance_front n c.stream.buffers } in
      let (same, x, f, q) = next_buffer-Fronts s w in
      let s' : OutputStream = (next_buffer s).1 in
      elim f [
        | inr (d, ds, l, view, pos) ↦
            let front : BufferView = record {
              offset = d.start_pos;
              data_length = get_byte_count d;
            } in
            (
              send_impl front (record c { stream = s' }),
              rw (q ∙ view, on_send_completed) refl,
              inl (
                (
                  front,
                  busy,
                  refl,
                  pos,
                  ap (λ y. c.wire ++ y) (front_bytes-contents request pooled s'.buffers d ds l x),
                ),
                same ∙ gone,
                refl,
              ),
            )
        | inl (view, z) ↦
            let d : Sender = record c { stream = s'; is_sending = false; in_flight = none } in
            let (c', r, empty, sends) = flush_send-Sends request pooled d x refl in
            (
              c',
              rw (q ∙ view, on_send_completed) r,
              inr (
                sym gone ∙ sym same ∙ z,
                empty,
                (sends.0 ∙ ap (λ y. y ++ wire_frames c.queue.nodes) z, sends.1, sends.2),
              ),
            )
      ]
