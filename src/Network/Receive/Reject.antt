-- ===== src/Network/Receive/Reject.antt =====
-- What Connection::ReceiveImpl does with a packet that the protocol rejects: skipped where the
-- packet lies in one reception, the end of the connection where it is pending.
use server.Base.{
  ℕ, ◌+◌, ◌-◌, ◌≤◌, ◌<◌, ◌≡◌, refl, sym, ap, subst, ◌∙◌, Bool, false, List, [], ◌∷◌, ◌++◌, Option,
  some, none, length, length-append, length-take, append_assoc, arith, dec_lt, lt→ltb, le→not-ltb,
  ne→not-==, take, drop, take-append-drop, take_all, drop_all,
}
use server.Network.Packet.{PacketHeader, peek, header_size, Inbox, Serializer, rejected}
use server.Network.Receive.{
  Receiver, PendingStream, failed, Pass, continue, leave, dispatch, on_data_received, append_data,
  complete_pending, pending_body, pending_header, pending_pass, direct_pass, direct_packet, pass,
  receive_loop, receive_impl, on_received, receive_stream, again, closed,
}
use server.Network.Receive.Framing.{
  IsFrame, rest, whole, peek-append, IsFrame-header, IsFrame-frame_size,
}
use server.Network.Receive.Passes.{Holds, nothing, waiting}
use server.Network.Receive.Stream.{IsFrame-prefix, on_received-Delivers}

module _ {P : Type 0} (z : Serializer P) where
  -- The protocol rejects the frame `f`.
  abbrev Rejects : Option (Inbox P) → List ℕ → Option (Inbox P) → Type 0
  Rejects p f q = dispatch z p (whole f) ≡ (rejected, q)

  abbrev Fails : Pass P → Type 0
  Fails o = (r : Receiver P) × (o ≡ leave r failed)

  pending_body-Rejects :
      (r : Receiver P) (any : Bool) (h : PacketHeader) (kept x : List ℕ) {p' : Option (Inbox P)}
      → IsFrame (kept ++ x)
      → h ≡ peek (kept ++ x)
      → Rejects r.protocol (kept ++ x) p'
      → Fails (pending_body z r (record { header = h; data_buffer = kept }) any x)
  unfolding pending_body append_data complete_pending on_data_received
  pending_body-Rejects r any h kept x {p'} v e t = (
    record { pending = some (record { header = h; data_buffer = kept ++ x }); protocol = p' },
    ground (
      arith,
      IsFrame-frame_size (kept ++ x) v,
      length-append kept x,
      take_all (length x) x,
      drop_all (length x) x,
    ),
  )

  pending_header-Rejects :
      (r : Receiver P) (any : Bool) (h : PacketHeader) (kept x : List ℕ) {p' : Option (Inbox P)}
      → IsFrame (kept ++ x)
      → length kept < header_size
      → Rejects r.protocol (kept ++ x) p'
      → Fails (pending_header z r (record { header = h; data_buffer = kept }) any x)
  unfolding pending_header append_data
  pending_header-Rejects r any h kept x {p'} v few t =
      let (r', e) =
        pending_body-Rejects r any (peek head) head (drop m x) {p' = p'} (rw joined v)
          (sym (peek-append head (drop m x) (omega (arith, full)))) (rw joined t) in
      (r', ground (arith, room, full, e))
    where
      m : ℕ
      m = header_size - length kept

      room : header_size ≤ length kept + length x
      room = omega (arith, IsFrame-header (kept ++ x) v, length-append kept x)

      head : List ℕ
      head = kept ++ take m x

      full : length head ≡ header_size
      full = omega (arith, length-append kept (take m x), length-take m x, room)

      joined : head ++ drop m x ≡ kept ++ x
      joined = append_assoc kept (take m x) (drop m x) ∙ ap (◌++◌ kept) (take-append-drop m x)

  pending_pass-Rejects :
      (r : Receiver P) (any : Bool) (h : PacketHeader) (kept x : List ℕ) {p' : Option (Inbox P)}
      → (header_size ≤ length kept → h ≡ peek kept)
      → IsFrame (kept ++ x)
      → Rejects r.protocol (kept ++ x) p'
      → Fails (pending_pass z r (record { header = h; data_buffer = kept }) any x)
  unfolding pending_pass
  pending_pass-Rejects r any h kept x e v t = elim (dec_lt (length kept) header_size) [
    | yes few ↦ rw (lt→ltb _ _ few) (pending_header-Rejects r any h kept x v few t)
    | no many ↦
        let long : header_size ≤ length kept = omega arith in
        rw (le→not-ltb _ _ long)
          (pending_body-Rejects r any h kept x v (e long ∙ sym (peek-append kept x long)) t)
  ]

  direct_pass-Rejects :
      (r : Receiver P) (any : Bool) (f : List ℕ) {p' : Option (Inbox P)}
      → r.pending ≡ none
      → IsFrame f
      → Rejects r.protocol f p'
      → pass z r any f ≡ continue (record { pending = none; protocol = p' }) any []
  unfolding pass direct_pass direct_packet on_data_received
  direct_pass-Rejects r any f e v t =
      ground (arith, IsFrame-header f v, IsFrame-frame_size f v, drop_all (length f) f)

  pass-some :
      (r : Receiver P) (p : PendingStream) (any : Bool) (bytes : List ℕ)
      → r.pending ≡ some p
      → pass z r any bytes ≡ pending_pass z r p any bytes
  unfolding pass
  pass-some r p any bytes e = ground arith

  on_received-whole :
      (n : ℕ) (r : Receiver P) (f : List ℕ) {p' : Option (Inbox P)}
      → length f ≤ n
      → r.pending ≡ none
      → IsFrame f
      → Rejects r.protocol f p'
      → on_received z n r false f ≡ some (again false (record { pending = none; protocol = p' }))
  unfolding on_received receive_impl receive_loop
  on_received-whole n r [] fit e v t = absurd (omega (arith, IsFrame-header [] v))
  on_received-whole n r (b ∷ f) fit e v t = rw (
    ne→not-== (length (b ∷ f)) 0 (omega arith),
    le→not-ltb n (length (b ∷ f)) fit,
    direct_pass-Rejects r false (b ∷ f) e v t,
    receive_loop,
  )

  on_received-pending :
      (n : ℕ) (r : Receiver P) (kept y : List ℕ) {p' : Option (Inbox P)}
      → length y ≤ n
      → 0 < length kept
      → 0 < length y
      → Holds r.pending kept
      → IsFrame (kept ++ y)
      → Rejects r.protocol (kept ++ y) p'
      → (r' : Receiver P) × (on_received z n r false y ≡ some (closed r'))
  unfolding on_received receive_impl receive_loop
  on_received-pending n r kept [] fit pos pos' h v t = absurd (omega arith)
  on_received-pending n r kept (b ∷ y) fit pos pos' (nothing e k) v t =
      absurd (omega (arith, ap length k))
  on_received-pending n r kept (b ∷ y) fit pos pos' (waiting h e _ k w) v t =
      let (r', o) = pending_pass-Rejects r false h kept (b ∷ y) k v t in
      (
        r',
        rw (
          ne→not-== (length (b ∷ y)) 0 (omega arith),
          le→not-ltb n (length (b ∷ y)) fit,
          pass-some r _ false (b ∷ y) e ∙ o,
        ),
      )

  -- A frame that the protocol rejects is skipped, and the connection goes on, if it is received in
  -- one piece; received in two pieces, wherever it is cut, it closes the connection.
  pub rejected_cut :
      (n : ℕ) (r : Receiver P) (x y : List ℕ) {p' : Option (Inbox P)}
      → 0 < length x
      → 0 < length y
      → length (x ++ y) ≤ n
      → r.pending ≡ none
      → IsFrame (x ++ y)
      → Rejects r.protocol (x ++ y) p'
      → (receive_stream z n r ((x ++ y) ∷ [])
          ≡ some (again false (record { pending = none; protocol = p' })))
        × ((r' : Receiver P) × (receive_stream z n r (x ∷ y ∷ []) ≡ some (closed r')))
  unfolding receive_stream
  rejected_cut n r x y {p'} px py fit e v t =
      let (any, r1, o, h, q) =
        on_received-Delivers z n r [] x px (omega (arith, length-append x y)) (nothing e refl)
          (rest (IsFrame-prefix x y (x ++ y) refl (omega (arith, length-append x y)) v)) in
      let (r2, o2) =
        on_received-pending n r1 x y (omega (arith, length-append x y)) px py h v
          (subst (λ p. Rejects p (x ++ y) p') (sym q) t) in
      (
        rw (on_received-whole n r (x ++ y) fit e v t, receive_stream),
        (r2, rw (o, receive_stream, o2)),
      )
