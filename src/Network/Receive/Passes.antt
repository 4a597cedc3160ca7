-- ===== src/Network/Receive/Passes.antt =====
-- One pass of the loop of Connection::ReceiveImpl, at a whole frame and at a partial one.
use server.Base.{
  ℕ, ◌+◌, ◌-◌, ◌≤◌, ◌<◌, ◌≡◌, refl, sym, ap, subst, ◌∙◌, Bool, true, List, [], ◌++◌, Option, some,
  none, length, take, drop, length-append, take-append_le, drop-append_le, take-length_append,
  drop-length_append, take_all, drop_all, append_assoc, arith, dec_lt, inl, inr, ◌⊎◌, lt→ltb,
  le→not-ltb, length-take, take-append-drop,
}
use server.Network.Packet.{PacketHeader, peek, header_size, size_mod, frame_size, Inbox, Serializer}
use server.Network.Receive.{
  PendingStream, Receiver, Pass, continue, break, on_data_received, complete_pending, pending_body,
  pending_header, pass, pending_pass, direct_packet, direct_pass, append_data, no_header,
}
use server.Network.Receive.Framing.{
  IsFrame, IsPartial, short, long, Takes, peek-append, IsFrame-header, IsFrame-frame_size,
  dispatch-append,
}

-- The connection between two passes holds the bytes `kept`, the beginning of a frame.
pub data Holds (o : Option PendingStream) (kept : List ℕ) : Type 0 where
  nothing : o ≡ none → kept ≡ [] → Holds o kept
  waiting :
      (h : PacketHeader)
      → o ≡ some (record { header = h; data_buffer = kept })
      → 0 < length kept
      → (header_size ≤ length kept → h ≡ peek kept)
      → IsPartial kept
      → Holds o kept

module _ {P : Type 0} (z : Serializer P) where
  direct_pass-frame :
      (r : Receiver P) (any : Bool) (f others : List ℕ) {p' : Option (Inbox P)}
      → IsFrame f
      → Takes z r.protocol f p'
      → direct_pass z r any (f ++ others) ≡ continue (record r { protocol = p' }) true others
  unfolding direct_pass direct_packet on_data_received
  direct_pass-frame r any f others {p'} v t = ground (
    arith,
    IsFrame-header f v,
    IsFrame-frame_size f v,
    peek-append f others,
    dispatch-append z r.protocol f others (length f),
    length-append f others,
    drop-length_append f others,
  )

  direct_pass-partial :
      (r : Receiver P) (any : Bool) (c : List ℕ)
      → IsPartial c
      → (h : PacketHeader) × (direct_pass z r any c
          ≡ break (record r { pending = some (record { header = h; data_buffer = c }) }) any)
        × (header_size ≤ length c → h ≡ peek c)
  unfolding direct_pass append_data frame_size
  direct_pass-partial r any c (short h) = (no_header, ground arith, λ k. absurd (omega arith))
  direct_pass-partial r any c (long h k m) = (peek c, ground arith, λ _. refl)

  pending_body-frame :
      (r : Receiver P) (any : Bool) (h : PacketHeader) (kept x others : List ℕ)
      {p' : Option (Inbox P)}
      → IsFrame (kept ++ x)
      → h ≡ peek (kept ++ x)
      → Takes z r.protocol (kept ++ x) p'
      → pending_body z r (record { header = h; data_buffer = kept }) any (x ++ others)
        ≡ continue (record { pending = none; protocol = p' }) true others
  unfolding pending_body append_data complete_pending on_data_received
  pending_body-frame r any h kept x others {p'} v e t = ground (
    arith,
    IsFrame-frame_size (kept ++ x) v,
    length-append kept x,
    length-append x others,
    take-length_append x others,
    drop-length_append x others,
  )

  pending_body-partial :
      (r : Receiver P) (any : Bool) (h : PacketHeader) (kept x : List ℕ)
      → h ≡ peek (kept ++ x)
      → length (kept ++ x) < h.size + header_size
      → h.size + header_size < size_mod
      → pending_body z r (record { header = h; data_buffer = kept }) any x
        ≡ continue
            (record r { pending = some (record { header = h; data_buffer = kept ++ x }) })
            any
            []
  unfolding pending_body append_data frame_size
  pending_body-partial r any h kept x e small fits =
      ground (arith, length-append kept x, take_all (length x) x, drop_all (length x) x)

  -- The pass that completes the header: `m` bytes of `x` are the rest of it.
  pending_header-frame :
      (r : Receiver P) (any : Bool) (h : PacketHeader) (kept x others : List ℕ)
      {p' : Option (Inbox P)}
      → IsFrame (kept ++ x)
      → length kept < header_size
      → Takes z r.protocol (kept ++ x) p'
      → pending_header z r (record { header = h; data_buffer = kept }) any (x ++ others)
        ≡ continue (record { pending = none; protocol = p' }) true others
  unfolding pending_header append_data
  pending_header-frame r any h kept x others {p'} v few t = ground (
    arith,
    room,
    length-append x others,
    length-append kept x,
    take-append_le m x others (omega (arith, room)),
    drop-append_le m x others (omega (arith, room)),
    full,
    pending_body-frame r any (peek head) head (drop m x) others {p' = p'} (rw joined v)
        (sym (peek-append head (drop m x) (omega (arith, full)))) (rw joined t),
  )
    where
      m : ℕ
      m = header_size - length kept

      room : header_size ≤ length kept + length x
      room = omega (arith, IsFrame-header (kept ++ x) v, length-append kept x)

      head : List ℕ
      head = kept ++ take m x

      full : length head ≡ header_size
      full = omega (arith, length-append kept (take m x), length-take m x, room)

      joined : head ++ drop m x ≡ kept ++ x
      joined = append_assoc kept (take m x) (drop m x) ∙ ap (◌++◌ kept) (take-append-drop m x)

  pending_pass-frame :
      (r : Receiver P) (any : Bool) (h : PacketHeader) (kept x others : List ℕ)
      {p' : Option (Inbox P)}
      → (header_size ≤ length kept → h ≡ peek kept)
      → IsFrame (kept ++ x)
      → Takes z r.protocol (kept ++ x) p'
      → pending_pass z r (record { header = h; data_buffer = kept }) any (x ++ others)
        ≡ continue (record { pending = none; protocol = p' }) true others
  unfolding pending_pass
  pending_pass-frame r any h kept x others e v t = elim (dec_lt (length kept) header_size) [
    | yes few ↦ rw (lt→ltb _ _ few) (pending_header-frame r any h kept x others v few t)
    | no many ↦ rw (le→not-ltb _ _ (le_of_not_lt many)) (
        pending_body-frame r any h kept x others v
          (e (le_of_not_lt many) ∙ sym (peek-append kept x (le_of_not_lt many))) t)
  ]
    where
      le_of_not_lt : ¬ (length kept < header_size) → header_size ≤ length kept
      le_of_not_lt k = omega arith

  -- The pass over the rest of the received bytes, if they do not complete the packet.
  abbrev Waits : Receiver P → Bool → List ℕ → Pass P → Type 0
  Waits r any all o =
      (h : PacketHeader) × ((o
          ≡ break (record r { pending = some (record { header = h; data_buffer = all }) }) any)
        ⊎ (o
            ≡ continue (record r { pending = some (record { header = h; data_buffer = all }) }) any
                []))
      × (header_size ≤ length all → h ≡ peek all)

  pending_header-partial :
      (r : Receiver P) (any : Bool) (h : PacketHeader) (kept x : List ℕ)
      → length kept < header_size
      → IsPartial (kept ++ x)
      → Waits r any
          (kept ++ x)
          (pending_header z r (record { header = h; data_buffer = kept }) any x)
  unfolding pending_header append_data
  pending_header-partial r any h kept x few (short s) = (
    h,
    inl (ground (arith, length-append kept x, take_all (length x) x)),
    λ k. absurd (omega arith),
  )
  pending_header-partial r any h kept x few (long s k fits) = (
    peek head,
    inr (
        ground (
          arith,
          room,
          full,
          head_peek,
          ap length joined,
          joined,
          pending_body-partial r any (peek head) head (drop m x) (head_peek ∙ ap peek (sym joined))
              (rw (joined, head_peek) k) (rw head_peek fits),
        )),
    λ _. head_peek,
  )
    where
      m : ℕ
      m = header_size - length kept

      room : header_size ≤ length kept + length x
      room = omega (arith, length-append kept x)

      head : List ℕ
      head = kept ++ take m x

      full : length head ≡ header_size
      full = omega (arith, length-append kept (take m x), length-take m x, room)

      joined : head ++ drop m x ≡ kept ++ x
      joined = append_assoc kept (take m x) (drop m x) ∙ ap (◌++◌ kept) (take-append-drop m x)

      head_peek : peek head ≡ peek (kept ++ x)
      head_peek = sym (peek-append head (drop m x) (omega (arith, full))) ∙ ap peek joined

  pending_pass-partial :
      (r : Receiver P) (any : Bool) (h : PacketHeader) (kept x : List ℕ)
      → (header_size ≤ length kept → h ≡ peek kept)
      → IsPartial (kept ++ x)
      → Waits r any (kept ++ x) (pending_pass z r (record { header = h; data_buffer = kept }) any x)
  unfolding pending_pass
  pending_pass-partial r any h kept x e v = elim (dec_lt (length kept) header_size) [
    | yes few ↦ rw (lt→ltb _ _ few) (pending_header-partial r any h kept x few v)
    | no many ↦ rw (le→not-ltb _ _ (le_of_not_lt many)) (body (le_of_not_lt many) v)
  ]
    where
      le_of_not_lt : ¬ (length kept < header_size) → header_size ≤ length kept
      le_of_not_lt k = omega arith

      body :
          header_size ≤ length kept
          → IsPartial (kept ++ x)
          → Waits r any
              (kept ++ x)
              (pending_body z r (record { header = h; data_buffer = kept }) any x)
      body many (short s) = absurd (omega (arith, length-append kept x))
      body many (long s k fits) =
          let same : h ≡ peek (kept ++ x) = e many ∙ sym (peek-append kept x many) in
          (h, inr (pending_body-partial r any h kept x same (rw same k) (rw same fits)), λ _. same)

  pass-none :
      (r : Receiver P) (any : Bool) (bytes : List ℕ)
      → r.pending ≡ none
      → pass z r any bytes ≡ direct_pass z r any bytes
  unfolding pass
  pass-none r any bytes e = ground arith

  pub pass-frame :
      (r : Receiver P) (any : Bool) (kept x others : List ℕ) {p' : Option (Inbox P)}
      → Holds r.pending kept
      → IsFrame (kept ++ x)
      → Takes z r.protocol (kept ++ x) p'
      → pass z r any (x ++ others) ≡ continue (record { pending = none; protocol = p' }) true others
  unfolding pass
  pass-frame r any kept x others {p'} (nothing e k) v t =
      pass-none r any (x ++ others) e
      ∙ (direct_pass-frame r any x others {p' = p'} (subst (λ b. IsFrame (b ++ x)) k v)
            (subst (λ b. Takes z r.protocol (b ++ x) p') k t)
          ∙ ap (λ o. continue (record { pending = o; protocol = p' }) true others) e)
  pass-frame r any kept x others (waiting h e pos k w) v t =
      rw (e, pass) (pending_pass-frame r any h kept x others k v t)

  pub pass-partial :
      (r : Receiver P) (any : Bool) (kept x : List ℕ)
      → Holds r.pending kept
      → IsPartial (kept ++ x)
      → Waits r any (kept ++ x) (pass z r any x)
  unfolding pass
  pass-partial r any kept x (nothing e k) v =
      let (h, p, q) = direct_pass-partial r any x (subst (λ b. IsPartial (b ++ x)) k v) in
      subst (λ b. Waits r any (b ++ x) (pass z r any x)) (sym k)
        (h, inl (pass-none r any x e ∙ p), q)
  pass-partial r any kept x (waiting h e pos k w) v =
      rw (e, pass) (pending_pass-partial r any h kept x k v)
