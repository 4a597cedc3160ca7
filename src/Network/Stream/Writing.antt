-- ===== src/Network/Stream/Writing.antt =====
-- OutputStream::WriteRaw and StreamWriter::WriteMessage: what is written is appended to the stream.
use server.Base.{
  ℕ, zero, suc, ◌+◌, ◌-◌, ◌≤◌, ◌<◌, ◌≡◌, refl, sym, ap, ◌∙◌, List, [], ◌∷◌, ◌++◌, some, none,
  length, take, drop, min, append_assoc, append-nil, arith, length-append, length-take, length-drop,
  drop-append_le, take-append_exact, drop-take, take-append-drop, dec_lt, ne→not-==,
}
use server.Network.Stream.{
  Buffer, OutputStream, back, get_remaining_byte_count, copy_to, make_room, next_room, write_pass,
  write_loop, write_raw, write_message, header_bytes, back_up, requested,
}
use server.Network.Stream.Buffers.{
  slice, contents, IsSlice, IsStream, AllFull, contents-append, back-append, update_back-append,
  IsStream-append, IsStream-last, AllFull-append,
}

-- The last buffer after a pass that writes `x` at its end.
abbrev written : Buffer → List ℕ → Buffer
written b x = record b { memory = copy_to b.memory b.end_pos x; end_pos = b.end_pos + length x }

length-copy_to :
    (m : List ℕ) (at : ℕ) (x : List ℕ)
    → at + length x ≤ length m
    → length (copy_to m at x) ≡ length m
length-copy_to m at x h = omega (
  arith,
  length-append (take at m) (x ++ drop (at + length x) m),
  length-append x (drop (at + length x) m),
  length-take at m,
  length-drop (at + length x) m,
)

written-IsSlice :
    (b : Buffer) (x : List ℕ)
    → IsSlice b
    → b.end_pos + length x ≤ length b.memory
    → IsSlice (written b x)
written-IsSlice b x v h = omega (arith, length-copy_to b.memory b.end_pos x h, v.ordered, v.room)

slice-written :
    (b : Buffer) (x : List ℕ)
    → IsSlice b
    → b.end_pos + length x ≤ length b.memory
    → slice (written b x) ≡ slice b ++ x
slice-written b x v h =
    ap (take (b.end_pos + length x - b.start_pos)) (
      drop-append_le b.start_pos (take b.end_pos b.memory) (x ++ after)
        (omega (arith, length-take b.end_pos b.memory, v.ordered, v.inside))
      ∙ sym (append_assoc old x after))
    ∙ take-append_exact (b.end_pos + length x - b.start_pos) (old ++ x) after (
        omega (
          arith,
          length-append old x,
          length-drop b.start_pos (take b.end_pos b.memory),
          length-take b.end_pos b.memory,
          v.ordered,
          v.inside,
        ))
    ∙ ap (λ o. o ++ x) (drop-take b.start_pos b.end_pos b.memory)
  where
    after : List ℕ
    after = drop (b.end_pos + length x) b.memory

    old : List ℕ
    old = drop b.start_pos (take b.end_pos b.memory)

back-nil : back [] ≡ none
unfolding back
back-nil = refl

-- The stream with room at its end: full buffers, and a last one that is not.
data HasRoom (s : OutputStream) : Type 0 where
  room :
      (bs : List Buffer) (b : Buffer)
      → s.buffers ≡ bs ++ b ∷ []
      → AllFull bs
      → IsSlice b
      → b.end_pos < length b.memory
      → HasRoom s

module _ (request : ℕ → List ℕ) (pooled : (n : ℕ) → 0 < length (request n)) where
  requested-IsSlice : (n : ℕ) → IsSlice (requested request n)
  requested-IsSlice n = omega (arith, pooled n)

  abbrev grown : OutputStream → OutputStream
  grown s = record s {
    buffers = s.buffers ++ (requested request s.requests ∷ []);
    requests = s.requests + 1;
  }

  -- A new buffer at the end of full ones.
  grown-HasRoom :
      (s : OutputStream) (n : ℕ) (bs : List Buffer)
      → s.buffers ≡ bs ++ requested request n ∷ []
      → AllFull bs
      → HasRoom s
  grown-HasRoom s n bs e v = room bs (requested request n) e v (requested-IsSlice n) (pooled n)

  make_room-HasRoom :
      (s : OutputStream) (l : List Buffer)
      → s.buffers ≡ l
      → IsStream l
      → HasRoom (make_room request s) × (contents (make_room request s).buffers ≡ contents l)
  unfolding make_room contents
  make_room-HasRoom s [] e v =
      let same : make_room request s ≡ grown s = ground (arith, back-nil, ap back e) in
      rw same (
        grown-HasRoom (grown s) s.requests [] (ap (λ q. q ++ requested request s.requests ∷ []) e)
            tt,
        contents-append s.buffers (requested request s.requests ∷ [])
            ∙ append-nil (contents s.buffers)
            ∙ ap contents e,
      )
  make_room-HasRoom s (c ∷ cs) e v =
      let (bs, b, l, w, u) = IsStream-last c cs v in
      elim (dec_lt b.end_pos (length b.memory)) [
        | yes some_room ↦
            let same : make_room request s ≡ s =
              ground (arith, back-append bs b, ap back (e ∙ l)) in
            rw same (room bs b (e ∙ l) w u some_room, ap contents e)
        | no full ↦
            let same : make_room request s ≡ grown s =
              ground (arith, back-append bs b, ap back (e ∙ l)) in
            rw same (
              grown-HasRoom (grown s) s.requests (bs ++ b ∷ [])
                  (ap (λ q. q ++ requested request s.requests ∷ []) (e ∙ l))
                  (AllFull-append bs b w u (omega arith)),
              contents-append s.buffers (requested request s.requests ∷ [])
                  ∙ append-nil (contents s.buffers)
                  ∙ ap contents e,
            )
      ]

  write_pass-eq :
      (s : OutputStream) (bytes : List ℕ) (bs : List Buffer) (b : Buffer)
      → (make_room request s).buffers ≡ bs ++ b ∷ []
      → IsSlice b
      → let w = min (get_remaining_byte_count b) (length bytes) in
        write_pass request s bytes ≡ (
          w,
          record (make_room request s) {
            bytes_count = (make_room request s).bytes_count + w;
            buffers = bs ++ written b (take w bytes) ∷ [];
          },
        )
  unfolding write_pass next_room back_up
  write_pass-eq s bytes bs b e v =
      let w = min (get_remaining_byte_count b) (length bytes) in
      let full = record b { end_pos = b.end_pos + get_remaining_byte_count b } in
      let copied = record full { memory = copy_to b.memory b.end_pos (take w bytes) } in
      ground (
        arith,
        back-append bs b,
        update_back-append (λ c. record c { end_pos = c.end_pos + get_remaining_byte_count c }) bs
            b,
        update_back-append (λ c. record c { memory = copy_to c.memory b.end_pos (take w bytes) }) bs
            full,
        back-append bs copied,
        update_back-append
            (λ c. record c { end_pos = c.end_pos - (get_remaining_byte_count b - w) }) bs copied,
        length-take w bytes,
      )

  -- What a stream holds, and its shape, against a stream and bytes appended to it.
  abbrev Appends : OutputStream → List ℕ → OutputStream → Type 0
  Appends s bytes s' = (contents s'.buffers ≡ contents s.buffers ++ bytes) × IsStream s'.buffers

  write_pass-Appends :
      (s : OutputStream) (bytes : List ℕ)
      → IsStream s.buffers
      → 0 < length bytes
      → let (n, s') = write_pass request s bytes in
        (0 < n) × (n ≤ length bytes) × Appends s (take n bytes) s'
  unfolding contents
  write_pass-Appends s bytes v pos =
      let (fits_in, same) = make_room-HasRoom s s.buffers refl v in
      elim fits_in [
        | room bs b e w u more ↦
            let n = min (get_remaining_byte_count b) (length bytes) in
            let fits : b.end_pos + length (take n bytes) ≤ length b.memory =
              omega (arith, length-take n bytes) in
            rw (write_pass-eq s bytes bs b e u) (
              omega arith,
              omega arith,
              (
                contents-append bs (written b (take n bytes) ∷ [])
                    ∙ ap (◌++◌ (contents bs)) (
                        append-nil (slice (written b (take n bytes)))
                        ∙ slice-written b (take n bytes) u fits)
                    ∙ sym (append_assoc (contents bs) (slice b) (take n bytes))
                    ∙ ap (λ q. q ++ take n bytes)
                        (ap (◌++◌ (contents bs)) (sym (append-nil (slice b)))
                          ∙ sym (contents-append bs (b ∷ []))
                          ∙ ap contents (sym e)
                          ∙ same),
                IsStream-append bs (written b (take n bytes)) w
                    (written-IsSlice b (take n bytes) u fits),
              ),
            )
      ]

  write_loop-Appends :
      (fuel : ℕ) (s : OutputStream) (bytes : List ℕ)
      → length bytes < fuel
      → IsStream s.buffers
      → (s' : OutputStream) × (write_loop request fuel s bytes ≡ some s') × Appends s bytes s'
  unfolding write_loop
  write_loop-Appends zero s bytes few v = absurd (omega arith)
  write_loop-Appends (suc fuel) s [] few v = (s, refl, (sym (append-nil (contents s.buffers)), v))
  write_loop-Appends (suc fuel) s (b ∷ bytes) few v =
      let (pos, le, ew) = write_pass-Appends s (b ∷ bytes) v (omega arith) in
      let (e, w) = ew in
      let n = (write_pass request s (b ∷ bytes)).0 in
      let (s', o, ew') =
        write_loop-Appends fuel (write_pass request s (b ∷ bytes)).1 (drop n (b ∷ bytes))
          (omega (arith, length-drop n (b ∷ bytes))) w in
      let (e', w') = ew' in
      (
        s',
        o,
        (
          e'
              ∙ ap (λ q. q ++ drop n (b ∷ bytes)) e
              ∙ append_assoc (contents s.buffers) (take n (b ∷ bytes)) (drop n (b ∷ bytes))
              ∙ ap (◌++◌ (contents s.buffers)) (take-append-drop n (b ∷ bytes)),
          w',
        ),
      )

  -- `WriteRaw` returns, and appends its bytes to those that wait to be sent.
  write_raw-Appends :
      (s : OutputStream) (bytes : List ℕ)
      → IsStream s.buffers
      → (s' : OutputStream) × (write_raw request s bytes ≡ some s') × Appends s bytes s'
  unfolding write_raw
  write_raw-Appends s bytes v =
      write_loop-Appends (suc (length bytes)) (record s { bytes_count = 0 }) bytes (omega arith) v

  -- `WriteMessage` returns, and appends the header of the message and its bytes.
  pub write_message-Appends :
      (s : OutputStream) (id : ℕ) (bytes : List ℕ)
      → IsStream s.buffers
      → (s' : OutputStream) × (write_message request s id bytes ≡ some s')
        × Appends s (header_bytes id (length bytes) ++ bytes) s'
  unfolding write_message
  write_message-Appends s id [] v =
      let (s', e, cw) = write_raw-Appends s (header_bytes id 0) v in
      let (c, w) = cw in
      (
        s',
        rw (e, write_message),
        (c ∙ ap (◌++◌ (contents s.buffers)) (sym (append-nil (header_bytes id 0))), w),
      )
  write_message-Appends s id (b ∷ bytes) v =
      let (s', e, cw) = write_raw-Appends s (header_bytes id (length (b ∷ bytes))) v in
      let (c, w) = cw in
      let (s'', e', cw') = write_raw-Appends s' (b ∷ bytes) w in
      let (c', w') = cw' in
      (
        s'',
        rw (e, write_message) (rw (ne→not-== (length (b ∷ bytes)) 0 (omega arith)) e'),
        (
          c'
              ∙ ap (λ q. q ++ b ∷ bytes) c
              ∙ append_assoc (contents s.buffers) (header_bytes id (length (b ∷ bytes)))
                  (b ∷ bytes),
          w',
        ),
      )
