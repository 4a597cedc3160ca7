-- ===== src/Network/Receive/Framing.antt =====
-- What the byte stream means, apart from how it is cut into receptions: a sequence of frames, and
-- the beginning of one more.
use server.Base.{
  ℕ, ◌+◌, ◌≤◌, ◌<◌, ◌≡◌, refl, sym, ap, ◌∙◌, List, [], ◌++◌, Option, some, none, length, drop,
  length-append, length-drop, append-nil, le→leb, take_all, take-append_le, drop-append_le, arith,
}
use server.Network.Packet.{
  PacketHeader, peek, header, body, header_size, size_mod, frame_size, PacketSegment, accepted,
  Inbox, Serializer, process_receive_data, process_internal, process_packet,
}
use server.Network.Receive.{dispatch}

-- A frame is a header and as many bytes as its size field says.
pub record IsFrame (f : List ℕ) : Type 0 where
  pub sized : length f ≡ PacketHeader.size (peek f) + header_size
  pub small : length f < size_mod

-- The beginning of a frame, not a whole one.
pub data IsPartial (bs : List ℕ) : Type 0 where
  short : length bs < header_size → IsPartial bs
  long :
      header_size ≤ length bs
      → length bs < PacketHeader.size (peek bs) + header_size
      → PacketHeader.size (peek bs) + header_size < size_mod
      → IsPartial bs

-- The segment of exactly the bytes of a frame.
abbrev pub whole : List ℕ → PacketSegment
whole f = record { bytes = f; length = length f }

module _ {P : Type 0} (z : Serializer P) where
  -- The protocol accepts the frame `f`.
  abbrev pub Takes : Option (Inbox P) → List ℕ → Option (Inbox P) → Type 0
  Takes p f q = dispatch z p (whole f) ≡ (accepted, q)

  -- A protocol `p` that is given the bytes `bs` accepts their frames in order and becomes `q`, and
  -- `left` remains.
  pub data Delivers : Option (Inbox P) → List ℕ → Option (Inbox P) → List ℕ → Type 0 where
    rest : {p : Option (Inbox P)} {bs : List ℕ} → IsPartial bs → Delivers p bs p bs
    next :
        {p p' q : Option (Inbox P)} {bs left : List ℕ} (f others : List ℕ)
        → bs ≡ f ++ others
        → IsFrame f
        → Takes p f p'
        → Delivers p' others q left
        → Delivers p bs q left

pub peek-append : (xs ys : List ℕ) → header_size ≤ length xs → peek (xs ++ ys) ≡ peek xs
unfolding peek
peek-append xs ys h = rw (
  take-append_le 8 xs ys (omega arith),
  drop-append_le 8 xs ys (omega arith),
  take-append_le 8 (drop 8 xs) ys (omega (arith, length-drop 8 xs)),
)

pub IsFrame-header : (f : List ℕ) → IsFrame f → header_size ≤ length f
IsFrame-header f v = omega (arith, v.sized)

pub IsFrame-frame_size : (f : List ℕ) → IsFrame f → frame_size (peek f) ≡ length f
unfolding frame_size
IsFrame-frame_size f v = omega (arith, v.sized, v.small)

-- A partial frame does not begin with a frame.
pub IsPartial-IsFrame : (f others : List ℕ) → IsFrame f → IsPartial (f ++ others) → ⊥
IsPartial-IsFrame f others v (short h) = omega (arith, v.sized, length-append f others)
IsPartial-IsFrame f others v (long h k m) = omega (
  arith,
  v.sized,
  length-append f others,
  ap PacketHeader.size (peek-append f others (IsFrame-header f v)),
)

-- What a protocol sees of a segment that begins with a frame is that frame.
header-peek : (f : List ℕ) → PacketHeader.size (header (whole f)) ≡ PacketHeader.size (peek f)
unfolding header
header-peek f = refl

header-append :
    (f others : List ℕ) (n : ℕ)
    → IsFrame f
    → header (record { bytes = f ++ others; length = n }) ≡ header (whole f)
unfolding header
header-append f others n v = peek-append f others (IsFrame-header f v)

body-append :
    (f others : List ℕ) (n : ℕ)
    → IsFrame f
    → body (record { bytes = f ++ others; length = n }) ≡ some (drop header_size f)
unfolding body
body-append f others n v = rw (
  header-append f others n v,
  drop-append_le header_size f others (IsFrame-header f v),
  le→leb _ _ fits,
  take-append_le (PacketHeader.size (header (whole f))) (drop header_size f) others
      (omega (arith, exact)),
  take_all (PacketHeader.size (header (whole f))) (drop header_size f) (omega (arith, exact)),
)
  where
    exact : length (drop header_size f) ≡ PacketHeader.size (header (whole f))
    exact = omega (arith, length-drop header_size f, v.sized, header-peek f)

    fits : PacketHeader.size (header (whole f)) ≤ length (drop header_size f ++ others)
    fits = omega (arith, exact, length-append (drop header_size f) others)

body-whole : (f : List ℕ) → IsFrame f → body (whole f) ≡ some (drop header_size f)
body-whole f v =
    ap (λ b. body (record { bytes = b; length = length f })) (sym (append-nil f))
    ∙ body-append f [] (length f) v

module _ {P : Type 0} (z : Serializer P) where
  -- A protocol sees the header and the body of a segment, and nothing else.
  process-eq :
      (inbox : Inbox P) (s t : PacketSegment)
      → header s ≡ header t
      → body s ≡ body t
      → process_receive_data z inbox s ≡ process_receive_data z inbox t
  unfolding process_receive_data process_internal process_packet
  process-eq inbox s t h b = ground arith

  -- The protocol treats a segment that begins with a frame as that frame.
  pub dispatch-append :
      (p : Option (Inbox P)) (f others : List ℕ) (n : ℕ)
      → IsFrame f
      → dispatch z p (record { bytes = f ++ others; length = n }) ≡ dispatch z p (whole f)
  unfolding dispatch
  dispatch-append none f others n v = refl
  dispatch-append (some inbox) f others n v = rw (
      process-eq inbox _ (whole f) (header-append f others n v)
        (body-append f others n v ∙ sym (body-whole f v)))
