-- ===== src/Network/Stream.antt =====
-- The bytes that wait to be sent: Buffer.h, OutputStream.cpp and StreamWriter.cpp of
-- Source/Core/Network. `RequestSendBuffer` is a parameter: the memory that its n-th call hands out,
-- with whatever an earlier use left there. Sizes stay below 2^31, so the casts to int keep them.
pub mod Buffers
pub mod Writing
pub mod Front
mod Tests
use server.Base.{
  ℕ, zero, suc, ◌+◌, ◌-◌, Bool, true, false, ◌&&◌, ◌||◌, List, [], ◌∷◌, ◌++◌, Option, some, none,
  length, take, drop, min, ltb, leb, ◌==◌, if◌then◌else◌,
}
use server.Network.Packet.{le_bytes}

-- `Buffer`, over the memory of its `BufferMemory`.
pub record Buffer : Type 0 where
  pub memory : List ℕ
  pub start_pos : ℕ
  pub end_pos : ℕ

-- `start_pos <= end_pos <= size` holds throughout (`Stream.Buffers`), so that no subtraction wraps.
abbrev pub get_byte_count : Buffer → ℕ
get_byte_count b = b.end_pos - b.start_pos

abbrev pub get_remaining_byte_count : Buffer → ℕ
get_remaining_byte_count b = length b.memory - b.end_pos

-- `memcpy` to an offset of the memory.
abbrev pub copy_to : List ℕ → ℕ → List ℕ → List ℕ
copy_to memory at bytes = take at memory ++ (bytes ++ drop (at + length bytes) memory)

-- `buffers_.back()`, and a change of it.
pub back : List Buffer → Option Buffer
back [] = none
back (b ∷ []) = some b
back (b ∷ c ∷ bs) = back (c ∷ bs)

pub update_back : (Buffer → Buffer) → List Buffer → List Buffer
update_back f [] = []
update_back f (b ∷ []) = f b ∷ []
update_back f (b ∷ c ∷ bs) = b ∷ update_back f (c ∷ bs)

-- `requests` counts the calls of `RequestSendBuffer`.
pub record OutputStream : Type 0 where
  pub bytes_count : ℕ
  pub buffers : List Buffer
  pub requests : ℕ

-- `BufferView`: the offset and length in the buffer at the front.
pub record BufferView : Type 0 where
  pub offset : ℕ
  pub data_length : ℕ

-- The front buffers that are used up and sent.
pub skip_sent : List Buffer → List Buffer
skip_sent [] = []
skip_sent (b ∷ bs) =
    let rest = skip_sent bs in
    if (get_byte_count b == 0) && (get_remaining_byte_count b == 0) then rest else b ∷ bs

pub view_front : List Buffer → Option BufferView
view_front [] = none
view_front (b ∷ bs) =
    if get_byte_count b == 0
    then none
    else some (record { offset = b.start_pos; data_length = get_byte_count b })

-- `NextBuffer`
pub next_buffer : OutputStream → Option BufferView × OutputStream
next_buffer s = let bs = skip_sent s.buffers in (view_front bs, record s { buffers = bs })

-- `BackUp`; the failed assertion leaves the stream as it is.
pub back_up : ℕ → OutputStream → OutputStream
back_up count s = elim (back s.buffers) [
  | none ↦ s
  | some b ↦ if ltb (get_byte_count b) count then s else record s {
    buffers = update_back (λ b'. record b' { end_pos = b'.end_pos - count }) s.buffers;
  }
]

-- `buffer->set_start_pos(buffer->start_pos() + n)`, on the buffer of the view that was sent, which is
-- still at the front.
pub advance_front : ℕ → List Buffer → List Buffer
advance_front n [] = []
advance_front n (b ∷ bs) = record b { start_pos = b.start_pos + n } ∷ bs

pub clear : OutputStream → OutputStream
clear s = record s { buffers = [] }

-- The bytes of `PacketHeader{ .id = message_id, .size = size }`.
abbrev pub header_bytes : ℕ → ℕ → List ℕ
header_bytes id size = le_bytes 8 id ++ le_bytes 8 size

module _ (request : ℕ → List ℕ) where
  abbrev pub requested : ℕ → Buffer
  requested n = record { memory = request n; start_pos = 0; end_pos = 0 }

  -- The buffer that `Next` makes room in: a new one, unless the last has room.
  pub make_room : OutputStream → OutputStream
  make_room s = elim (back s.buffers) [
    | none ↦ grown
    | some b ↦ if get_remaining_byte_count b == 0 then grown else s
  ]
    where
      grown : OutputStream
      grown = record s {
        buffers = s.buffers ++ (requested s.requests ∷ []);
        requests = s.requests + 1;
      }

  -- `Next`: the offset and the size of the room, which is taken as used.
  pub next_room : OutputStream → (ℕ × ℕ) × OutputStream
  next_room s =
      let s' = make_room s in
      elim (back s'.buffers) [
        | none ↦ ((0, 0), s')
        | some b ↦ (
          (b.end_pos, get_remaining_byte_count b),
          record s' {
            buffers =
                update_back (λ b'. record b' { end_pos = b'.end_pos + get_remaining_byte_count b' })
                  s'.buffers;
          },
        )
      ]

  -- A pass of the loop of `WriteRaw`: how many bytes it writes, and the stream.
  pub write_pass : OutputStream → List ℕ → ℕ × OutputStream
  unfolding next_room back_up
  write_pass s bytes =
      let (room, s') = next_room s in
      let write_size = min room.1 (length bytes) in
      let s'' = record s' {
        buffers =
            update_back (λ b. record b { memory = copy_to b.memory room.0 (take write_size bytes) })
              s'.buffers;
        bytes_count = s'.bytes_count + write_size;
      } in
      let remain_size = room.1 - write_size in
      (write_size, if remain_size == 0 then s'' else back_up remain_size s'')

  -- `while (size > 0)`, over the bytes not written. `none` means that the fuel ran out.
  pub write_loop : ℕ → OutputStream → List ℕ → Option OutputStream
  unfolding write_pass
  write_loop zero s bytes = none
  write_loop (suc fuel) s [] = some s
  write_loop (suc fuel) s (b ∷ bytes) =
      let (n, s') = write_pass s (b ∷ bytes) in write_loop fuel s' (drop n (b ∷ bytes))

  -- `WriteRaw`. A pass writes a byte, so this fuel is enough.
  pub write_raw : OutputStream → List ℕ → Option OutputStream
  unfolding write_loop
  write_raw s bytes = write_loop (suc (length bytes)) (record s { bytes_count = 0 }) bytes

  -- `StreamWriter::WriteMessage`, which is `RawNode::SerializeTo`.
  pub write_message : OutputStream → ℕ → List ℕ → Option OutputStream
  write_message s id bytes = elim (write_raw s (header_bytes id (length bytes))) [
    | none ↦ none
    | some s' ↦ if length bytes == 0 then some s' else write_raw s' bytes
  ]
