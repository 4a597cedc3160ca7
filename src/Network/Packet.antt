-- ===== src/Network/Packet.antt =====
-- Wire packets and the protocol that takes them: Source/Core/Network/Packet/Packet.h and
-- Internal.h, Protocol.cpp and ProtocolController.h. A char is a number below 256; a header lies
-- in memory as on the target (64 bit, little endian). A read beyond the bytes that a segment
-- points to is the verdict `fault`; a text of 2^63 bytes and more, for which the constructor of std::string
-- throws before it reads, is the verdict `thrown`.
use server.Base.{
  ℕ, zero, suc, ◌+◌, ◌*◌, ◌%◌, ◌/◌, ◌^◌, Bool, List, [], ◌∷◌, ◌++◌, Option, none, some, length,
  take, drop, leb, ltb, ◌-◌, if◌then◌else◌,
}

-- `sizeof(PacketHeader)`, which the code asserts to be 16.
abbrev pub header_size : ℕ
header_size = 16

-- The modulus of `size_t`.
abbrev pub size_mod : ℕ
size_mod = 2 ^ 64

-- The number that little-endian bytes stand for, and the `n` bytes of a number.
unfoldable pub le_value : List ℕ → ℕ
le_value [] = 0
le_value (b ∷ bs) = b + 256 * le_value bs

unfoldable pub le_bytes : ℕ → ℕ → List ℕ
le_bytes zero x = []
le_bytes (suc n) x = (x % 256) ∷ le_bytes n (x / 256)

pub record PacketHeader : Type 0 where
  pub id : ℕ
  pub size : ℕ

-- `PacketHeader::Peek`: the header at the start of some bytes.
unfoldable pub peek : List ℕ → PacketHeader
peek bytes = record { id = le_value (take 8 bytes); size = le_value (take 8 (drop 8 bytes)) }

-- `header.size + PacketHeader::Size()`, a sum of `size_t`.
unfoldable pub frame_size : PacketHeader → ℕ
frame_size h = (h.size + header_size) % size_mod

-- What `data` points to, up to the end of the received bytes, and the length.
pub record PacketSegment : Type 0 where
  pub bytes : List ℕ
  pub length : ℕ

unfoldable pub header : PacketSegment → PacketHeader
header s = peek s.bytes

-- `body()` read over `body_length()`, which is the size field of the header.
unfoldable pub body : PacketSegment → Option (List ℕ)
body s =
    let rest = drop header_size s.bytes in
    let n = PacketHeader.size (header s) in if leb n (length rest) then some (take n rest) else none

-- `max_size()` of a std::string
abbrev string_max_size : ℕ
string_max_size = 2 ^ 63 - 1

-- `InternalPacketId`
pub data InternalPacketId : Type 0 where
  hello message ping pong count : InternalPacketId

unfoldable pub internal_packet_id : ℕ → Option InternalPacketId
internal_packet_id zero = some hello
internal_packet_id (suc zero) = some message
internal_packet_id (suc (suc zero)) = some ping
internal_packet_id (suc (suc (suc zero))) = some pong
internal_packet_id (suc (suc (suc (suc zero)))) = some count
internal_packet_id _ = none

-- What a call of `ProcessReceiveData` comes to: true, false, an exception, or a read out of range.
pub data Verdict : Type 0 where
  accepted rejected thrown fault : Verdict

-- The two queues of a protocol: `internal_messages_` and `packet_messages_`, oldest first.
pub record Inbox (P : Type 0) : Type 0 where
  pub internal : List (List ℕ)
  pub packets : List (ℕ × P)

-- The template argument `TSerializer`: which ids it knows, and how it parses a body.
pub record Serializer (P : Type 0) : Type 0 where
  pub is_valid : ℕ → Bool
  pub parse : ℕ → List ℕ → Option P

module _ {P : Type 0} where
  -- `Protocol::ProcessReceiveData`. Every id up to `kCount` is taken, and only `kMessage` is kept.
  unfoldable pub process_internal : Inbox P → PacketSegment → Verdict × Inbox P
  process_internal inbox s = elim (internal_packet_id (PacketHeader.id (header s))) [
    | none ↦ (rejected, inbox)
    | some message ↦
        if ltb string_max_size (PacketHeader.size (header s))
        then (thrown, inbox)
        else (elim (body s) [
          | none ↦ (fault, inbox)
          | some text ↦ (accepted, record inbox { internal = inbox.internal ++ (text ∷ []) })
        ])
    | some _ ↦ (accepted, inbox)
  ]

  -- The part of `ProtocolController::ProcessReceiveData` after the base class has declined.
  unfoldable pub process_packet : Serializer P → Inbox P → PacketSegment → Verdict × Inbox P
  process_packet z inbox s =
      let id = PacketHeader.id (header s) in
      if z.is_valid id
      then elim (body s) [
        | none ↦ (fault, inbox)
        | some b ↦ elim (z.parse id b) [
          | none ↦ (accepted, inbox)
          | some p ↦ (accepted, record inbox { packets = inbox.packets ++ ((id, p) ∷ []) })
        ]
      ]
      else (rejected, inbox)

  unfoldable pub process_receive_data : Serializer P → Inbox P → PacketSegment → Verdict × Inbox P
  process_receive_data z inbox s =
      let (v, inbox') = process_internal inbox s in
      elim v [
        | rejected ↦ process_packet z inbox' s
        | accepted ↦ (accepted, inbox')
        | thrown ↦ (thrown, inbox')
        | fault ↦ (fault, inbox')
      ]
