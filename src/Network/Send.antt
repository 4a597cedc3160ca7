-- ===== src/Network/Send.antt =====
-- The sending half of a connection: Send, FlushSend and OnSendCompleted of
-- Source/Core/Network/Connection.cpp, over the counter of Source/Core/Container/MPSC.h.
-- The actor's handlers run one at a time; between them the world hands the socket's completions
-- back. A node is a RawNode: its message id and its data.
pub mod Order
pub mod Completed
pub mod Lost
mod Tests
use server.Base.{
  ℕ, zero, suc, ◌+◌, ◌-◌, ◌%◌, ◌^◌, Bool, true, false, List, [], ◌∷◌, ◌++◌, Option, some, none,
  length, take, drop, ◌==◌, if◌then◌else◌,
}
use server.Network.Packet.{size_mod}
use server.Network.Stream.{
  OutputStream, Buffer, BufferView, next_buffer, advance_front, write_message,
}

-- `MPSCQueue`: the nodes, oldest first, and `_count`, a `size_t`.
pub record Queue (A : Type 0) : Type 0 where
  pub nodes : List A
  pub count : ℕ

module _ {A : Type 0} where
  pub push : A → Queue A → Queue A
  push a q = record q { nodes = q.nodes ++ (a ∷ []) }

  -- `fetch_sub` and `fetch_add`: the count before, and the queue.
  pub decrease_node_count : ℕ → Queue A → ℕ × Queue A
  decrease_node_count n q = (q.count, record q { count = (q.count + size_mod - n) % size_mod })

  increase_node_count : ℕ → Queue A → ℕ × Queue A
  increase_node_count n q = (q.count, record q { count = (q.count + n) % size_mod })

abbrev pub SendNode : Type 0
SendNode = ℕ × List ℕ

-- `in_flight` is the view given to `async_write` that has not completed; `wire` is all that has been
-- given to it, oldest first; `posted` counts the FlushSend messages posted to the actor and not run.
pub record Sender : Type 0 where
  pub queue : Queue SendNode
  pub stream : OutputStream
  pub is_sending : Bool
  pub in_flight : Option BufferView
  pub wire : List ℕ
  pub posted : ℕ
  pub open_socket : Bool

-- `Send`
pub send : SendNode → Sender → Sender
unfolding push increase_node_count
send node c =
    let (before, queue') = increase_node_count 1 (push node c.queue) in
    if before == 0
    then record c { queue = queue'; posted = c.posted + 1 }
    else record c { queue = queue' }

-- The bytes of a view of the front buffer.
pub front_bytes : List Buffer → BufferView → List ℕ
front_bytes [] v = []
front_bytes (b ∷ bs) v = take v.data_length (drop v.offset b.memory)

-- `SendImpl`
pub send_impl : BufferView → Sender → Sender
unfolding front_bytes
send_impl v c = record c { in_flight = some v; wire = c.wire ++ front_bytes c.stream.buffers v }

module _ (request : ℕ → List ℕ) where
  -- The loop of `FlushSend` over the nodes in the queue: `TryPop` takes the oldest node, and one off
  -- the count. `RawNode::SerializeTo` always returns true (`Stream.Writing`).
  pub drain : List SendNode → ℕ → OutputStream → Option (ℕ × OutputStream)
  drain [] count s = some (count, s)
  drain (node ∷ nodes) count s = elim (write_message request s node.0 node.1) [
    | none ↦ none
    | some s' ↦ drain nodes ((count + size_mod - 1) % size_mod) s'
  ]

  -- The end of `FlushSend`, and of `OnSendCompleted`: the next buffer, if one waits.
  pub send_next : Sender → Sender
  unfolding send_impl
  send_next c =
      let (v, s') = next_buffer c.stream in
      elim v [
        | some view ↦ send_impl view (record c { stream = s'; is_sending = true })
        | none ↦ record c { stream = s' }
      ]

  -- `FlushSend`. Every `TryPop` takes one off the count, and `DecreaseNodeCount` takes them all off
  -- again. `none` stands for a loop that does not end.
  pub flush_send : Sender → Option Sender
  unfolding drain decrease_node_count
  flush_send c = elim (drain c.queue.nodes c.queue.count c.stream) [
    | none ↦ none
    | some (count', s') ↦
        let popped =
          decrease_node_count (length c.queue.nodes) (record { nodes = []; count = count' }) in
        let c' = record c { queue = popped.1; stream = s' } in
        some (if c.is_sending then c' else send_next c')
  ]

  -- `OnSendCompleted`; `n` is `bytes_transferred`.
  pub on_send_completed : Bool → ℕ → Sender → Option Sender
  unfolding flush_send
  on_send_completed error n c =
      if error
      then some (record c { open_socket = false })
      else let s = record c.stream { buffers = advance_front n c.stream.buffers } in
        let (v, s') = next_buffer s in
        elim v [
          | some view ↦ some (send_impl view (record c { stream = s' }))
          | none ↦ flush_send (record c { stream = s'; is_sending = false; in_flight = none })
        ]
