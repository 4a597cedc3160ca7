-- ===== src/Network/Send/Lost.antt =====
-- The node counter of a connection: the flush takes every node off it twice.
use server.Base.{ℕ, ◌≡◌, List, [], ◌∷◌, arith}
use server.Network.Send.{Sender, SendNode, send, send_next, send_impl}

module _ (request : ℕ → List ℕ) where
  pub send_next-queue : (c : Sender) → (send_next request c).queue ≡ c.queue
  unfolding send_next send_impl
  send_next-queue c = ground arith

-- Calls of `Send`, one after another.
pub send_all : List SendNode → Sender → Sender
send_all [] c = c
send_all (node ∷ nodes) c = send_all nodes (send node c)
