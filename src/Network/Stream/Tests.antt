-- ===== src/Network/Stream/Tests.antt =====
-- Runs of the output stream over send buffers of four bytes.
use server.Base.{ℕ, ◌<◌, ◌≡◌, List, [], ◌∷◌, ◌++◌, length, some, arith}
use server.Network.Stream.{OutputStream, Buffer, header_bytes, write_message}
use server.Network.Stream.Buffers.{contents, IsStream}
use server.Network.Stream.Writing.{write_message-Appends}

-- A pool of fresh buffers.
abbrev four : ℕ → List ℕ
four n = 9 ∷ 9 ∷ 9 ∷ 9 ∷ []

four-pooled : (n : ℕ) → 0 < length (four n)
four-pooled n = omega arith

-- One buffer with two bytes sent and one waiting, and one that is empty.
abbrev waiting : Buffer
waiting = record { memory = 1 ∷ 2 ∷ 3 ∷ 9 ∷ []; start_pos = 2; end_pos = 3 }

abbrev sample : OutputStream
sample = record { bytes_count = 0; buffers = waiting ∷ []; requests = 1 }

sample-IsStream : IsStream sample.buffers
sample-IsStream = omega arith

write_message-Appends_example :
    (s' : OutputStream) × (write_message four sample 7 (5 ∷ 6 ∷ []) ≡ some s')
    × ((contents s'.buffers ≡ contents sample.buffers ++ (header_bytes 7 2 ++ 5 ∷ 6 ∷ []))
        × IsStream s'.buffers)
write_message-Appends_example =
    write_message-Appends four four-pooled sample 7 (5 ∷ 6 ∷ []) sample-IsStream
