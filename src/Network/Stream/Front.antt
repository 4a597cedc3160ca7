-- ===== src/Network/Stream/Front.antt =====
-- OutputStream::NextBuffer: what is sent is taken from the front of the stream.
use server.Base.{
  ℕ, ◌+◌, ◌-◌, ◌≤◌, ◌<◌, ◌≡◌, refl, sym, ap, ap₂, ◌∙◌, List, [], ◌∷◌, ◌++◌, some, none, take, drop,
  arith, Bool-cases, inl, inr, drop-drop, take-append-take, append_assoc, ◌==◌, ◌&&◌, true, false,
  ◌⊎◌,
}
use server.Network.Stream.{
  Buffer, OutputStream, skip_sent, view_front, next_buffer, advance_front, get_byte_count,
  get_remaining_byte_count,
}
use server.Network.Stream.Buffers.{slice, contents, IsSlice, IsStream}

pub IsStream-tail : (b : Buffer) (bs : List Buffer) → IsStream (b ∷ bs) → IsSlice b × IsStream bs
IsStream-tail b [] v = (v, tt)
IsStream-tail b (c ∷ bs) v = (v.0, v.2)

skip_sent-IsStream : (bs : List Buffer) → IsStream bs → IsStream (skip_sent bs)
unfolding skip_sent
skip_sent-IsStream [] v = tt
skip_sent-IsStream (b ∷ bs) v =
    elim (Bool-cases ((get_byte_count b == 0) && (get_remaining_byte_count b == 0))) [
      | inl e ↦ rw e (skip_sent-IsStream bs (IsStream-tail b bs v).1)
      | inr e ↦ rw e v
    ]

both_zero : (a c : ℕ) → ((a == 0) && (c == 0)) ≡ true → a ≡ 0
both_zero a c e = ground arith

contents-skip_sent : (bs : List Buffer) → contents (skip_sent bs) ≡ contents bs
unfolding skip_sent contents
contents-skip_sent [] = refl
contents-skip_sent (b ∷ bs) =
    elim (Bool-cases ((get_byte_count b == 0) && (get_remaining_byte_count b == 0))) [
      | inl e ↦ rw e (
          contents-skip_sent bs
          ∙ ap (λ n. take n (drop b.start_pos b.memory) ++ contents bs) (sym (both_zero _ _ e)))
      | inr e ↦ rw e
    ]

-- What `NextBuffer` finds at the front: nothing, if no byte waits; or a view of bytes that do.
abbrev Fronts : List Buffer → Type 0
Fronts l =
    ((view_front l ≡ none) × (contents l ≡ []))
    ⊎ ((b : Buffer) × (bs : List Buffer) × (l ≡ b ∷ bs)
        × (view_front l ≡ some (record { offset = b.start_pos; data_length = get_byte_count b }))
        × (0 < get_byte_count b))

front_of :
    (b : Buffer) (bs : List Buffer)
    → IsStream (b ∷ bs)
    → ((get_byte_count b == 0) && (get_remaining_byte_count b == 0)) ≡ false
    → Fronts (b ∷ bs)
unfolding view_front contents
front_of b [] v e = elim (Bool-cases (get_byte_count b == 0)) [
  | inl z ↦ inl (
    rw z,
    ap (λ n. take n (drop b.start_pos b.memory) ++ []) {x = get_byte_count b} {y = 0}
        (ground arith),
  )
  | inr z ↦ inr (b, [], refl, rw z, ground arith)
]
front_of b (c ∷ bs) v e = inr (b, c ∷ bs, refl, ground (arith, v.1), ground (arith, v.1))

skip_sent-Fronts : (bs : List Buffer) → IsStream bs → Fronts (skip_sent bs)
unfolding skip_sent view_front contents
skip_sent-Fronts [] v = inl (refl, refl)
skip_sent-Fronts (b ∷ bs) v =
    elim (Bool-cases ((get_byte_count b == 0) && (get_remaining_byte_count b == 0))) [
      | inl e ↦ rw e (skip_sent-Fronts bs (IsStream-tail b bs v).1)
      | inr e ↦ rw e (front_of b bs v e)
    ]

-- `NextBuffer` keeps the bytes that wait and their order; it returns no buffer only if no byte waits.
pub next_buffer-Fronts :
    (s : OutputStream)
    → IsStream s.buffers
    → let (v, s') = next_buffer s in
      (contents s'.buffers ≡ contents s.buffers)
      × IsStream s'.buffers
      × Fronts s'.buffers
      × (v ≡ view_front s'.buffers)
unfolding next_buffer
next_buffer-Fronts s v = (
  contents-skip_sent s.buffers,
  skip_sent-IsStream s.buffers v,
  skip_sent-Fronts s.buffers v,
  refl,
)

-- The bytes of a view at the front, and those behind them.
pub advance_front-contents :
    (b : Buffer) (bs : List Buffer) (n : ℕ)
    → IsStream (b ∷ bs)
    → n ≤ get_byte_count b
    → (take n (drop b.start_pos b.memory) ++ contents (advance_front n (b ∷ bs))
        ≡ contents (b ∷ bs))
      × IsStream (advance_front n (b ∷ bs))
unfolding advance_front contents
advance_front-contents b bs n v h = (
  sym (
        append_assoc (take n (drop b.start_pos b.memory))
          (slice (record b { start_pos = b.start_pos + n })) (contents bs))
      ∙ ap (λ q. q ++ contents bs) joined,
  advanced bs v,
)
  where
    shorter : b.end_pos - (b.start_pos + n) ≡ get_byte_count b - n
    shorter = omega arith

    joined :
        take n (drop b.start_pos b.memory) ++ slice (record b { start_pos = b.start_pos + n })
        ≡ slice b
    joined =
        ap₂ (λ k m. take n (drop b.start_pos b.memory) ++ take k m) shorter
          (sym (drop-drop b.start_pos n b.memory))
        ∙ take-append-take n (get_byte_count b) (drop b.start_pos b.memory) h

    advanced :
        (cs : List Buffer)
        → IsStream (b ∷ cs)
        → IsStream (record b { start_pos = b.start_pos + n } ∷ cs)
    advanced [] w = omega (arith, w.ordered, w.inside, w.room)
    advanced (c ∷ cs) w = (omega (arith, w.0.ordered, w.0.inside, w.0.room), w.1, w.2)
