-- ===== src/Network/Stream/Buffers.antt =====
-- The bytes that a list of buffers holds, and the shape that the output stream keeps.
use server.Base.{
  ℕ, ◌≤◌, ◌<◌, ◌≡◌, refl, ap, List, [], ◌∷◌, ◌++◌, some, length, take, drop, append_assoc,
}
use server.Network.Stream.{Buffer, back, update_back, get_byte_count}

-- The bytes of a buffer between its two positions.
abbrev pub slice : Buffer → List ℕ
slice b = take (get_byte_count b) (drop b.start_pos b.memory)

unfoldable pub contents : List Buffer → List ℕ
contents [] = []
contents (b ∷ bs) = slice b ++ contents bs

pub record IsSlice (b : Buffer) : Type 0 where
  pub ordered : b.start_pos ≤ b.end_pos
  pub inside : b.end_pos ≤ length b.memory
  pub room : 0 < length b.memory

-- Every buffer is in order, and every one but the last is full.
abbrev pub IsStream : List Buffer → Type 0
IsStream [] = Unit {0}
IsStream (b ∷ []) = IsSlice b
IsStream (b ∷ c ∷ bs) = IsSlice b × (b.end_pos ≡ length b.memory) × IsStream (c ∷ bs)

abbrev pub AllFull : List Buffer → Type 0
AllFull [] = Unit {0}
AllFull (b ∷ bs) = IsSlice b × (b.end_pos ≡ length b.memory) × AllFull bs

pub contents-append : (bs cs : List Buffer) → contents (bs ++ cs) ≡ contents bs ++ contents cs
unfolding contents
contents-append [] cs = refl
contents-append (b ∷ bs) cs = simp (contents-append bs cs, append_assoc)

pub back-append : (bs : List Buffer) (b : Buffer) → back (bs ++ b ∷ []) ≡ some b
unfolding back
back-append [] b = refl
back-append (c ∷ []) b = refl
back-append (c ∷ d ∷ bs) b = back-append (d ∷ bs) b

pub update_back-append :
    (f : Buffer → Buffer) (bs : List Buffer) (b : Buffer)
    → update_back f (bs ++ b ∷ []) ≡ bs ++ f b ∷ []
unfolding update_back
update_back-append f [] b = refl
update_back-append f (c ∷ []) b = refl
update_back-append f (c ∷ d ∷ bs) b = ap (◌∷◌ c) (update_back-append f (d ∷ bs) b)

pub IsStream-append :
    (bs : List Buffer) (b : Buffer) → AllFull bs → IsSlice b → IsStream (bs ++ b ∷ [])
IsStream-append [] b v w = w
IsStream-append (c ∷ []) b v w = (v.0, v.1, w)
IsStream-append (c ∷ d ∷ bs) b v w = (v.0, v.1, IsStream-append (d ∷ bs) b v.2 w)

-- A stream that is not empty: full buffers, and a last one.
pub IsStream-last :
    (c : Buffer) (cs : List Buffer)
    → IsStream (c ∷ cs)
    → (bs : List Buffer) × (b : Buffer) × (c ∷ cs ≡ bs ++ b ∷ []) × AllFull bs × IsSlice b
IsStream-last c [] v = ([], c, refl, tt, v)
IsStream-last c (d ∷ cs) v =
    let (bs, b, e, w, u) = IsStream-last d cs v.2 in (c ∷ bs, b, ap (◌∷◌ c) e, (v.0, v.1, w), u)

pub AllFull-append :
    (bs : List Buffer) (b : Buffer)
    → AllFull bs
    → IsSlice b
    → b.end_pos ≡ length b.memory
    → AllFull (bs ++ b ∷ [])
AllFull-append [] b v w e = (w, e, tt)
AllFull-append (c ∷ bs) b v w e = (v.0, v.1, AllFull-append bs b v.2 w e)
