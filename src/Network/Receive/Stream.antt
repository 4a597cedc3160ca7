-- ===== src/Network/Receive/Stream.antt =====
-- A connection over its whole life: the receptions of Connection::OnReceived against the stream
-- that they make up.
use server.Base.{
  ℕ, suc, ◌≤◌, ◌<◌, ◌≡◌, refl, sym, ap, subst, ◌∙◌, Bool, false, List, [], ◌∷◌, ◌++◌, Option, some,
  length, length-append, append-nil, append_assoc, append_split, arith, dec_lt, le→not-ltb,
  ne→not-==,
}
use server.Network.Packet.{PacketHeader, peek, header_size, Inbox, Serializer}
use server.Network.Receive.{Receiver, receive_impl, on_received, receive_stream, again}
use server.Network.Receive.Framing.{
  IsFrame, IsPartial, short, long, Delivers, rest, next, peek-append,
}
use server.Network.Receive.Passes.{Holds}
use server.Network.Receive.Refine.{receive_loop-Delivers, Holds-IsPartial, Delivers-partial}

-- A prefix of a partial frame, and of a frame, is a partial frame.
IsPartial-prefix : (xs ys : List ℕ) → IsPartial (xs ++ ys) → IsPartial xs
IsPartial-prefix xs ys w = elim (dec_lt (length xs) header_size) [
  | yes few ↦ short few
  | no many ↦ elim w [
    | short h ↦ absurd (omega (arith, length-append xs ys))
    | long h k m ↦
        let same : peek (xs ++ ys) ≡ peek xs = peek-append xs ys (omega arith) in
        long (omega arith) (omega (arith, length-append xs ys, ap PacketHeader.size same))
          (omega (arith, ap PacketHeader.size same))
  ]
]

pub IsFrame-prefix :
    (xs y f : List ℕ) → f ≡ xs ++ y → length xs < length f → IsFrame f → IsPartial xs
IsFrame-prefix xs y f e less v = elim (dec_lt (length xs) header_size) [
  | yes few ↦ short few
  | no many ↦
      let same : peek f ≡ peek xs = ap peek e ∙ peek-append xs y (omega arith) in
      long (omega arith) (omega (arith, v.sized, ap PacketHeader.size same))
        (omega (arith, v.sized, v.small, ap PacketHeader.size same))
]

-- Every reception is within the buffer, and none is empty.
abbrev AllFit : ℕ → List (List ℕ) → Type 0
AllFit n [] = Unit {0}
AllFit n (c ∷ cs) = (0 < length c) × (length c ≤ n) × AllFit n cs

abbrev concat : List (List ℕ) → List ℕ
concat [] = []
concat (c ∷ cs) = c ++ concat cs

module _ {P : Type 0} (z : Serializer P) where
  -- What a stream delivers can be taken in two parts, cut anywhere.
  Delivers-split :
      (xs ys : List ℕ) {bs left : List ℕ} {p q : Option (Inbox P)}
      → bs ≡ xs ++ ys
      → Delivers z p bs q left
      → (p' : Option (Inbox P)) × (l : List ℕ) × Delivers z p xs p' l
        × Delivers z p' (l ++ ys) q left
  Delivers-split xs ys {p = p} e (rest w) = (
    p,
    xs,
    rest (IsPartial-prefix xs ys (subst IsPartial e w)),
    subst (λ b. Delivers z p (xs ++ ys) p b) (sym e) (rest (subst IsPartial e w)),
  )
  Delivers-split xs ys {bs = bs} {left = left} {p = p} {q = q} e (next f others i v t d) =
      elim (dec_lt (length xs) (length f)) [
        | yes inside ↦
            let (y, fy, _) = append_split xs ys f others (sym i ∙ e) (omega arith) in
            (p, xs, rest (IsFrame-prefix xs y f fy inside v), next f others (sym e ∙ i) v t d)
        | no past ↦
            let (x, xe, oe) = append_split f others xs ys (sym e ∙ i) (omega arith) in
            let (p', l, front, back) = Delivers-split x ys oe d in
            (p', l, next f x xe v t front, back)
      ]

  pub on_received-Delivers :
      (n : ℕ) (r : Receiver P) (kept c : List ℕ) {left : List ℕ} {q : Option (Inbox P)}
      → 0 < length c
      → length c ≤ n
      → Holds r.pending kept
      → Delivers z r.protocol (kept ++ c) q left
      → (any : Bool) × (r' : Receiver P) × (on_received z n r false c ≡ some (again any r'))
        × Holds r'.pending left
        × (r'.protocol ≡ q)
  unfolding on_received receive_impl
  on_received-Delivers n r kept c pos fit h d =
      let (any, r', e, h', p) =
        receive_loop-Delivers z (suc (length c)) r false kept c (omega arith) h refl refl d in
      (any, r', rw (ne→not-== (length c) 0 (omega arith), le→not-ltb n (length c) fit, e), h', p)

  -- A connection holds the bytes `kept`, and these with a stream are frames, none of which has a size that
  -- wraps and each of which the protocol accepts when it has taken those in front of it, and then a part
  -- of a frame, `left`. However the stream is cut into receptions that are not empty and fit the buffer,
  -- the connection goes on to the end of it, its protocol has then taken the frames in order, and the
  -- connection holds `left`.
  pub receive_stream-Delivers :
      (n : ℕ) (r : Receiver P) (kept : List ℕ) (cs : List (List ℕ)) {left : List ℕ}
      {q : Option (Inbox P)}
      → AllFit n cs
      → Holds r.pending kept
      → Delivers z r.protocol (kept ++ concat cs) q left
      → (r' : Receiver P) × (receive_stream z n r cs ≡ some (again false r'))
        × Holds r'.pending left
        × (r'.protocol ≡ q)
  unfolding receive_stream
  receive_stream-Delivers n r kept [] {left = left} fit h d =
      let (p, l) =
        Delivers-partial z d (subst IsPartial (sym (append-nil kept)) (Holds-IsPartial h)) in
      (r, refl, subst (Holds r.pending) (sym (l ∙ append-nil kept)) h, sym p)
  receive_stream-Delivers n r kept (c ∷ cs) {left = left} {q = q} fit h d =
      let (p, l, front, back) =
        Delivers-split (kept ++ c) (concat cs) (sym (append_assoc kept c (concat cs))) d in
      let (any, r', e, h', p') = on_received-Delivers n r kept c fit.0 fit.1 h front in
      rw (e, receive_stream)
        (receive_stream-Delivers n r' l cs fit.2 h'
          (subst (λ o. Delivers z o (l ++ concat cs) q left) (sym p') back))
