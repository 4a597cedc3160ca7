-- ===== src/Network/Receive/Refine.antt =====
-- Connection::ReceiveImpl against the meaning of the stream: however the stream is cut, the
-- protocol gets its frames, once each and in order.
use server.Base.{
  ℕ, zero, suc, ◌<◌, ◌≡◌, refl, sym, ap, subst, ◌∙◌, Bool, true, List, [], ◌∷◌, ◌++◌, Option, some,
  none, length, length-append, append-nil, append_split, arith, dec_lt, inl, inr,
}
use server.Network.Packet.{Inbox, Serializer}
use server.Network.Receive.{Receiver, Outcome, received, continue, pass, receive_loop}
use server.Network.Receive.Framing.{
  IsFrame, IsPartial, short, Takes, Delivers, rest, next, IsPartial-IsFrame,
}
use server.Network.Receive.Passes.{Holds, nothing, waiting, pass-frame, pass-partial}

pub Holds-IsPartial : {r : Option _} {kept : List ℕ} → Holds r kept → IsPartial kept
Holds-IsPartial (nothing e k) = rw k (short (omega arith))
Holds-IsPartial (waiting h e pos k w) = w

-- A frame that runs into the received bytes begins with the bytes kept.
frame_covers :
    (kept c f others : List ℕ)
    → IsPartial kept
    → IsFrame f
    → f ++ others ≡ kept ++ c
    → (x : List ℕ) × (f ≡ kept ++ x) × (c ≡ x ++ others) × (0 < length x)
frame_covers kept c f others w v e = elim (dec_lt (length f) (length kept)) [
  | yes over ↦
      let (y, p, q) = append_split f others kept c (sym e) (omega arith) in
      absurd (IsPartial-IsFrame f y v (subst IsPartial p w))
  | no under ↦ let (x, p, q) = append_split kept c f others e (omega arith) in (x, p, q, grows x p)
]
  where
    grows : (x : List ℕ) → f ≡ kept ++ x → 0 < length x
    grows [] p = absurd (IsPartial-IsFrame f [] v (rw (append-nil f, p, append-nil kept) w))
    grows (b ∷ x) p = omega arith

module _ {P : Type 0} (z : Serializer P) where
  pub Delivers-partial :
      {p q : Option (Inbox P)} {bs left : List ℕ}
      → Delivers z p bs q left
      → IsPartial bs
      → (q ≡ p) × (left ≡ bs)
  Delivers-partial (rest w) v = (refl, refl)
  Delivers-partial (next f others e w t d) v = absurd (IsPartial-IsFrame f others w (rw (← e) v))

  -- The loop returns true, with the protocol that the frames lead to and the bytes left over.
  abbrev pub Ends : Option (Outcome × Receiver P) → Option (Inbox P) → List ℕ → Type 0
  Ends o q left =
      (any : Bool) × (r : Receiver P) × (o ≡ some (received any, r))
      × Holds r.pending left
      × (r.protocol ≡ q)

  -- The last pass: the received bytes only make the bytes kept longer.
  receive_loop-partial :
      (fuel : ℕ) (r : Receiver P) (any : Bool) (kept x : List ℕ)
      → length x < fuel
      → 0 < length x
      → Holds r.pending kept
      → IsPartial (kept ++ x)
      → Ends (receive_loop z fuel r any x) r.protocol (kept ++ x)
  unfolding receive_loop
  receive_loop-partial zero r any kept x few pos h w = absurd (omega arith)
  receive_loop-partial (suc fuel) r any kept [] few pos h w = absurd (omega arith)
  receive_loop-partial (suc zero) r any kept (b ∷ c) few pos h w = absurd (omega arith)
  receive_loop-partial (suc (suc fuel)) r any kept (b ∷ c) few pos h w =
      let (hd, o, v) = pass-partial z r any kept (b ∷ c) h w in
      let longer = waiting hd refl (omega (arith, length-append kept (b ∷ c))) v w in
      (
        any,
        record r { pending = some (record { header = hd; data_buffer = kept ++ b ∷ c }) },
        elim o [ inl ends ↦ rw (ends, receive_loop) | inr more ↦ rw (more, receive_loop) ],
        longer,
        refl,
      )

  pub receive_loop-Delivers :
      (fuel : ℕ) (r : Receiver P) (any : Bool) (kept c : List ℕ) {bs left : List ℕ}
      {p q : Option (Inbox P)}
      → length c < fuel
      → Holds r.pending kept
      → bs ≡ kept ++ c
      → r.protocol ≡ p
      → Delivers z p bs q left
      → Ends (receive_loop z fuel r any c) q left
  unfolding receive_loop
  receive_loop-Delivers zero r any kept c few h e k d = absurd (omega arith)
  receive_loop-Delivers (suc fuel) r any kept [] {left = left} few h e k d =
      let same = e ∙ append-nil kept in
      let (p, l) = Delivers-partial d (subst IsPartial (sym same) (Holds-IsPartial h)) in
      (any, r, refl, subst (Holds r.pending) (sym (l ∙ same)) h, k ∙ sym p)
  receive_loop-Delivers (suc fuel) r any kept (b ∷ c) few h e k (rest w) =
      let (any', r', o, h', p) =
        receive_loop-partial (suc fuel) r any kept (b ∷ c) few (omega arith) h
          (subst IsPartial e w) in
      (any', r', o, subst (Holds r'.pending) (sym e) h', p ∙ k)
  receive_loop-Delivers (suc fuel) r any kept (b ∷ c) few h e k (next {p' = p'} f others i v t d) =
      let (x, fx, cx, pos) = frame_covers kept (b ∷ c) f others (Holds-IsPartial h) v (sym i ∙ e) in
      let step : pass z r any (x ++ others)
          ≡ continue (record { pending = none; protocol = p' }) true others =
        pass-frame z r any kept x others h (subst IsFrame fx v)
          (subst (λ g. Takes z r.protocol g p') fx (subst (λ o. Takes z o f p') (sym k) t)) in
      let step' = ap (pass z r any) cx ∙ step in
      rw (step', receive_loop)
        (receive_loop-Delivers fuel (record { pending = none; protocol = p' }) true [] others
          (omega (arith, ap length cx, length-append x others)) (nothing refl refl) refl refl d)
