-- ===== src/System/Dispatch/Wakeup.antt =====
-- The counter of a channel, the order of its messages, and the wake-up that is lost.
use server.Base.{
  ℕ, ◌+◌, ◌%◌, ◌<◌, ◌≤◌, ◌≡◌, refl, ap, sym, ◌∙◌, Bool, true, false, List, [], ◌∷◌, ◌++◌, length,
  length-append, arith, append_assoc, if◌then◌else◌, subst,
}
use server.Network.Packet.{size_mod}
use server.System.Dispatch.{
  Node, Channel, empty_channel, Step, Steps, exchange, link, count_first, count_more, schedule,
  acquire, take, uncount, execute, leave, start, step,
}

-- The workers that are in the channel or will be, a Schedule to come counted in.
abbrev pub attended : Channel → ℕ
attended c = c.to_schedule + c.ready + c.workers + c.taken + c.executing

-- The messages of nodes, and the nodes that are not linked.
unfoldable pub messages_of : List Node → List ℕ
messages_of [] = []
messages_of (n ∷ ns) = n.message ∷ messages_of ns

unfoldable pub unlinked : List Node → ℕ
unlinked [] = 0
unlinked (n ∷ ns) = let rest = unlinked ns in if n.linked then rest else rest + 1

if-add : (b : Bool) (x y : ℕ) → (if b then x + y else x + y + 1) ≡ (if b then x else x + 1) + y
if-add true x y = refl
if-add false x y = omega arith

unlinked-append : (xs ys : List Node) → unlinked (xs ++ ys) ≡ unlinked xs + unlinked ys
unfolding unlinked
unlinked-append [] ys = omega arith
unlinked-append (n ∷ xs) ys =
    ap (λ k. if n.linked then k else k + 1) (unlinked-append xs ys)
    ∙ if-add n.linked (unlinked xs) (unlinked ys)

messages_of-append : (xs ys : List Node) → messages_of (xs ++ ys) ≡ messages_of xs ++ messages_of ys
unfolding messages_of
messages_of-append [] ys = refl
messages_of-append (n ∷ xs) ys = ap (λ l. n.message ∷ l) (messages_of-append xs ys)

-- The counter is the number of messages in the queue, less the pushes and pops not yet counted, in the
-- arithmetic of `size_t`; and the messages come out in the order in which they went in.
pub record IsCounted (c : Channel) : Type 0 where
  pub bounded : c.count < size_mod
  pub counted :
      (c.count + c.uncounted + unlinked c.messages) % size_mod
      ≡ (length c.messages + c.taken) % size_mod
  pub in_order : c.popped ++ messages_of c.messages ≡ c.posted

abbrev node : ℕ → Bool → Node
node m b = record { message = m; linked = b }

Step-IsCounted : {c d : Channel} → IsCounted c → Step c d → IsCounted d
unfolding unlinked messages_of
Step-IsCounted {c} i (exchange m) = record {
  bounded = i.bounded;
  counted = omega (
    arith,
    i.counted,
    length-append c.messages (node m false ∷ []),
    unlinked-append c.messages (node m false ∷ []),
  );
  in_order =
      ap (λ l. c.popped ++ l) (messages_of-append c.messages (node m false ∷ []))
      ∙ sym (append_assoc c.popped (messages_of c.messages) (m ∷ []))
      ∙ ap (λ l. l ++ m ∷ []) i.in_order;
}
Step-IsCounted {c} i (link before after m e) = record {
  bounded = i.bounded;
  counted = omega (
    arith,
    i.counted,
    ap length e,
    ap unlinked e,
    length-append before (node m false ∷ after),
    length-append before (node m true ∷ after),
    unlinked-append before (node m false ∷ after),
    unlinked-append before (node m true ∷ after),
  );
  in_order =
      ap (λ l. c.popped ++ l)
        (messages_of-append before (node m true ∷ after)
          ∙ sym (messages_of-append before (node m false ∷ after))
          ∙ ap messages_of (sym e))
      ∙ i.in_order;
}
Step-IsCounted {c} i (count_first e z) = record {
  bounded = omega arith;
  counted = omega (arith, i.counted, e);
  in_order = i.in_order;
}
Step-IsCounted {c} i (count_more {u} e z) = record {
  bounded = omega arith;
  counted = omega (arith, i.counted, e);
  in_order = i.in_order;
}
Step-IsCounted {c} i (schedule e) = record {
  bounded = i.bounded;
  counted = i.counted;
  in_order = i.in_order;
}
Step-IsCounted {c} i (acquire e) = record {
  bounded = i.bounded;
  counted = i.counted;
  in_order = i.in_order;
}
Step-IsCounted {c} i (take {m} {ms} e f) = record {
  bounded = i.bounded;
  counted = omega (arith, i.counted, ap length f, ap unlinked f);
  in_order =
      append_assoc c.popped (m ∷ []) (messages_of ms)
      ∙ sym (ap (λ l. c.popped ++ messages_of l) f)
      ∙ i.in_order;
}
Step-IsCounted {c} i (uncount e) = record {
  bounded = omega arith;
  counted = omega (arith, i.counted, e);
  in_order = i.in_order;
}
Step-IsCounted {c} i (execute e) = record {
  bounded = i.bounded;
  counted = i.counted;
  in_order = i.in_order;
}
Step-IsCounted {c} i (leave e f) = record {
  bounded = i.bounded;
  counted = i.counted;
  in_order = i.in_order;
}

empty_channel-IsCounted : IsCounted empty_channel
unfolding empty_channel unlinked messages_of
empty_channel-IsCounted = record { bounded = omega arith; counted = refl; in_order = refl }

Steps-IsCounted : {c d : Channel} → IsCounted c → Steps c d → IsCounted d
Steps-IsCounted i start = i
Steps-IsCounted i (step r s) = Step-IsCounted (Steps-IsCounted i r) s

pub reachable-IsCounted : {c : Channel} → Steps empty_channel c → IsCounted c
reachable-IsCounted r = Steps-IsCounted empty_channel-IsCounted r

-- A channel in which nobody is, and nobody will be as its count is not zero.
record IsAsleep (c : Channel) (popped : List ℕ) : Type 0 where
  nobody : attended c ≡ 0
  counted_up : 0 < c.count
  fewer : c.count + c.uncounted + unlinked c.messages ≤ length c.posted
  kept : c.popped ≡ popped

Step-posted : {c d : Channel} → Step c d → length c.posted ≤ length d.posted
Step-posted {c} (exchange m) = omega (arith, length-append c.posted (m ∷ []))
Step-posted (link before after m e) = omega arith
Step-posted (count_first e z) = omega arith
Step-posted (count_more e z) = omega arith
Step-posted (schedule e) = omega arith
Step-posted (acquire e) = omega arith
Step-posted (take e f) = omega arith
Step-posted (uncount e) = omega arith
Step-posted (execute e) = omega arith
Step-posted (leave e f) = omega arith

Step-IsAsleep :
    {c d : Channel} {popped : List ℕ}
    → IsAsleep c popped
    → length d.posted < size_mod
    → Step c d
    → IsAsleep d popped
unfolding unlinked
Step-IsAsleep {c} i small (exchange m) = record {
  nobody = i.nobody;
  counted_up = i.counted_up;
  fewer = omega (
    arith,
    i.fewer,
    length-append c.posted (m ∷ []),
    unlinked-append c.messages (node m false ∷ []),
  );
  kept = i.kept;
}
Step-IsAsleep {c} i small (link before after m e) = record {
  nobody = i.nobody;
  counted_up = i.counted_up;
  fewer = omega (
    arith,
    i.fewer,
    ap unlinked e,
    unlinked-append before (node m false ∷ after),
    unlinked-append before (node m true ∷ after),
  );
  kept = i.kept;
}
Step-IsAsleep i small (count_first e z) = absurd (omega (arith, i.counted_up, z))
Step-IsAsleep i small (count_more e z) = record {
  nobody = i.nobody;
  counted_up = omega (arith, i.fewer, e, small);
  fewer = omega (arith, i.fewer, e, small);
  kept = i.kept;
}
Step-IsAsleep i small (schedule e) = absurd (omega (arith, i.nobody, e))
Step-IsAsleep i small (acquire e) = absurd (omega (arith, i.nobody, e))
Step-IsAsleep i small (take e f) = absurd (omega (arith, i.nobody, e))
Step-IsAsleep i small (uncount e) = absurd (omega (arith, i.nobody, e))
Step-IsAsleep i small (execute e) = absurd (omega (arith, i.nobody, e))
Step-IsAsleep i small (leave e f) = absurd (omega (arith, i.nobody, e))

Steps-IsAsleep :
    {c d : Channel} {popped : List ℕ}
    → IsAsleep c popped
    → Steps c d
    → length d.posted < size_mod
    → IsAsleep d popped
Steps-IsAsleep i start small = i
Steps-IsAsleep i (step r s) small =
    Step-IsAsleep (Steps-IsAsleep i r (omega (arith, Step-posted s, small))) small s

-- Nobody is in a channel, or on the way.
pub record IsIdle (c : Channel) : Type 0 where
  pub empty : c.messages ≡ []
  pub nobody : attended c ≡ 0
  pub settled : c.uncounted ≡ 0

-- The channel when two more messages wait in its queue, linked and counted.
abbrev pub both_wait : ℕ → ℕ → Channel → Channel
both_wait m n c = record c {
  messages = node m true ∷ node n true ∷ [];
  posted = (c.posted ++ m ∷ []) ++ n ∷ [];
  count = 2;
}

-- The second Push links its node and wakes a worker, which cannot pass the first node and leaves.
both_wait-Steps : {c : Channel} (m n : ℕ) → IsIdle c → c.count ≡ 0 → Steps c (both_wait m n c)
both_wait-Steps {c} m n idle zero_count =
    let unfinished : List Node = (c.messages ++ node m false ∷ []) ++ node n false ∷ [] in
    let alone : unfinished ≡ node m false ∷ node n false ∷ [] =
      ap (λ l. (l ++ node m false ∷ []) ++ node n false ∷ []) idle.empty in
    let woken : Steps c (record (both_wait m n c) {
      messages = node m false ∷ node n true ∷ [];
      count = (c.count + 1) % size_mod;
      workers = c.workers + 1;
    }) =
      step
        (step
          (step
            (step (step (step start (exchange m)) (exchange n))
              (link (node m false ∷ []) [] n alone))
            (count_first {u = c.uncounted} (omega arith) zero_count))
          (schedule {s = c.to_schedule} (omega arith)))
        (acquire {r = c.ready} (omega arith)) in
    let gone : Steps c (record (both_wait m n c) {
      messages = node m false ∷ node n true ∷ [];
      count = (c.count + 1) % size_mod;
    }) =
      step woken (leave {w = c.workers} (omega arith) refl) in
    let counted : Steps c
        (record (both_wait m n c) { count = ((c.count + 1) % size_mod + 1) % size_mod }) =
      step (step gone (link [] (node n true ∷ []) m refl))
        (count_more {u = c.uncounted} (omega arith) (λ e. absurd (omega (arith, e, zero_count)))) in
    subst (λ k. Steps c (record (both_wait m n c) { count = k })) (omega (arith, zero_count))
      counted

-- In a channel that has come to be idle, with an empty queue and no thread in Push, on the way or in it, two
-- threads can post so that their messages are both in the queue, linked and
-- counted, and no worker is in the channel or on the way. From then on nobody enters the channel and no
-- message is taken from it, whatever is posted, as long as fewer than 2^64 messages were ever posted.
pub lost_wakeup :
    {c e : Channel} (m n : ℕ)
    → Steps empty_channel c
    → IsIdle c
    → Steps (both_wait m n c) e
    → length e.posted < size_mod
    → Steps c (both_wait m n c) × (attended e ≡ 0) × (e.popped ≡ c.popped)
unfolding unlinked
lost_wakeup {c} m n r idle later small =
    let i = reachable-IsCounted r in
    let zero_count : c.count ≡ 0 = omega (
      arith,
      i.counted,
      i.bounded,
      ap length idle.empty,
      ap unlinked idle.empty,
      idle.nobody,
      idle.settled,
    ) in
    let asleep : IsAsleep (both_wait m n c) c.popped = record {
      nobody = idle.nobody;
      counted_up = omega arith;
      fewer = omega (
        arith,
        idle.settled,
        length-append c.posted (m ∷ []),
        length-append (c.posted ++ m ∷ []) (n ∷ []),
      );
      kept = refl;
    } in
    let still = Steps-IsAsleep asleep later small in
    (both_wait-Steps m n idle zero_count, still.nobody, still.kept)
