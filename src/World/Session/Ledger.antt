-- ===== src/World/Session/Ledger.antt =====
-- What a session's requests come to, from the effect of each.
use server.Base.{
  ℕ, suc, ◌+◌, ◌≡◌, refl, sym, ap, subst, ◌∙◌, false, List, [], ◌∷◌, ◌++◌, length, arith,
  append_assoc, ne→not-==, eq→==,
}
use server.World.Session.{ClientAction, WorldSession, base_attack_action}
use server.World.Session.Queue.{
  HasNone, AllType, IsSublist, done, IsSublist-trans, IsSublist-append, IsSublist-snoc,
  IsSublist-front, ids, unexpired-IsSublist, unexpired-AllType,
}
use server.World.Session.Attacks.{
  Request, Rules, shots, handle, run, accepted, issued_ids, IsLedger, Effect, quiet, expired,
  attacked, shot, handle-Effect,
}

-- Where all have the type, the first that has it is the first.
front_empty :
    (type : ℕ) (before : List ClientAction) (rest : List ClientAction)
    → AllType type (before ++ rest)
    → HasNone type before
    → before ≡ []
front_empty type [] rest h n = refl
front_empty type (b ∷ before) rest h n = absurd (n.0 h.0)

AllType-snoc :
    (type : ℕ) (queue : List ClientAction) (a : ClientAction)
    → AllType type queue
    → a.action_type ≡ type
    → AllType type (queue ++ a ∷ [])
AllType-snoc type [] a h e = (e, tt)
AllType-snoc type (x ∷ queue) a h e = (h.0, AllType-snoc type queue a h.1 e)

ids-snoc :
    (queue : List ClientAction) (a : ClientAction)
    → ids (queue ++ a ∷ []) ≡ ids queue ++ a.action_id ∷ []
ids-snoc [] a = refl
ids-snoc (x ∷ queue) a = ap (◌∷◌ x.action_id) (ids-snoc queue a)

issued_ids-step : (r : Rules) (n : ℕ) → issued_ids r (n + 1) ≡ issued_ids r n ++ r.issue n ∷ []
issued_ids-step r n = let e : n + 1 ≡ suc n = omega arith in ap (issued_ids r) e

Effect-IsLedger : (r : Rules) (s s' : WorldSession) → Effect r s s' → IsLedger r s → IsLedger r s'
Effect-IsLedger r s s' (quiet q i l c) v = record {
  typed = rw q v.typed;
  listed = rw (q, i, c) v.listed;
}
Effect-IsLedger r s s' (expired tick q i l c) v = record {
  typed = rw q (unexpired-AllType tick base_attack_action s.action_queue v.typed);
  listed =
      rw (q, i, c)
        (IsSublist-trans
          (IsSublist-append (shots s.calls) (unexpired-IsSublist tick s.action_queue)) v.listed);
}
Effect-IsLedger r s s' (attacked a d t g q i c) v = record {
  typed = rw q (AllType-snoc base_attack_action s.action_queue a v.typed t);
  listed =
      let e : shots s'.calls ++ ids s'.action_queue
          ≡ (shots s.calls ++ ids s.action_queue) ++ r.issue s.issued ∷ [] =
        rw (q, c, ids-snoc s.action_queue a, d) (sym (append_assoc (shots s.calls) _ _)) in
      rw (e, i, issued_ids-step r s.issued) (IsSublist-snoc (r.issue s.issued) v.listed);
}
Effect-IsLedger r s s' (shot before a after p n q i l c) v =
    let first : before ≡ [] =
      front_empty base_attack_action before (a ∷ after)
        (subst (AllType base_attack_action) p v.typed) n in
    let whole : s.action_queue ≡ a ∷ after = p ∙ ap (λ b. b ++ (a ∷ after)) first in
    let left : s'.action_queue ≡ after = q ∙ ap (λ b. b ++ after) first in
    record {
      typed = rw left (subst (AllType base_attack_action) whole v.typed).1;
      listed =
          rw (left, i, c, append_assoc (shots s.calls) (a.action_id ∷ []) (ids after))
            (subst (λ l. IsSublist (shots s.calls ++ ids l) (issued_ids r s.issued)) whole
              v.listed);
    }

run-IsLedger :
    (r : Rules) (qs : List Request) (s : WorldSession) → IsLedger r s → IsLedger r (run r qs s)
unfolding run
run-IsLedger r [] s v = v
run-IsLedger r (q ∷ qs) s v =
    run-IsLedger r qs (handle r q s) (Effect-IsLedger r s (handle r q s) (handle-Effect r q s) v)

-- Each tick is not too early after the one before it.
abbrev pub IsSpaced : Rules → ℕ → List ℕ → Type 0
IsSpaced r last [] = Unit
IsSpaced r last (t ∷ ts) = (r.too_early t last ≡ false) × IsSpaced r t ts

-- The number of accepted attacks is that of the issued ids, and they are spaced.
abbrev Accounts : Rules → List Request → WorldSession → Type 0
Accounts r qs s =
    ((run r qs s).issued ≡ s.issued + length (accepted r qs s))
    × IsSpaced r s.last_base_attack_tick (accepted r qs s)

run-Accounts : (r : Rules) (qs : List Request) (s : WorldSession) → Accounts r qs s
unfolding run accepted
run-Accounts r [] s = (omega arith, tt)
run-Accounts r (q ∷ qs) s = step (handle-Effect r q s) (run-Accounts r qs (handle r q s))
  where
    unchanged :
        (handle r q s).issued ≡ s.issued
        → (handle r q s).last_base_attack_tick ≡ s.last_base_attack_tick
        → Accounts r qs (handle r q s)
        → Accounts r (q ∷ qs) s
    unchanged i l (n, sp) = rw (eq→== (handle r q s).issued s.issued i) (
      n ∙ ap (λ k. k + length (accepted r qs (handle r q s))) i,
      subst (λ t. IsSpaced r t (accepted r qs (handle r q s))) l sp,
    )

    step : Effect r s (handle r q s) → Accounts r qs (handle r q s) → Accounts r (q ∷ qs) s
    step (quiet qu i l c) acc = unchanged i l acc
    step (expired tick qu i l c) acc = unchanged i l acc
    step (shot before a after p n qu i l c) acc = unchanged i l acc
    step (attacked a d t g qu i c) (n, sp) =
        rw (ne→not-== (handle r q s).issued s.issued (λ e. absurd (omega (arith, e, i))))
          (omega (arith, n, i), (g, sp))

-- A session starts with no actions and no calls. After any requests, the projectiles that the section was
-- asked to spawn have ids from the list of those issued, in their order and each at most as often; there
-- are as many issued ids as base attacks were accepted, and none of these came too early after the one
-- before.
pub run_attacks :
    (r : Rules) (qs : List Request) (s : WorldSession)
    → s.action_queue ≡ []
    → s.calls ≡ []
    → s.issued ≡ 0
    → IsSublist (shots (run r qs s).calls) (issued_ids r (length (accepted r qs s)))
      × IsSpaced r s.last_base_attack_tick (accepted r qs s)
run_attacks r qs s e c i =
    let start : IsLedger r s = record { typed = rw e tt; listed = rw (e, c, i) done } in
    let v = run-IsLedger r qs s start in
    let (n, sp) = run-Accounts r qs s in
    let total : (run r qs s).issued ≡ length (accepted r qs s) = omega (arith, n, i) in
    (
      IsSublist-trans (IsSublist-front (shots (run r qs s).calls) (ids (run r qs s).action_queue)) (
          subst
            (λ k.
              IsSublist (shots (run r qs s).calls ++ ids (run r qs s).action_queue)
                (issued_ids r k))
            total v.listed),
      sp,
    )
