-- ===== src/Agent/Order/Advertised.antt =====
-- The advertised hops bound the paths of a route.
use ns2_te_aomdv.Base.{
  ℕ, ◌≤◌, ◌≡◌, subst, sym, Bool, true, false, inl, inr, Option, List, [], ◌∷◌, any, All, All-map,
  ltb, arith, Bool-cases, Double,
}
use ns2_te_aomdv.Packet.{Packet, Request, Reply}
use ns2_te_aomdv.Entry.{Entry, RoutePath}
use ns2_te_aomdv.Entry.Hops.{path_get_max_hopcount_lem}
use ns2_te_aomdv.Neighbor.{Neighbor}
use ns2_te_aomdv.Agent.State.{Env}
use ns2_te_aomdv.Agent.RecvRequest.{learn_reverse}
use ns2_te_aomdv.Agent.RecvRequest.Answer.{advertise}
use ns2_te_aomdv.Agent.RecvReply.{learn_forward}
use ns2_te_aomdv.Agent.Invariant.{Gives, weaken-Gives}
use ns2_te_aomdv.Agent.Order.{is_like, Follows, learn_reverse-Follows, learn_forward-Follows}

module _ {D : Type 0} ⦃fl : Double D⦄ (env : Env D) where
  -- With a number that was advertised, no path is longer than the number.
  abbrev pub IsAdvertised : Entry D → Type 0
  IsAdvertised e =
      env.is_infinity e.advertised_hops ≡ false → All (λ q. q.hopcount ≤ e.advertised_hops) e.paths

  any-All :
      (P : ℕ → Type 0) (ps : List (RoutePath D)) (q : RoutePath D)
      → All (λ r. P r.hopcount) ps
      → any (is_like q) ps ≡ true
      → P q.hopcount
  any-All P [] q a h = cc
  any-All P (p ∷ ps) q a h = elim (Bool-cases (is_like q p)) [
    | inl hit ↦ subst P (ground arith) a.0
    | inr miss ↦ any-All P ps q a.1 (ground arith)
  ]

  clash : {b : Bool} → b ≡ true → b ≡ false → ⊥
  clash h k = cc

  -- The rule keeps the paths within what is advertised.
  Follows-IsAdvertised :
      (e e' : Entry D) (seqno hops nexthop lasthop : ℕ)
      → env.is_infinity env.infinity ≡ true
      → Follows env e seqno hops nexthop lasthop e'
      → IsAdvertised e
      → IsAdvertised e'
  Follows-IsAdvertised e e' seqno hops nexthop lasthop inf f a adv =
      elim (Bool-cases (ltb e.seqno e'.seqno)) [
        | inl later ↦
            let reset = f.resets (ground arith) in
            absurd (clash inf (subst (λ m. env.is_infinity m ≡ false) reset.1 adv))
        | inr same ↦
            let here : e'.seqno ≡ e.seqno = ground (arith, f.never_back) in
            let bound : e'.advertised_hops ≡ e.advertised_hops = f.keeps here in
            All-map
              (λ q h. elim h [
                | inl old ↦
                    any-All (λ n. n ≤ e'.advertised_hops) e.paths q
                      (subst (λ m. All (λ r. r.hopcount ≤ m) e.paths) (sym bound)
                        (a (subst (λ m. env.is_infinity m ≡ false) bound adv)))
                      old.1
                | inr new ↦ ground (arith, new, here, bound)
              ])
              e'.paths f.paths
      ]

  -- Where the macro INFINITY is the infinity of the comparison, and no path of an entry with advertised
  -- hops is longer than these: the same holds of the entry after a request or a reply was learnt from,
  -- on every branch that does not stop, and of one that is just advertised.
  pub stay-IsAdvertised :
      (index max_paths diff : ℕ) (p : Packet D) (rq : Request D) (nb : Option (Neighbor D))
      (rp : Reply D) (e : Entry D)
      → env.is_infinity env.infinity ≡ true
      → IsAdvertised e
      → Gives (λ r. IsAdvertised r.1) (learn_reverse env index max_paths diff p rq e)
        × Gives (λ r. IsAdvertised r.1) (learn_forward env max_paths diff nb rp e)
        × IsAdvertised (advertise env e)
  stay-IsAdvertised index max_paths diff p rq nb rp e inf a = (
    weaken-Gives _ (λ r. IsAdvertised r.1) (learn_reverse env index max_paths diff p rq e)
        (learn_reverse-Follows env index max_paths diff p rq e)
        (λ r f. Follows-IsAdvertised e r.1 _ _ _ _ inf f a),
    weaken-Gives _ (λ r. IsAdvertised r.1) (learn_forward env max_paths diff nb rp e)
        (learn_forward-Follows env max_paths diff nb rp e)
        (λ r f. Follows-IsAdvertised e r.1 _ _ _ _ inf f a),
    elim (Bool-cases (env.is_infinity e.advertised_hops)) [
      | inl new ↦ rw new (λ _. (path_get_max_hopcount_lem e).0)
      | inr old ↦ rw old (λ _. a old)
    ],
  )
