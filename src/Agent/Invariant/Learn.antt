-- ===== src/Agent/Invariant/Learn.antt =====
-- The creation and the update of a reverse or forward path (`recvRequest`, `recvReply`) keep the entry
-- good.
use ns2_te_aomdv.Base.{
  ◌≤◌, ◌<◌, length, ℕ, ◌+◌, ◌≡◌, refl, Bool, true, false, ◌&&◌, Option, length-append, find,
  update_first, length-update_first, Bool-cases, Option-cases, inl, inr, arith, Double, done, ltb,
  if◌then◌else◌,
}
use ns2_te_aomdv.Packet.{Packet, Request, Reply}
use ns2_te_aomdv.Entry.{
  Entry, RoutePath, path_insert, path_delete_all, new_disjoint_path, has_both, disjoint_path_lookup,
}
use ns2_te_aomdv.Entry.Counted.{IsCounted, path_insert-IsCounted}
use ns2_te_aomdv.Entry.Disjoint.{IsDisjoint, path_insert-IsDisjoint, update_first-IsDisjoint}
use ns2_te_aomdv.Neighbor.{Neighbor}
use ns2_te_aomdv.Agent.State.{Env}
use ns2_te_aomdv.Agent.RecvRequest.{
  add_path, renew, refresh_reverse, extend_reverse, update_reverse, learn_reverse, is_near,
  reverse_expire,
}
use ns2_te_aomdv.Agent.RecvReply.{update_forward, learn_forward, reply_expire}
use ns2_te_aomdv.Agent.Invariant.{IsGood, Gives, asserting-Gives}

module _ {D : Type 0} where
  -- A write to fields of a path that its places in the network do not depend on.
  update_path-IsGood :
      (p : RoutePath D → Bool) (f : RoutePath D → RoutePath D)
      → ((r : RoutePath D) → (f r).nexthop ≡ r.nexthop)
      → ((r : RoutePath D) → (f r).lasthop ≡ r.lasthop)
      → (e : Entry D) → IsGood e
      → IsGood (record e { paths = update_first p f e.paths })
  update_path-IsGood p f hn hl e g = record {
    counted = ground (arith, g.counted, length-update_first p f e.paths);
    disjoint = update_first-IsDisjoint p f hn hl e.paths g.disjoint;
    live = λ up. ground (arith, g.live up, length-update_first p f e.paths);
    few = ground (arith, g.few, length-update_first p f e.paths);
  }

module _ {D : Type 0} ⦃fl : Double D⦄ (env : Env D) where
  add_path-IsGood :
      (e : Entry D) (nexthop hops : ℕ) (expire : D) (lasthop : ℕ) (fpt rpt : D)
      → IsCounted e
      → IsDisjoint e.paths
      → new_disjoint_path e nexthop lasthop ≡ true
      → length e.paths < 3
      → IsGood (add_path env e nexthop hops expire lasthop fpt rpt)
  unfolding add_path path_insert
  add_path-IsGood e nexthop hops expire lasthop fpt rpt c d n room = record {
    counted = path_insert-IsCounted env.now e nexthop (hops + 1) expire lasthop fpt rpt c;
    disjoint = path_insert-IsDisjoint env.now e nexthop (hops + 1) expire lasthop fpt rpt d n;
    live = λ _. grind (arith, length-append);
    few = grind (arith, length-append);
  }

  renewed-IsGood :
      (e : Entry D) (seqno nexthop hops : ℕ) (expire : D) (lasthop : ℕ) (fpt rpt : D)
      → IsGood (add_path env (renew env e seqno) nexthop hops expire lasthop fpt rpt)
  unfolding renew path_delete_all new_disjoint_path
  renewed-IsGood e seqno nexthop hops expire lasthop fpt rpt =
      add_path-IsGood (renew env e seqno) nexthop hops expire lasthop fpt rpt refl tt refl
        (omega arith)

  -- Good, and for the same destination.
  abbrev IsLearnt : {A : Type 0} → ℕ → A × Entry D → Type 0
  IsLearnt dst r = IsGood r.1 × (r.1.dst ≡ dst)

  add_path-dst :
      (e : Entry D) (nexthop hops : ℕ) (expire : D) (lasthop : ℕ) (fpt rpt : D)
      → (add_path env e nexthop hops expire lasthop fpt rpt).dst ≡ e.dst
  unfolding add_path path_insert
  add_path-dst e nexthop hops expire lasthop fpt rpt = refl

  renewed-dst :
      (e : Entry D) (seqno nexthop hops : ℕ) (expire : D) (lasthop : ℕ) (fpt rpt : D)
      → (add_path env (renew env e seqno) nexthop hops expire lasthop fpt rpt).dst ≡ e.dst
  unfolding add_path path_insert renew path_delete_all
  renewed-dst e seqno nexthop hops expire lasthop fpt rpt = refl

  extend_reverse-IsGood :
      (max_paths diff : ℕ) (p : Packet D) (rq : Request D) (e : Entry D)
      → IsGood e
      → max_paths ≤ 3
      → new_disjoint_path e p.saddr rq.rq_first_hop ≡ true
      → Gives (IsLearnt e.dst) (extend_reverse env max_paths diff p rq e)
  unfolding extend_reverse
  extend_reverse-IsGood max_paths diff p rq e g max n =
      elim (Bool-cases (ltb e.num_paths max_paths && is_near env rq.rq_hop_count diff e)) [
        | inl fits ↦ rw fits (
          add_path-IsGood e _ _ _ _ _ _ g.counted g.disjoint n (ground (arith, g.counted)),
          add_path-dst e _ _ _ _ _ _,
        )
        | inr full ↦ rw full (g, refl)
      ]

  update_reverse-IsGood :
      (index max_paths diff : ℕ) (p : Packet D) (rq : Request D) (e : Entry D)
      → IsGood e
      → max_paths ≤ 3
      → Gives (IsLearnt e.dst) (update_reverse env index max_paths diff p rq e)
  unfolding update_reverse refresh_reverse disjoint_path_lookup
  update_reverse-IsGood index max_paths diff p rq e g max =
      elim (Option-cases (find (has_both p.saddr rq.rq_first_hop) e.paths)) [
        | inr (path, h) ↦
            rw (h, update_reverse)
              (asserting-Gives (IsLearnt e.dst) _ _ (
                update_path-IsGood (has_both p.saddr rq.rq_first_hop) _ (λ r. refl) (λ r. refl) e g,
                refl,
              ))
        | inl h ↦ elim (Bool-cases (new_disjoint_path e p.saddr rq.rq_first_hop)) [
          | inl n ↦ rw (h, n, update_reverse) (extend_reverse-IsGood max_paths diff p rq e g max n)
          | inr m ↦ rw (h, m, update_reverse) (ground arith)
        ]
      ]

  -- With at most three paths allowed, creating or updating the reverse path from a request gives, on every
  -- branch on which it does not stop at an assertion, a good entry for the same destination: the count
  -- of paths is right, the paths are node-disjoint and at most three, and an entry that is up has a path.
  pub learn_reverse-IsGood :
      (index max_paths diff : ℕ) (p : Packet D) (rq : Request D) (e : Entry D)
      → IsGood e
      → max_paths ≤ 3
      → Gives (IsLearnt e.dst) (learn_reverse env index max_paths diff p rq e)
  unfolding learn_reverse
  learn_reverse-IsGood index max_paths diff p rq e g max = ground (
    arith,
    renewed-IsGood e rq.rq_src_seqno p.saddr rq.rq_hop_count (reverse_expire env) rq.rq_first_hop
        rq.fpt rq.rpt,
    renewed-dst e rq.rq_src_seqno p.saddr rq.rq_hop_count (reverse_expire env) rq.rq_first_hop
        rq.fpt rq.rpt,
    update_reverse-IsGood index max_paths diff p rq e g max,
  )

  update_forward-IsGood :
      (max_paths diff : ℕ) (nb : Option (Neighbor D)) (rp : Reply D) (e : Entry D)
      → IsGood e
      → max_paths ≤ 3
      → Gives (IsLearnt e.dst) (update_forward env max_paths diff nb rp e)
  unfolding update_forward disjoint_path_lookup
  update_forward-IsGood max_paths diff nb rp e g max =
      elim (Option-cases (find (has_both rp.rp_src rp.rp_first_hop) e.paths)) [
        | inr (path, h) ↦
            rw (h, update_forward)
              (asserting-Gives (IsLearnt e.dst) _ _ (
                update_path-IsGood (has_both rp.rp_src rp.rp_first_hop) _ (λ r. refl) (λ r. refl) e
                    g,
                refl,
              ))
        | inl h ↦ rw (h, update_forward) (inserted _ refl)
      ]
    where
      inserted :
          (b : Bool)
          → (new_disjoint_path e rp.rp_src rp.rp_first_hop
              && ltb e.num_paths max_paths
              && is_near env rp.rp_hop_count diff e)
            ≡ b
          → Gives (IsLearnt {A = Bool} e.dst) (
              done (
                if b
                then (
                  true,
                  add_path env e rp.rp_src rp.rp_hop_count
                      (reply_expire env rp)
                      rp.rp_first_hop
                      rp.fpt
                      rp.rpt,
                )
                else (false, e)))
      inserted true q = (
        add_path-IsGood e _ _ _ _ _ _ g.counted g.disjoint (ground arith)
            (ground (arith, g.counted)),
        add_path-dst e _ _ _ _ _ _,
      )
      inserted false q = (g, refl)

  -- With at most three paths allowed, creating or updating the forward path from a reply gives, on every
  -- branch on which it does not stop at an assertion, a good entry for the same destination: the count
  -- of paths is right, the paths are node-disjoint and at most three, and an entry that is up has a path.
  pub learn_forward-IsGood :
      (max_paths diff : ℕ) (nb : Option (Neighbor D)) (rp : Reply D) (e : Entry D)
      → IsGood e
      → max_paths ≤ 3
      → Gives (IsLearnt e.dst) (learn_forward env max_paths diff nb rp e)
  unfolding learn_forward
  learn_forward-IsGood max_paths diff nb rp e g max = ground (
    arith,
    renewed-IsGood e rp.rp_dst_seqno rp.rp_src rp.rp_hop_count (reply_expire env rp) rp.rp_first_hop
        rp.fpt rp.rpt,
    renewed-dst e rp.rp_dst_seqno rp.rp_src rp.rp_hop_count (reply_expire env rp) rp.rp_first_hop
        rp.fpt rp.rpt,
    update_forward-IsGood max_paths diff nb rp e g max,
  )
