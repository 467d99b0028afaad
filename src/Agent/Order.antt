-- ===== src/Agent/Order.antt =====
-- The rule by which requests and replies change a route: a higher sequence number replaces it, and the
-- same number only adds a path if the news came in fewer hops than are advertised.
pub mod Advertised
use ns2_te_aomdv.Base.{
  ℕ, ◌+◌, ◌<◌, ◌≤◌, ◌≡◌, refl, subst, sym, Bool, true, false, ◌&&◌, ◌⊎◌, inl, inr, Option, none,
  some, List, [], ◌∷◌, ◌++◌, map, any, find, update_first, All, All-append, All-map, ◌==◌, ==_refl,
  ltb, arith, if◌then◌else◌, Bool-cases, Option-cases, Double,
}
use ns2_te_aomdv.Packet.{Packet, Request, Reply, u16}
use ns2_te_aomdv.Entry.{
  Entry, RoutePath, is_up, path_insert, path_delete_all, new_disjoint_path, disjoint_path_lookup,
  has_both,
}
use ns2_te_aomdv.Entry.Choice.{path_get_max_hopcount}
use ns2_te_aomdv.Neighbor.{Neighbor}
use ns2_te_aomdv.Agent.State.{Env}
use ns2_te_aomdv.Agent.RecvRequest.{
  add_path, renew, reverse_expire, refresh_reverse, extend_reverse, update_reverse, learn_reverse,
  is_near,
}
use ns2_te_aomdv.Agent.RecvRequest.Answer.{advertise}
use ns2_te_aomdv.Agent.RecvReply.{reply_expire, update_forward, learn_forward}
use ns2_te_aomdv.Agent.Invariant.{Gives, asserting-Gives, weaken-Gives}

module _ {D : Type 0} where
  -- The same next hop, last hop and hop count.
  abbrev pub is_like : RoutePath D → RoutePath D → Bool
  is_like q r = (q.nexthop == r.nexthop) && (q.lasthop == r.lasthop) && (q.hopcount == r.hopcount)

  -- The next hop, the last hop and the hop count of a path.
  abbrev pub way : RoutePath D → ℕ × (ℕ × ℕ)
  way q = (q.nexthop, (q.lasthop, q.hopcount))

  -- The news is later than the entry, or as late and came in fewer hops than are advertised.
  abbrev pub IsNews : Entry D → ℕ → ℕ → Type 0
  IsNews e seqno hops = (e.seqno < seqno) ⊎ (e.seqno ≡ seqno) × (hops < e.advertised_hops)

  like-any : (ps : List (RoutePath D)) → All (λ q. any (is_like q) ps ≡ true) ps
  like-any [] = tt
  like-any (p ∷ ps) = (ground arith, All-map (λ q h. ground arith) ps (like-any ps))

  like-updated :
      (test : RoutePath D → Bool) (f : RoutePath D → RoutePath D) (ps : List (RoutePath D))
      → ((r : RoutePath D) → is_like (f r) r ≡ true)
      → All (λ q. any (is_like q) ps ≡ true) (update_first test f ps)
  like-updated test f [] k = tt
  like-updated test f (p ∷ ps) k = elim (Bool-cases (test p)) [
    | inl hit ↦ rw hit (ground (arith, k p), All-map (λ q h. ground arith) ps (like-any ps))
    | inr miss ↦ rw miss (ground arith, All-map (λ q h. ground arith) _ (like-updated test f ps k))
  ]

module _ {D : Type 0} ⦃fl : Double D⦄ (env : Env D) where
  -- How an entry changes by the news that over `nexthop`, and at its end over `lasthop`, a node can be
  -- reached in `hops` and one hop more.
  pub record Follows (e : Entry D) (seqno hops nexthop lasthop : ℕ) (e' : Entry D) : Type 0 where
    pub never_back : e.seqno ≤ e'.seqno
    pub keeps : e'.seqno ≡ e.seqno → e'.advertised_hops ≡ e.advertised_hops
    pub resets : e.seqno < e'.seqno → (e'.seqno ≡ seqno) × (e'.advertised_hops ≡ env.infinity)
    pub replaces :
        e.seqno < seqno
        → (e'.seqno ≡ seqno)
          × (is_up e'.flags ≡ true)
          × (e'.advertised_hops ≡ env.infinity)
          × (map way e'.paths ≡ (nexthop, (lasthop, u16 (hops + 1))) ∷ [])
    pub paths :
        All
          (λ q.
            (e'.seqno ≡ e.seqno) × (any (is_like q) e.paths ≡ true)
            ⊎ (q.nexthop ≡ nexthop)
              × (q.lasthop ≡ lasthop)
              × (q.hopcount ≡ u16 (hops + 1))
              × (e'.seqno ≡ seqno)
              × IsNews e seqno hops)
          e'.paths

  unchanged-Follows :
      (e : Entry D) (seqno hops nexthop lasthop : ℕ)
      → seqno ≤ e.seqno
      → Follows e seqno hops nexthop lasthop e
  unchanged-Follows e seqno hops nexthop lasthop old = record {
    never_back = omega arith;
    keeps = λ h. refl;
    resets = λ h. omega arith;
    replaces = λ h. absurd (omega arith);
    paths = All-map (λ q h. inl (refl, h)) e.paths (like-any e.paths);
  }

  renewed-Follows :
      (e : Entry D) (seqno hops nexthop lasthop : ℕ) (expire fpt rpt : D)
      → e.seqno < seqno
      → Follows e seqno hops nexthop lasthop
          (add_path env (renew env e seqno) nexthop hops expire lasthop fpt rpt)
  unfolding add_path path_insert renew path_delete_all
  renewed-Follows e seqno hops nexthop lasthop expire fpt rpt h = record {
    never_back = omega arith;
    keeps = λ k. absurd (omega arith);
    resets = λ k. (refl, refl);
    replaces = λ k. (refl, refl, refl, refl);
    paths = (inr (refl, refl, refl, refl, inl h), tt);
  }

  extended-Follows :
      (e : Entry D) (seqno hops nexthop lasthop : ℕ) (expire fpt rpt : D)
      → e.seqno ≡ seqno
      → hops < e.advertised_hops
      → Follows e seqno hops nexthop lasthop (add_path env e nexthop hops expire lasthop fpt rpt)
  unfolding add_path path_insert
  extended-Follows e seqno hops nexthop lasthop expire fpt rpt same near = record {
    never_back = omega arith;
    keeps = λ k. refl;
    resets = λ k. absurd (omega arith);
    replaces = λ k. absurd (omega arith);
    paths =
        All-append _ e.paths _ (All-map (λ q h. inl (refl, h)) e.paths (like-any e.paths))
          (inr (refl, refl, refl, same, inr (same, near)), tt);
  }

  refreshed-Follows :
      (e : Entry D) (seqno hops nexthop lasthop : ℕ) (test : RoutePath D → Bool)
      (f : RoutePath D → RoutePath D)
      → seqno ≤ e.seqno
      → ((r : RoutePath D) → is_like (f r) r ≡ true)
      → Follows e seqno hops nexthop lasthop (record e { paths = update_first test f e.paths })
  refreshed-Follows e seqno hops nexthop lasthop test f old k = record {
    never_back = omega arith;
    keeps = λ h. refl;
    resets = λ h. absurd (omega arith);
    replaces = λ h. absurd (omega arith);
    paths = All-map (λ q h. inl (refl, h)) _ (like-updated test f e.paths k);
  }

  update_reverse-Follows :
      (index max_paths diff : ℕ) (p : Packet D) (rq : Request D) (e : Entry D)
      → e.seqno ≡ rq.rq_src_seqno
      → rq.rq_hop_count < e.advertised_hops
      → Gives
          (λ r. Follows e rq.rq_src_seqno rq.rq_hop_count p.saddr rq.rq_first_hop r.1)
          (update_reverse env index max_paths diff p rq e)
  unfolding update_reverse refresh_reverse disjoint_path_lookup extend_reverse
  update_reverse-Follows index max_paths diff p rq e same near =
      let still =
        unchanged-Follows e rq.rq_src_seqno rq.rq_hop_count p.saddr rq.rq_first_hop (omega arith) in
      let more =
        extended-Follows e rq.rq_src_seqno rq.rq_hop_count p.saddr rq.rq_first_hop
          (reverse_expire env) rq.fpt rq.rpt same near in
      elim (Option-cases (find (has_both p.saddr rq.rq_first_hop) e.paths)) [
        | inr (path, h) ↦
            rw (h, update_reverse)
              (asserting-Gives
                (λ r. Follows e rq.rq_src_seqno rq.rq_hop_count p.saddr rq.rq_first_hop r.1) _ _
                (refreshed-Follows e _ _ _ _ _ _ (omega arith) λ r. ground arith))
        | inl h ↦ elim (Bool-cases (new_disjoint_path e p.saddr rq.rq_first_hop)) [
          | inl n ↦ rw (h, n, update_reverse) (ground arith)
          | inr m ↦ rw (h, m, update_reverse) (ground arith)
        ]
      ]

  -- What a request teaches of the way to its source, on every branch on which `recvRequest` does not
  -- stop at an assertion: the number of the entry does not fall; with the same number the advertised
  -- hops stay, and with a higher one, which is then the request's, they are those of a route that was
  -- not advertised yet. If the request has a higher number than the entry, the entry is up, with that
  -- number, not advertised yet, and has the request's path alone: over its sender, with the first hop
  -- as last hop and one hop more than it came. Each path is one of the entry, its number the same, or the request's: over
  -- its sender, with the first hop as last hop and one hop more than it came, and then the request has
  -- a higher number than the entry had, or the same and came in fewer hops than are advertised.
  pub learn_reverse-Follows :
      (index max_paths diff : ℕ) (p : Packet D) (rq : Request D) (e : Entry D)
      → Gives
          (λ r. Follows e rq.rq_src_seqno rq.rq_hop_count p.saddr rq.rq_first_hop r.1)
          (learn_reverse env index max_paths diff p rq e)
  unfolding learn_reverse
  learn_reverse-Follows index max_paths diff p rq e = ground (
    arith,
    renewed-Follows e rq.rq_src_seqno rq.rq_hop_count p.saddr rq.rq_first_hop (reverse_expire env)
        rq.fpt rq.rpt,
    update_reverse-Follows index max_paths diff p rq e,
    unchanged-Follows e rq.rq_src_seqno rq.rq_hop_count p.saddr rq.rq_first_hop,
  )

  update_forward-Follows :
      (max_paths diff : ℕ) (nb : Option (Neighbor D)) (rp : Reply D) (e : Entry D)
      → e.seqno ≡ rp.rp_dst_seqno
      → rp.rp_hop_count < e.advertised_hops
      → Gives
          (λ r. Follows e rp.rp_dst_seqno rp.rp_hop_count rp.rp_src rp.rp_first_hop r.1)
          (update_forward env max_paths diff nb rp e)
  unfolding update_forward disjoint_path_lookup
  update_forward-Follows max_paths diff nb rp e same near =
      elim (Option-cases (find (has_both rp.rp_src rp.rp_first_hop) e.paths)) [
        | inr (path, h) ↦
            rw (h, update_forward)
              (asserting-Gives
                (λ r. Follows e rp.rp_dst_seqno rp.rp_hop_count rp.rp_src rp.rp_first_hop r.1) _ _
                (refreshed-Follows e _ _ _ _ _ _ (omega arith) λ r. ground arith))
        | inl h ↦
            rw (h, update_forward)
              (ground (
                arith,
                unchanged-Follows e rp.rp_dst_seqno rp.rp_hop_count rp.rp_src rp.rp_first_hop,
                extended-Follows e rp.rp_dst_seqno rp.rp_hop_count rp.rp_src rp.rp_first_hop
                    (reply_expire env rp) rp.fpt rp.rpt same near,
              ))
      ]

  -- What a reply teaches of the way to the destination, on every branch on which `recvReply` does not
  -- stop at an assertion: the number of the entry does not fall; with the same number the advertised
  -- hops stay, and with a higher one, which is then the reply's, they are those of a route that was
  -- not advertised yet. If the reply has a higher number than the entry, the entry is up, with that
  -- number, not advertised yet, and has the reply's path alone: over its sender, with the first hop
  -- as last hop and one hop more than it came. Each path is one of the entry, its number the same, or the reply's: over
  -- its sender, with the first hop as last hop and one hop more than it came, and then the reply has
  -- a higher number than the entry had, or the same and came in fewer hops than are advertised.
  pub learn_forward-Follows :
      (max_paths diff : ℕ) (nb : Option (Neighbor D)) (rp : Reply D) (e : Entry D)
      → Gives
          (λ r. Follows e rp.rp_dst_seqno rp.rp_hop_count rp.rp_src rp.rp_first_hop r.1)
          (learn_forward env max_paths diff nb rp e)
  unfolding learn_forward
  learn_forward-Follows max_paths diff nb rp e = ground (
    arith,
    renewed-Follows e rp.rp_dst_seqno rp.rp_hop_count rp.rp_src rp.rp_first_hop
        (reply_expire env rp) rp.fpt rp.rpt,
    update_forward-Follows max_paths diff nb rp e,
    unchanged-Follows e rp.rp_dst_seqno rp.rp_hop_count rp.rp_src rp.rp_first_hop,
  )
