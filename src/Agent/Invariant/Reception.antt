-- ===== src/Agent/Invariant/Reception.antt =====
-- `recv` keeps the agent valid, whatever packet comes in.
use ns2_te_aomdv.Base.{
  inl, inr, Option-cases, Bool, keep, length, false, true, dangling_pointer, arith, ℕ, ◌&&◌, not,
  Option, none, some, List, [], ◌∷◌, ◌==◌, if◌then◌else◌, update_first, Double, ◌≼◌,
}
use ns2_te_aomdv.Packet.{
  Packet, Header, Reply, Recommen, Pta, hello, rreq, rrep, rerr, rcom, prob, pta, other,
  ip_broadcast, dec_int,
}
use ns2_te_aomdv.Entry.{Entry, has_nexthop, path_lookup}
use ns2_te_aomdv.Table.{rt_lookup, has_dst}
use ns2_te_aomdv.Neighbor.{Neighbor, trust_threshold}
use ns2_te_aomdv.Agent.State.{
  pure, fail, Env, Agent, ◌>>=◌, entry, emit, dropped, assert, nb_lookup, skip,
}
use ns2_te_aomdv.Agent.Send.{send_pta}
use ns2_te_aomdv.Agent.Routes.{is_even, max_seqno}
use ns2_te_aomdv.Agent.Neighbors.{
  recv_hello, recv_prob, recv_rcom, greet, count_probe, heed, recommend, set_expire, probed,
  recommended, interacted,
}
use ns2_te_aomdv.Agent.Forward.{delete_path, forward, no_delay, is_teaomdv}
use ns2_te_aomdv.Agent.Resolve.{rt_resolve}
use ns2_te_aomdv.Agent.Pta.{
  read_lasthop, tell_precursors, lose_trust, pta_route, is_meant, recv_pta,
}
use ns2_te_aomdv.Agent.Receive.{dispatch, recv_teaomdv, route_packet, recv_data, recv}
use ns2_te_aomdv.Agent.Invariant.{IsGood, IsValid, Post, returns, stops, then-Post}
use ns2_te_aomdv.Agent.Invariant.Forward.{forward-Post, nb_insert-Post}
use ns2_te_aomdv.Agent.Invariant.Deletion.{delete_path-Post, send_pta-Post}
use ns2_te_aomdv.Agent.Invariant.Waiting.{valid-Keeps}
use ns2_te_aomdv.Agent.Invariant.Rules.{
  Valid, stay, if-Post, when-Post, assert-Valid, set_entry-IsValid, set_neighbor-IsValid,
  entry-Valid,
}
use ns2_te_aomdv.Agent.Invariant.RouteError.{recv_error-Post}
use ns2_te_aomdv.Agent.Invariant.Resolve.{rt_resolve-Post}
use ns2_te_aomdv.Agent.Invariant.Request.{recv_request-Post}
use ns2_te_aomdv.Agent.Invariant.Reply.{recv_reply-Post}

module _ {D : Type 0} ⦃fl : Double D⦄ (env : Env D) where
  read_lasthop-Post :
      (saddr : ℕ) (before e : Entry D) (s : Agent D)
      → IsValid s
      → Post Valid (read_lasthop env saddr before e s)
  unfolding read_lasthop
  read_lasthop-Post saddr before e s v = elim (Option-cases (path_lookup before saddr)) [
    | inl h ↦ rw h (stops (λ e. cc))
    | inr (path, h) ↦ rw h (
        go path.lasthop (
          length (keep (has_nexthop saddr) e.paths)
          == length (keep (has_nexthop saddr) before.paths)))
  ]
    where
      go : (a : ℕ) (t : Bool) → Post Valid ((if t then pure a else fail dangling_pointer) s)
      go a true = returns v
      go a false = stops (λ e. cc)

  tell_precursors-Post :
      (index saddr : ℕ) (before e : Entry D) (pcs : List ℕ) (s : Agent D)
      → IsValid s
      → Post Valid (tell_precursors env index saddr before e pcs s)
  unfolding tell_precursors
  tell_precursors-Post index saddr before e [] s v = returns v
  tell_precursors-Post index saddr before e (a ∷ pcs) s v =
      then-Post
        (if index == a then skip else (do
          lasthop ← read_lasthop env saddr before e
          send_pta env
              (record {
                unreachable_dst = e.dst;
                unreachable_lasthop = lasthop;
                unreachable_dst_seqno = e.seqno;
              })
              a))
        _ s
        (if-Post Valid (index == a) skip _ s (returns v) (
          then-Post (read_lasthop env saddr before e) _ s (read_lasthop-Post saddr before e s v)
            λ l s1 v1. stay s1 v1 (send_pta-Post env s1.rqueue _ a s1 (valid-Keeps s1 v1))))
        λ _ s1 v1. tell_precursors-Post index saddr before e pcs s1 v1

  lose_trust-Post :
      (saddr : ℕ) (re : Pta) (e : Entry D) (s : Agent D)
      → IsValid s
      → Post Valid (lose_trust env saddr re e s)
  unfolding lose_trust
  lose_trust-Post saddr re e s v =
      then-Post (assert (is_even e.seqno)) _ s (assert-Valid _ s v) λ _ s1 v1.
        then-Post (delete_path env e.dst saddr) _ s1
          (stay s1 v1 (delete_path-Post env s1.rqueue e.dst saddr s1 (valid-Keeps s1 v1)))
          λ _ s2 v2.
            let s3 : Agent D = record s2 { rtable = update_first (has_dst e.dst) f s2.rtable } in
            then-Post (entry e.dst) _ s3
              (entry-Valid env e.dst s3 (set_entry-IsValid e.dst f s2 f-IsGood (λ _ d. d) v2))
              λ e2 s4 h4. tell_precursors-Post s4.index saddr e e2 e2.pclist s4 h4.1
    where
      heard : ℕ
      heard = max_seqno e.highest_seqno_heard re.unreachable_dst_seqno

      f : Entry D → Entry D
      f x = record x { highest_seqno_heard = heard; seqno = heard }

      f-IsGood : (x : Entry D) → IsGood x → IsGood (f x)
      f-IsGood x g = record {
        counted = g.counted;
        disjoint = g.disjoint;
        live = g.live;
        few = g.few;
      }

  recv_pta-Post :
      (p : Packet D) (re : Pta) (s : Agent D) → IsValid s → Post Valid (recv_pta env p re s)
  unfolding recv_pta pta_route
  recv_pta-Post p re s v =
      then-Post (pta_route env p.saddr re (rt_lookup s.rtable re.unreachable_dst)) _ s
        (go (rt_lookup s.rtable re.unreachable_dst))
        λ _ s1 v1. returns (record { good = v1.good; bounded = v1.bounded })
    where
      go : (o : Option (Entry D)) → Post Valid (pta_route env p.saddr re o s)
      go none = returns v
      go (some e) = when-Post (is_meant env p.saddr re e) _ s v (lose_trust-Post p.saddr re e s v)

  recv_hello-Post :
      (p : Packet D) (rp : Reply D) (s : Agent D) → IsValid s → Post Valid (recv_hello env p rp s)
  unfolding recv_hello greet
  recv_hello-Post p rp s v =
      then-Post (greet env rp.rp_dst (nb_lookup rp.rp_dst s)) _ s (go (nb_lookup rp.rp_dst s))
        λ _ s1 v1. returns (record { good = v1.good; bounded = v1.bounded })
    where
      go : (o : Option (Neighbor D)) → Post Valid (greet env rp.rp_dst o s)
      go none = stay s v (nb_insert-Post env s.rqueue rp.rp_dst s (valid-Keeps s v))
      go (some nb) =
          returns
            (set_neighbor-IsValid rp.rp_dst (set_expire env _) s (λ nb h. omega arith) (λ _ d. d) v)

  recv_prob-Post : (p : Packet D) (s : Agent D) → IsValid s → Post Valid (recv_prob env p s)
  unfolding recv_prob count_probe
  recv_prob-Post p s v =
      then-Post (count_probe env p.saddr (nb_lookup p.saddr s)) _ s (go (nb_lookup p.saddr s))
        λ _ s1 v1. returns (record { good = v1.good; bounded = v1.bounded })
    where
      go : (o : Option (Neighbor D)) → Post Valid (count_probe env p.saddr o s)
      go none = returns v
      go (some nb) =
          returns (set_neighbor-IsValid p.saddr (probed env) s (λ nb h. omega arith) (λ _ d. d) v)

  recommend-Post :
      (weight : D) (nbs : List (ℕ × D)) (s : Agent D)
      → IsValid s
      → Post Valid (recommend env weight nbs s)
  unfolding recommend
  recommend-Post weight [] s v = returns v
  recommend-Post weight ((addr, dt) ∷ nbs) s v =
      recommend-Post weight nbs _
        (set_neighbor-IsValid addr (recommended env weight dt) s (λ nb h. omega arith) (λ _ d. d) v)

  recv_rcom-Post :
      (p : Packet D) (rc : Recommen D) (s : Agent D) → IsValid s → Post Valid (recv_rcom env p rc s)
  unfolding recv_rcom heed
  recv_rcom-Post p rc s v =
      then-Post (heed env p.saddr rc (nb_lookup p.saddr s)) _ s (go (nb_lookup p.saddr s))
        λ _ s1 v1. returns (record { good = v1.good; bounded = v1.bounded })
    where
      go : (o : Option (Neighbor D)) → Post Valid (heed env p.saddr rc o s)
      go none = returns v
      go (some nb) =
          if-Post Valid (trust_threshold ≼ nb.tv) _ skip s
            (recommend-Post nb.direct_trust rc.nbs _ (
              set_neighbor-IsValid p.saddr (interacted env rc.it_num) s (λ nb h. omega arith)
                (λ _ d. d) v))
            (returns v)

  -- The switch of `recvTEAOMDV`.
  dispatch-Post :
      (p : Packet D) (h : Header D) (s : Agent D) → IsValid s → Post Valid (dispatch env p h s)
  unfolding dispatch
  dispatch-Post p (rreq rq) s v = recv_request-Post env p rq s v
  dispatch-Post p (rrep rp) s v = recv_reply-Post env p rp s v
  dispatch-Post p (rerr lost) s v =
      stay s v (recv_error-Post env s.rqueue p lost s (valid-Keeps s v))
  dispatch-Post p (hello rp) s v = recv_hello-Post p rp s v
  dispatch-Post p (rcom rc) s v = recv_rcom-Post p rc s v
  dispatch-Post p prob s v = recv_prob-Post p s v
  dispatch-Post p (pta re) s v = recv_pta-Post p re s v
  dispatch-Post p (other t) s v = stops (λ e. cc)

  recv_teaomdv-Post : (p : Packet D) (s : Agent D) → IsValid s → Post Valid (recv_teaomdv env p s)
  unfolding recv_teaomdv
  recv_teaomdv-Post p s v =
      then-Post (assert (p.sport == env.rt_port)) _ s (assert-Valid _ s v) λ _ s1 v1.
        then-Post (assert (p.dport == env.rt_port)) _ s1 (assert-Valid _ s1 v1)
          λ _ s2 v2. dispatch-Post p p.header s2 v2

  route_packet-Post : (p : Packet D) (s : Agent D) → IsValid s → Post Valid (route_packet env p s)
  unfolding route_packet
  route_packet-Post p s v =
      if-Post Valid (not (p.daddr == ip_broadcast)) (rt_resolve env p) (forward env none p no_delay)
        s (rt_resolve-Post env p s v)
        (stay s v (forward-Post env s.rqueue none p no_delay s (valid-Keeps s v)))

  recv_data-Post : (p : Packet D) (s : Agent D) → IsValid s → Post Valid (recv_data env p s)
  unfolding recv_data
  recv_data-Post p s v =
      if-Post Valid ((p.saddr == s.index) && (p.num_forwards == 0)) (route_packet env _) _ s
        (route_packet-Post _ s v)
        (if-Post Valid (p.saddr == s.index) (emit (dropped p _)) _ s
          (returns (record { good = v.good; bounded = v.bounded }))
          (if-Post Valid (dec_int p.ttl == 0) (emit (dropped _ _)) (route_packet env _) s
            (returns (record { good = v.good; bounded = v.bounded })) (route_packet-Post _ s v)))

  -- `recv` keeps the agent valid, whatever packet comes in: every entry of the routing table counts
  -- its paths right, its paths are node-disjoint, and it has one if it is up; the length of the queue
  -- is right and within its limit. It returns, or stops at an assertion or a bad pointer of the code,
  -- but never for want of the fuel of a loop.
  pub recv-Post : (p : Packet D) (s : Agent D) → IsValid s → Post Valid (recv env p s)
  unfolding recv
  recv-Post p s v = then-Post (assert env.has_target) _ s (assert-Valid _ s v) λ _ s1 v1.
      if-Post Valid (is_teaomdv p.ptype) (recv_teaomdv env _) (recv_data env p) s1
        (recv_teaomdv-Post _ s1 v1) (recv_data-Post p s1 v1)
