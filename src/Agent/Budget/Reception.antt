-- ===== src/Agent/Budget/Reception.antt =====
-- The handlers of the control packets: only `recvRequest` passes requests on, a known one never, and
-- another once.
use ns2_te_aomdv.Base.{
  inl, inr, Option-cases, Bool, keep, false, if◌then◌else◌, dangling_pointer, ℕ, true, false,
  Option, none, some, List, [], ◌∷◌, length, ltb, ◌==◌, Double, ◌≼◌,
}
use ns2_te_aomdv.Packet.{Packet, Reply, Recommen, Pta}
use ns2_te_aomdv.Entry.{Entry, has_nexthop, path_lookup}
use ns2_te_aomdv.Table.{rt_lookup}
use ns2_te_aomdv.Neighbor.{Neighbor, trust_threshold}
use ns2_te_aomdv.Agent.State.{pure, fail, Env, Agent, nb_lookup}
use ns2_te_aomdv.Agent.Routes.{recv_error, handle_link_failure, lose_routes, fail_links, is_even}
use ns2_te_aomdv.Agent.Neighbors.{
  greet, recv_hello, count_probe, recv_prob, recommend, heed, recv_rcom,
}
use ns2_te_aomdv.Agent.Pta.{
  tell_precursors, read_lasthop, is_meant, lose_trust, pta_route, recv_pta,
}
use ns2_te_aomdv.Agent.Budget.{
  Watch, weight, returns, Within, Frugal, stops, then-Stays, done-Frugal, if-Stays, when-Frugal,
  assert-Frugal, lift-Frugal, entry-Frugal, emit-Frugal,
}
use ns2_te_aomdv.Agent.Budget.Forward.{
  send_error-Frugal, send_pta-Frugal, nb_insert-Frugal, delete_path-Frugal,
}

module _ {D : Type 0} ⦃fl : Double D⦄ (env : Env D) (w : Watch D) (b : ℕ) where
  pub recv_error-Frugal :
      (p : Packet D) (unreachable : List (ℕ × ℕ)) (s : Agent D)
      → Within w b s
      → Frugal w b (recv_error env p unreachable s)
  unfolding recv_error
  recv_error-Frugal p unreachable s v =
      then-Stays (lift-Frugal (lose_routes env p.saddr unreachable s.rtable []) s v) λ r s1 v1 _.
        then-Stays
          (if-Stays (ltb 0 (length r.1)) _ _ _ (send_error-Frugal env w b r.1 true _ v)
            (emit-Frugal v (w.released _)))
          λ _ s2 v2 _. emit-Frugal v2 (w.released _)

  pub handle_link_failure-Frugal :
      (a : ℕ) (s : Agent D) → Within w b s → Frugal w b (handle_link_failure env a s)
  unfolding handle_link_failure
  handle_link_failure-Frugal a s v =
      then-Stays (lift-Frugal (fail_links env a s.rtable []) s v) λ r s1 v1 _.
        if-Stays (ltb 0 (length r.1)) _ _ _ (send_error-Frugal env w b r.1 false _ v)
          (emit-Frugal v (w.released _))

  pub recv_hello-Frugal :
      (p : Packet D) (rp : Reply D) (s : Agent D)
      → Within w b s
      → Frugal w b (recv_hello env p rp s)
  unfolding recv_hello greet
  recv_hello-Frugal p rp s v =
      then-Stays (go (nb_lookup rp.rp_dst s)) λ _ s1 v1 _. emit-Frugal v1 (w.released _)
    where
      go : (o : Option (Neighbor D)) → Frugal w b (greet env rp.rp_dst o s)
      go none = nb_insert-Frugal env w b rp.rp_dst s v
      go (some nb) = done-Frugal v

  pub recv_prob-Frugal :
      (p : Packet D) (s : Agent D) → Within w b s → Frugal w b (recv_prob env p s)
  unfolding recv_prob count_probe
  recv_prob-Frugal p s v =
      then-Stays (go (nb_lookup p.saddr s)) λ _ s1 v1 _. emit-Frugal v1 (w.released _)
    where
      go : (o : Option (Neighbor D)) → Frugal w b (count_probe env p.saddr o s)
      go none = done-Frugal v
      go (some nb) = done-Frugal v

  recommend-Frugal :
      (weight : D) (nbs : List (ℕ × D)) (s : Agent D)
      → Within w b s
      → Frugal w b (recommend env weight nbs s)
  unfolding recommend
  recommend-Frugal weight [] s v = done-Frugal v
  recommend-Frugal weight ((a, dt) ∷ nbs) s v = recommend-Frugal weight nbs _ v

  pub recv_rcom-Frugal :
      (p : Packet D) (rc : Recommen D) (s : Agent D)
      → Within w b s
      → Frugal w b (recv_rcom env p rc s)
  unfolding recv_rcom heed
  recv_rcom-Frugal p rc s v =
      then-Stays (go (nb_lookup p.saddr s)) λ _ s1 v1 _. emit-Frugal v1 (w.released _)
    where
      go : (o : Option (Neighbor D)) → Frugal w b (heed env p.saddr rc o s)
      go none = done-Frugal v
      go (some nb) =
          if-Stays (trust_threshold ≼ nb.tv) _ _ s (recommend-Frugal _ rc.nbs _ v) (done-Frugal v)

  read_lasthop-Frugal :
      (saddr : ℕ) (before e : Entry D) (s : Agent D)
      → Within w b s
      → Frugal w b (read_lasthop env saddr before e s)
  unfolding read_lasthop
  read_lasthop-Frugal saddr before e s v = elim (Option-cases (path_lookup before saddr)) [
    | inl h ↦ rw h stops
    | inr (path, h) ↦ rw h (
        go path.lasthop (
          length (keep (has_nexthop saddr) e.paths)
          == length (keep (has_nexthop saddr) before.paths)))
  ]
    where
      go : (a : ℕ) (t : Bool) → Frugal w b ((if t then pure a else fail dangling_pointer) s)
      go a true = returns (v, tt)
      go a false = stops

  tell_precursors-Frugal :
      (index saddr : ℕ) (before e : Entry D) (pcs : List ℕ) (s : Agent D)
      → Within w b s
      → Frugal w b (tell_precursors env index saddr before e pcs s)
  unfolding tell_precursors
  tell_precursors-Frugal index saddr before e [] s v = done-Frugal v
  tell_precursors-Frugal index saddr before e (a ∷ pcs) s v =
      then-Stays
        (if-Stays (index == a) _ _ s (done-Frugal v) (
          then-Stays (read_lasthop-Frugal saddr before e s v)
            λ _ s1 v1 _. send_pta-Frugal env w b _ a s1 v1))
        λ _ s1 v1 _. tell_precursors-Frugal index saddr before e pcs s1 v1

  lose_trust-Frugal :
      (saddr : ℕ) (re : Pta) (e : Entry D) (s : Agent D)
      → Within w b s
      → Frugal w b (lose_trust env saddr re e s)
  unfolding lose_trust
  lose_trust-Frugal saddr re e s v = then-Stays (assert-Frugal (is_even e.seqno) s v) λ _ s1 v1 _.
      then-Stays (delete_path-Frugal env w b e.dst saddr s1 v1) λ _ s2 v2 _.
        then-Stays (entry-Frugal e.dst _ v2)
          λ e2 s3 v3 _. tell_precursors-Frugal s3.index saddr e e2 e2.pclist s3 v3

  pub recv_pta-Frugal :
      (p : Packet D) (re : Pta) (s : Agent D) → Within w b s → Frugal w b (recv_pta env p re s)
  unfolding recv_pta pta_route
  recv_pta-Frugal p re s v =
      then-Stays (go (rt_lookup s.rtable re.unreachable_dst))
        λ _ s1 v1 _. emit-Frugal v1 (w.released _)
    where
      go : (o : Option (Entry D)) → Frugal w b (pta_route env p.saddr re o s)
      go none = done-Frugal v
      go (some e) =
          when-Frugal (is_meant env p.saddr re e) _ s v (lose_trust-Frugal p.saddr re e s v)
