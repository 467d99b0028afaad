-- ===== src/Agent/Budget/Reply.antt =====
-- `recvReply` passes on no request.
use ns2_te_aomdv.Base.{ℕ, ◌≡◌, refl, ◌==◌, not, ◌&&◌, Double, ◌≺◌}
use ns2_te_aomdv.Packet.{pt_teaomdv, Packet, Reply}
use ns2_te_aomdv.Entry.Choice.{path_find}
use ns2_te_aomdv.Table.{rt_lookup}
use ns2_te_aomdv.Agent.State.{Env, Agent, has_id, nb_lookup}
use ns2_te_aomdv.Agent.Ids.{id_get}
use ns2_te_aomdv.Agent.RecvReply.{
  learn_forward, has_route, is_open, relay_reply, pass_reply, process_reply, recv_reply, cut_trust,
}
use ns2_te_aomdv.Agent.RecvRequest.Answer.{answered, set_answered}
use ns2_te_aomdv.Agent.Budget.{
  Watch, Within, Frugal, then-Stays, done-Frugal, if-Stays, lift-Frugal, deref-Frugal, entry-Frugal,
  emit-Frugal,
}
use ns2_te_aomdv.Agent.Budget.Forward.{forward_free-Frugal}
use ns2_te_aomdv.Agent.Budget.Resolve.{find_or_add-Frugal, route_is_up-Frugal}

module _ {D : Type 0} ⦃fl : Double D⦄ (env : Env D) (w : Watch D) (b : ℕ) where
  -- An answered request stays known.
  pub set_answered-Frugal :
      (a k : ℕ) (s : Agent D) → Within w b s → Frugal w b (set_answered env a k s)
  unfolding set_answered
  set_answered-Frugal a k s v = done-Frugal (record {
    foreign = v.foreign;
    within = rw (w.noted (has_id a k) (answered env) s.bihead (λ i. (refl, refl))) v.within;
  })

  relay_reply-Frugal :
      (p : Packet D) (rp : Reply D) (s : Agent D)
      → p.ptype ≡ pt_teaomdv
      → Within w b s
      → Frugal w b (relay_reply env p rp s)
  unfolding relay_reply
  relay_reply-Frugal p rp s t v =
      then-Stays (set_answered-Frugal p.daddr rp.rp_bcast_id s v) λ _ s1 v1 _.
        then-Stays (entry-Frugal p.daddr s1 v1) λ e0 s2 v2 _.
          then-Stays (deref-Frugal (path_find e0) s2 v2) λ reverse_path s3 v3 _.
            then-Stays (entry-Frugal rp.rp_dst _ v3) λ e s4 v4 _.
              then-Stays (deref-Frugal (path_find e) s4 v4)
                λ path s5 v5 _. forward_free-Frugal env w b _ _ _ _ v5 (w.control _ t refl)

  pass_reply-Frugal :
      (p : Packet D) (rp : Reply D) (s : Agent D)
      → p.ptype ≡ pt_teaomdv
      → Within w b s
      → Frugal w b (pass_reply env p rp s)
  unfolding pass_reply
  pass_reply-Frugal p rp s t v =
      if-Stays (p.daddr == s.index) _ _ s (emit-Frugal v (w.released _)) (
        if-Stays
          (has_route env (rt_lookup s.rtable p.daddr)
            && is_open env (id_get p.daddr rp.rp_bcast_id s))
          _ _ s (relay_reply-Frugal p rp s t v) (emit-Frugal v (w.released _)))

  process_reply-Frugal :
      (p : Packet D) (rp : Reply D) (s : Agent D)
      → p.ptype ≡ pt_teaomdv
      → Within w b s
      → Frugal w b (process_reply env p rp s)
  unfolding process_reply
  process_reply-Frugal p rp s t v =
      then-Stays (find_or_add-Frugal env w b rp.rp_dst s v) λ _ s1 v1 _.
        then-Stays (entry-Frugal rp.rp_dst s1 v1) λ e s2 v2 _.
          then-Stays
            (lift-Frugal (learn_forward env s2.max_paths s2.len_diff (nb_lookup p.prev_hop s2) rp e)
              s2 v2)
            λ r s3 v3 _.
              if-Stays r.0 _ _ _
                (then-Stays (route_is_up-Frugal env w b rp.rp_dst _ v3)
                  λ _ s4 v4 _. pass_reply-Frugal p rp s4 t v4)
                (emit-Frugal v3 (w.released _))

  pub recv_reply-Frugal :
      (p : Packet D) (rp : Reply D) (s : Agent D)
      → p.ptype ≡ pt_teaomdv
      → Within w b s
      → Frugal w b (recv_reply env p rp s)
  unfolding recv_reply
  recv_reply-Frugal p rp s t v =
      if-Stays
        ((cut_trust env (nb_lookup p.prev_hop s) rp rp.fpt ≺ rp.rt)
          && not (p.prev_hop == rp.rp_src))
        _ _ s (emit-Frugal v (w.released _))
        (if-Stays (rp.rp_dst == s.index) _ _ s (emit-Frugal v (w.released _))
          (process_reply-Frugal p _ s t v))
