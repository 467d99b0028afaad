-- ===== src/Agent/Invariant/Reply.antt =====
-- `recvReply` keeps the agent valid.
use ns2_te_aomdv.Base.{
  arith, ◌≡◌, ◌∙◌, sym, subst, Bool, true, false, ◌&&◌, not, some, ◌==◌, if◌then◌else◌,
  update_first, Double, ◌≺◌, ◌⊕◌,
}
use ns2_te_aomdv.Packet.{Packet, Reply}
use ns2_te_aomdv.Entry.Choice.{path_find}
use ns2_te_aomdv.Table.{rt_lookup, has_dst}
use ns2_te_aomdv.Agent.State.{
  Env, Agent, ◌>>◌, entry, emit, freed, lift, nb_lookup, has_id, set_head_path,
}
use ns2_te_aomdv.Agent.Ids.{id_get}
use ns2_te_aomdv.Agent.Forward.{deref, set_path_expire}
use ns2_te_aomdv.Agent.Resolve.{find_or_add}
use ns2_te_aomdv.Agent.RecvRequest.Answer.{route_is_up, advertise, set_answered, answered}
use ns2_te_aomdv.Agent.RecvReply.{
  learn_forward, relay_reply, pass_reply, process_reply, recv_reply, is_open, has_route, cut_trust,
}
use ns2_te_aomdv.Agent.Invariant.{IsGood, IsValid, Post, returns, then-Post, lift-Post}
use ns2_te_aomdv.Agent.Invariant.Entries.{set_head_path-IsGood}
use ns2_te_aomdv.Agent.Invariant.Forward.{forward-Post}
use ns2_te_aomdv.Agent.Invariant.Learn.{learn_forward-IsGood}
use ns2_te_aomdv.Agent.Invariant.Waiting.{valid-Keeps}
use ns2_te_aomdv.Agent.Invariant.Waiting.Dropped.{route_is_up-Post}
use ns2_te_aomdv.Agent.Invariant.Rules.{
  Valid, stay, if-Post, deref-Valid, set_entry-IsValid, mark_error-IsGood, advertise-IsGood,
  entry-Valid, find_or_add-Post,
}

module _ {D : Type 0} ⦃fl : Double D⦄ (env : Env D) where
  relay_reply-Post :
      (p : Packet D) (rp : Reply D) (s : Agent D) → IsValid s → Post Valid (relay_reply env p rp s)
  unfolding relay_reply set_answered
  relay_reply-Post p rp s v =
      then-Post (entry p.daddr) _ s1 (entry-Valid env p.daddr s1 v1) λ e0 s2 h2.
        then-Post (deref (path_find e0)) _ s2 (deref-Valid _ s2 h2.1) λ reverse_path s3 v3.
          let s4 : Agent D = record s3 {
            rtable = update_first (has_dst rp.rp_dst) (advertise env) s3.rtable;
          } in
          then-Post (entry rp.rp_dst) _ s4
            (entry-Valid env rp.rp_dst s4
              (set_entry-IsValid rp.rp_dst (advertise env) s3 (advertise-IsGood env) (λ _ d. d) v3))
            λ e s5 h5. then-Post (deref (path_find e)) _ s5 (deref-Valid _ s5 h5.1) λ path s6 v6.
              let s7 : Agent D = record s6 {
                rtable =
                    update_first (has_dst p.daddr)
                      (set_head_path (set_path_expire (env.now ⊕ fl.lit 10 1))) s6.rtable;
              } in
              let v7 : IsValid s7 =
                set_entry-IsValid p.daddr _ s6
                  (λ e g. (set_head_path-IsGood (env.now ⊕ fl.lit 10 1) e g).1) (λ _ d. d) v6 in
              let s8 : Agent D = record s7 {
                rtable =
                    update_first (has_dst rp.rp_dst) (λ e. record e { error = true }) s7.rtable;
              } in
              let v8 : IsValid s8 =
                set_entry-IsValid rp.rp_dst _ s7 mark_error-IsGood (λ _ d. d) v7 in
              stay s8 v8 (forward-Post env s8.rqueue (some p.daddr) _ _ s8 (valid-Keeps s8 v8))
    where
      s1 : Agent D
      s1 = record s {
        bihead = update_first (has_id p.daddr rp.rp_bcast_id) (answered env) s.bihead;
      }

      v1 : IsValid s1
      v1 = record { good = v.good; bounded = v.bounded }

  pass_reply-Post :
      (p : Packet D) (rp : Reply D) (s : Agent D) → IsValid s → Post Valid (pass_reply env p rp s)
  unfolding pass_reply
  pass_reply-Post p rp s v =
      if-Post Valid (p.daddr == s.index) _ _ s
        (returns (record { good = v.good; bounded = v.bounded }))
        (if-Post Valid
          (has_route env (rt_lookup s.rtable p.daddr)
            && is_open env (id_get p.daddr rp.rp_bcast_id s))
          _ _ s (relay_reply-Post p rp s v)
          (returns (record { good = v.good; bounded = v.bounded })))

  used-Post :
      (b : Bool) (p : Packet D) (rp : Reply D) (s : Agent D)
      → IsValid s
      → Post Valid
          ((if b then (do route_is_up env rp.rp_dst; pass_reply env p rp) else emit (freed p)) s)
  used-Post true p rp s v =
      then-Post (route_is_up env rp.rp_dst) _ s (route_is_up-Post env rp.rp_dst s v)
        λ _ s1 v1. pass_reply-Post p rp s1 v1
  used-Post false p rp s v = returns (record { good = v.good; bounded = v.bounded })

  process_reply-Post :
      (p : Packet D) (rp : Reply D) (s : Agent D)
      → IsValid s
      → Post Valid (process_reply env p rp s)
  unfolding process_reply
  process_reply-Post p rp s v =
      then-Post (find_or_add env rp.rp_dst) _ s (find_or_add-Post env rp.rp_dst s v) λ _ s1 v1.
        then-Post (entry rp.rp_dst) _ s1 (entry-Valid env rp.rp_dst s1 v1) λ e s2 h2.
          then-Post
            (lift (learn_forward env s2.max_paths s2.len_diff (nb_lookup p.prev_hop s2) rp e)) _ s2
            (lift-Post (λ r. IsGood r.1 × (r.1.dst ≡ e.dst)) _ s2
              (learn_forward-IsGood env s2.max_paths s2.len_diff (nb_lookup p.prev_hop s2) rp e h2.0
                (omega (arith, h2.1.good.limit))))
            λ r s3 h3.
              let v3 : IsValid s3 = subst IsValid (sym h3.0) h2.1 in
              used-Post r.0 p rp
                (record s3 { rtable = update_first (has_dst rp.rp_dst) (λ _. r.1) s3.rtable })
                (set_entry-IsValid rp.rp_dst (λ _. r.1) s3 (λ _ _. h3.1.0) (λ _ _. h3.1.1 ∙ h2.2)
                  v3)

  -- `recvReply` keeps the agent valid, whatever reply comes in: it returns, or stops at an assertion
  -- or a bad pointer of the code, and its loop over the waiting packets ends.
  pub recv_reply-Post :
      (p : Packet D) (rp : Reply D) (s : Agent D) → IsValid s → Post Valid (recv_reply env p rp s)
  unfolding recv_reply
  recv_reply-Post p rp s v =
      if-Post Valid ((rp'.fpt ≺ rp.rt) && not (p.prev_hop == rp.rp_src)) (emit (freed p)) _ s
        (returns (record { good = v.good; bounded = v.bounded }))
        (if-Post Valid (rp.rp_dst == s.index) (emit (freed p)) (process_reply env p rp') s
          (returns (record { good = v.good; bounded = v.bounded })) (process_reply-Post p rp' s v))
    where
      rp' : Reply D
      rp' = record rp { fpt = cut_trust env (nb_lookup p.prev_hop s) rp rp.fpt }
