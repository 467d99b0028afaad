-- ===== src/Agent/Invariant/Request.antt =====
-- `recvRequest` keeps the agent valid.
use ns2_te_aomdv.Base.{
  arith, ◌≡◌, ◌∙◌, ℕ, sym, subst, Bool, true, false, Option, none, some, is_some, not, ◌==◌,
  update_first, Double, ◌⊖◌,
}
use ns2_te_aomdv.Packet.{Packet, Request}
use ns2_te_aomdv.Entry.{Entry}
use ns2_te_aomdv.Entry.Choice.{path_find}
use ns2_te_aomdv.Table.{rt_lookup, has_dst}
use ns2_te_aomdv.Agent.State.{
  ◌>>=◌, ◌>>◌, M, Env, Agent, entry, set_entry, when, emit, freed, lift, assert, nb_lookup, modify,
  has_id,
}
use ns2_te_aomdv.Agent.Ids.{id_get, id_insert}
use ns2_te_aomdv.Agent.Send.{send_reply}
use ns2_te_aomdv.Agent.Routes.{is_even}
use ns2_te_aomdv.Agent.Neighbors.{nb_insert}
use ns2_te_aomdv.Agent.Forward.{deref}
use ns2_te_aomdv.Agent.Resolve.{find_or_add}
use ns2_te_aomdv.Agent.RecvRequest.{learn_reverse}
use ns2_te_aomdv.Agent.RecvRequest.Answer.{
  route_is_up, reply_own, reply_route, propagate, advertise, set_answered, answered, answer,
  process_request, recv_request, is_distrusted, is_recent, reply_seqno,
}
use ns2_te_aomdv.Agent.Invariant.{IsGood, IsValid, Post, returns, then-Post, lift-Post}
use ns2_te_aomdv.Agent.Invariant.Forward.{forward-Post}
use ns2_te_aomdv.Agent.Invariant.Learn.{learn_reverse-IsGood}
use ns2_te_aomdv.Agent.Invariant.Waiting.{valid-Keeps}
use ns2_te_aomdv.Agent.Invariant.Waiting.Dropped.{route_is_up-Post}
use ns2_te_aomdv.Agent.Invariant.Rules.{
  Valid, stay, if-Post, when-Post, deref-Valid, assert-Valid, set_entry-IsValid, mark_error-IsGood,
  advertise-IsGood, entry-Valid, find_or_add-Post, when-nb_insert-Valid,
}

module _ {D : Type 0} ⦃fl : Double D⦄ (env : Env D) where
  when-id_insert-Valid :
      (b : Bool) (src bid : ℕ) (s : Agent D)
      → IsValid s
      → Post Valid (when b (modify (id_insert env src bid)) s)
  unfolding id_insert
  when-id_insert-Valid true src bid s v = returns (record { good = v.good; bounded = v.bounded })
  when-id_insert-Valid false src bid s v = returns v

  reply_own-Post :
      (p : Packet D) (rq : Request D) (s : Agent D) → IsValid s → Post Valid (reply_own env p rq s)
  unfolding reply_own send_reply
  reply_own-Post p rq s v =
      then-Post (when (not (is_some (nb_lookup p.saddr s))) (nb_insert env p.saddr)) _ s1
        (when-nb_insert-Valid env _ p.saddr s1 v1)
        λ _ s2 v2.
          then-Post (deref (nb_lookup p.saddr s2)) _ s2 (deref-Valid _ s2 v2)
            λ nb s3 v3. returns (record { good = v3.good; bounded = v3.bounded })
    where
      s1 : Agent D
      s1 = record s { seqno = reply_seqno env s.seqno rq.rq_dst_seqno }

      v1 : IsValid s1
      v1 = record { good = v.good; bounded = v.bounded }

  -- The first request that is answered: what the branch of `recvRequest` does with the reverse path.
  reply_first-Post :
      (p : Packet D) (rq : Request D) (s0 s : Agent D)
      → IsValid s
      → Post Valid (
          (do
            b ← deref (id_get rq.rq_src rq.rq_bcast_id s0)
            when (b.count == 0) (do
              set_answered env rq.rq_src rq.rq_bcast_id
              set_entry rq.rq_dst (advertise env)
              e ← entry rq.rq_dst
              set_entry rq.rq_dst (λ e. record e { error = true })
              path ← deref (path_find e)
              send_reply env rq.rq_src e.advertised_hops rq.rq_dst e.seqno
                  (path.expire ⊖ env.now)
                  rq.rq_timestamp
                  p.saddr
                  rq.rq_bcast_id
                  path.lasthop
                  path.fpt
                  path.rpt))
            s)
  unfolding set_answered send_reply
  reply_first-Post p rq s0 s v =
      then-Post (deref (id_get rq.rq_src rq.rq_bcast_id s0)) _ s (deref-Valid _ s v) λ b s1 v1.
        when-Post (b.count == 0) _ s1 v1 (
          let s2 : Agent D = record s1 {
            bihead = update_first (has_id rq.rq_src rq.rq_bcast_id) (answered env) s1.bihead;
            rtable = update_first (has_dst rq.rq_dst) (advertise env) s1.rtable;
          } in
          let v2 : IsValid s2 = record {
            good =
                (set_entry-IsValid rq.rq_dst (advertise env) s1 (advertise-IsGood env) (λ _ d. d)
                  v1).good;
            bounded = v1.bounded;
          } in
          then-Post (entry rq.rq_dst) _ s2 (entry-Valid env rq.rq_dst s2 v2) λ e s3 h3.
            let s4 : Agent D = record s3 {
              rtable = update_first (has_dst rq.rq_dst) (λ e. record e { error = true }) s3.rtable;
            } in
            then-Post (deref (path_find e)) _ s4
              (deref-Valid _ s4
                (set_entry-IsValid rq.rq_dst _ s3 mark_error-IsGood (λ _ d. d) h3.1))
              λ path s5 v5. returns (record { good = v5.good; bounded = v5.bounded }))

  reply_route-Post :
      (reverse_path : Bool) (p : Packet D) (rq : Request D) (s : Agent D)
      → IsValid s
      → Post Valid (reply_route env reverse_path p rq s)
  unfolding reply_route
  reply_route-Post reverse_path p rq s v =
      then-Post (entry rq.rq_dst) _ s (entry-Valid env rq.rq_dst s v) λ e s1 h1.
        then-Post (assert (is_even e.seqno)) _ s1 (assert-Valid _ s1 h1.1) λ _ s2 v2.
          then-Post (when reverse_path _) _ s2
            (when-Post reverse_path _ s2 v2 (reply_first-Post p rq s2 s2 v2))
            λ _ s3 v3. returns (record { good = v3.good; bounded = v3.bounded })

  propagate-Post :
      (kill : Bool) (p : Packet D) (rq : Request D) (rt : Option (Entry D)) (s : Agent D)
      → IsValid s
      → Post Valid (propagate env kill p rq rt s)
  unfolding propagate
  propagate-Post true p rq rt s v = returns (record { good = v.good; bounded = v.bounded })
  propagate-Post false p rq rt s v =
      then-Post (entry rq.rq_src) _ s1 (entry-Valid env rq.rq_src s1 v1) λ e s2 h2.
        then-Post (deref (path_find e)) _ s2 (deref-Valid _ s2 h2.1)
          λ path s3 v3. stay s3 v3 (forward-Post env s3.rqueue none _ _ s3 (valid-Keeps s3 v3))
    where
      s1 : Agent D
      s1 = record s { rtable = update_first (has_dst rq.rq_src) (advertise env) s.rtable }

      v1 : IsValid s1
      v1 = set_entry-IsValid rq.rq_src (advertise env) s (advertise-IsGood env) (λ _ d. d) v

  answer-Post :
      (kill reverse_path : Bool) (p : Packet D) (rq : Request D) (s : Agent D)
      → IsValid s
      → Post Valid (answer env kill reverse_path p rq s)
  unfolding answer
  answer-Post kill reverse_path p rq s v =
      if-Post Valid (rq.rq_dst == s.index) _ _ s (reply_own-Post p rq s v) (
        if-Post Valid (is_recent env rq.rq_dst_seqno (rt_lookup s.rtable rq.rq_dst)) _ _ s
          (reply_route-Post reverse_path p rq s v)
          (propagate-Post kill p rq (rt_lookup s.rtable rq.rq_dst) s v))

  process_request-Post :
      (kill : Bool) (p : Packet D) (rq : Request D) (s : Agent D)
      → IsValid s
      → Post Valid (process_request env kill p rq s)
  unfolding process_request
  process_request-Post kill p rq s v =
      then-Post (find_or_add env rq.rq_src) _ s (find_or_add-Post env rq.rq_src s v) λ _ s1 v1.
        then-Post (entry rq.rq_src) _ s1 (entry-Valid env rq.rq_src s1 v1) λ e s2 h2.
          then-Post (lift (learn_reverse env s2.index s2.max_paths s2.len_diff p rq e)) _ s2
            (lift-Post (λ r. IsGood r.1 × (r.1.dst ≡ e.dst)) _ s2
              (learn_reverse-IsGood env s2.index s2.max_paths s2.len_diff p rq e h2.0
                (omega (arith, h2.1.good.limit))))
            λ r s3 h3.
              let v3 : IsValid s3 = subst IsValid (sym h3.0) h2.1 in
              learnt r.0
                (record s3 { rtable = update_first (has_dst rq.rq_src) (λ _. r.1) s3.rtable })
                (set_entry-IsValid rq.rq_src (λ _. r.1) s3 (λ _ _. h3.1.0) (λ _ _. h3.1.1 ∙ h2.2)
                  v3)
    where
      learnt :
          (o : Option Bool) (s : Agent D)
          → IsValid s
          → Post Valid (
              (elim o as (λ _. M D (Unit {0})) [
                | none ↦ emit (freed p)
                | some reverse_path ↦ (do
                  route_is_up env rq.rq_src
                  answer env kill reverse_path p rq)
              ])
                s)
      learnt none s v = returns (record { good = v.good; bounded = v.bounded })
      learnt (some reverse_path) s v =
          then-Post (route_is_up env rq.rq_src) _ s (route_is_up-Post env rq.rq_src s v)
            λ _ s1 v1. answer-Post kill reverse_path p rq s1 v1

  -- `recvRequest` keeps the agent valid, whatever request comes in: it returns, or stops at an
  -- assertion or a bad pointer of the code, and its loop over the waiting packets ends.
  pub recv_request-Post :
      (p : Packet D) (rq : Request D) (s : Agent D)
      → IsValid s
      → Post Valid (recv_request env p rq s)
  unfolding recv_request
  recv_request-Post p rq s v =
      if-Post Valid (rq.rq_src == s.index) _ _ s
        (returns (record { good = v.good; bounded = v.bounded }))
        (if-Post Valid (is_distrusted env p _) _ _ s
          (returns (record { good = v.good; bounded = v.bounded }))
          (then-Post (when (not kill) (modify (id_insert env rq.rq_src rq.rq_bcast_id))) _ s
            (when-id_insert-Valid _ rq.rq_src rq.rq_bcast_id s v)
            λ _ s1 v1. process_request-Post kill p _ s1 v1))
    where
      kill : Bool
      kill = is_some (id_get rq.rq_src rq.rq_bcast_id s)
