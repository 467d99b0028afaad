-- ===== src/Agent/Budget/Answer.antt =====
-- `recvRequest` passes a request on at most once: a known one never, and another makes it known.
use ns2_te_aomdv.Base.{
  ℕ, ◌≤◌, ◌≡◌, refl, Bool, true, false, Option, none, some, is_some, ◌==◌, not, Double,
}
use ns2_te_aomdv.Packet.{pt_teaomdv, Packet, Request, rreq}
use ns2_te_aomdv.Entry.{Entry}
use ns2_te_aomdv.Entry.Choice.{path_find}
use ns2_te_aomdv.Table.{rt_lookup}
use ns2_te_aomdv.Agent.State.{Env, Agent, M, nb_lookup, emit, freed, ◌>>◌}
use ns2_te_aomdv.Agent.Ids.{id_get}
use ns2_te_aomdv.Agent.Routes.{is_even}
use ns2_te_aomdv.Agent.Neighbors.{nb_insert}
use ns2_te_aomdv.Agent.Forward.{forward}
use ns2_te_aomdv.Agent.RecvRequest.{learn_reverse}
use ns2_te_aomdv.Agent.RecvRequest.Answer.{
  reply_own, reply_route, propagate, is_recent, answer, process_request, route_is_up,
}
use ns2_te_aomdv.Agent.Budget.{
  Watch, Within, Frugal, then-Stays, if-Stays, when-Frugal, assert-Frugal, lift-Frugal,
  deref-Frugal, entry-Frugal, emit-Frugal, weaken-Frugal,
}
use ns2_te_aomdv.Agent.Budget.Forward.{send_reply-Frugal, nb_insert-Frugal}
use ns2_te_aomdv.Agent.Budget.Resolve.{find_or_add-Frugal, route_is_up-Frugal}
use ns2_te_aomdv.Agent.Budget.Reply.{set_answered-Frugal}

module _ {D : Type 0} ⦃fl : Double D⦄ (env : Env D) (w : Watch D) (c b : ℕ) where
  -- What is to be shown of the one packet that a handler of the request `rq` may send.
  abbrev MaySend : Request D → Type 0
  MaySend rq =
      (q : Packet D) (s : Agent D)
      → q.ptype ≡ pt_teaomdv
      → (rq' : Request D) → q.header ≡ rreq rq'
      → rq'.rq_src ≡ rq.rq_src
      → rq'.rq_bcast_id ≡ rq.rq_bcast_id
      → Within w c s
      → Frugal w b (forward env none q (fl.lit 1 1) s)

  propagate-Frugal :
      (kill : Bool) (p : Packet D) (rq : Request D) (o : Option (Entry D)) (s : Agent D)
      → p.ptype ≡ pt_teaomdv
      → c ≤ b
      → (kill ≡ false → MaySend rq)
      → Within w c s
      → Frugal w b (propagate env kill p rq o s)
  unfolding propagate
  propagate-Frugal true p rq o s t l h v = weaken-Frugal l (emit-Frugal v (w.released _))
  propagate-Frugal false p rq o s t l h v = then-Stays (entry-Frugal rq.rq_src _ v) λ e s1 v1 _.
      then-Stays (deref-Frugal (path_find e) s1 v1)
        λ path s2 v2 _. h refl _ s2 t _ refl refl refl v2

  reply_own-Frugal :
      (p : Packet D) (rq : Request D) (s : Agent D)
      → Within w c s
      → Frugal w c (reply_own env p rq s)
  unfolding reply_own
  reply_own-Frugal p rq s v =
      then-Stays
        (when-Frugal (not (is_some (nb_lookup p.saddr s))) (nb_insert env p.saddr) _ v
          (nb_insert-Frugal env w c p.saddr _ v))
        λ _ s1 v1 _. then-Stays (deref-Frugal (nb_lookup p.saddr s1) s1 v1) λ nb s2 v2 _.
          then-Stays (send_reply-Frugal env w c _ _ _ _ _ _ _ _ _ _ _ s2 v2)
            λ _ s3 v3 _. emit-Frugal v3 (w.released _)

  reply_route-Frugal :
      (reverse_path : Bool) (p : Packet D) (rq : Request D) (s : Agent D)
      → Within w c s
      → Frugal w c (reply_route env reverse_path p rq s)
  unfolding reply_route
  reply_route-Frugal reverse_path p rq s v = then-Stays (entry-Frugal rq.rq_dst s v) λ e s1 v1 _.
      then-Stays (assert-Frugal (is_even e.seqno) s1 v1) λ _ s2 v2 _.
        then-Stays
          (when-Frugal reverse_path _ s2 v2 (
            then-Stays (deref-Frugal (id_get rq.rq_src rq.rq_bcast_id s2) s2 v2) λ i s3 v3 _.
              when-Frugal (i.count == 0) _ s3 v3 (
                then-Stays (set_answered-Frugal env w c rq.rq_src rq.rq_bcast_id s3 v3) λ _ s4 v4 _.
                  then-Stays (entry-Frugal rq.rq_dst _ v4) λ e2 s5 v5 _.
                    then-Stays (deref-Frugal (path_find e2) _ v5)
                      λ path s6 v6 _. send_reply-Frugal env w c _ _ _ _ _ _ _ _ _ _ _ s6 v6)))
          λ _ s7 v7 _. emit-Frugal v7 (w.released _)

  answer-Frugal :
      (kill reverse_path : Bool) (p : Packet D) (rq : Request D) (s : Agent D)
      → p.ptype ≡ pt_teaomdv
      → c ≤ b
      → (kill ≡ false → MaySend rq)
      → Within w c s
      → Frugal w b (answer env kill reverse_path p rq s)
  unfolding answer
  answer-Frugal kill reverse_path p rq s t l h v =
      if-Stays (rq.rq_dst == s.index) _ _ s (weaken-Frugal l (reply_own-Frugal p rq s v)) (
        if-Stays (is_recent env rq.rq_dst_seqno (rt_lookup s.rtable rq.rq_dst)) _ _ s
          (weaken-Frugal l (reply_route-Frugal reverse_path p rq s v))
          (propagate-Frugal kill p rq _ s t l h v))

  pub process_request-Frugal :
      (kill : Bool) (p : Packet D) (rq : Request D) (s : Agent D)
      → p.ptype ≡ pt_teaomdv
      → c ≤ b
      → (kill ≡ false → MaySend rq)
      → Within w c s
      → Frugal w b (process_request env kill p rq s)
  unfolding process_request
  process_request-Frugal kill p rq s t l h v =
      then-Stays (find_or_add-Frugal env w c rq.rq_src s v) λ _ s1 v1 _.
        then-Stays (entry-Frugal rq.rq_src s1 v1) λ e s2 v2 _.
          then-Stays
            (lift-Frugal (learn_reverse env s2.index s2.max_paths s2.len_diff p rq e) s2 v2)
            λ r s3 v3 _. go r.0 _ v3
    where
      go :
          (o : Option Bool) (s' : Agent D)
          → Within w c s'
          → let rest : M D (Unit {0}) = elim o [
            | none ↦ emit (freed p)
            | some reverse_path ↦ route_is_up env rq.rq_src >> answer env kill reverse_path p rq
          ] in
            Frugal w b (rest s')
      go none s' v' = weaken-Frugal l (emit-Frugal v' (w.released _))
      go (some reverse_path) s' v' =
          then-Stays (route_is_up-Frugal env w c rq.rq_src s' v')
            λ _ s4 v4 _. answer-Frugal kill reverse_path p rq s4 t l h v4
