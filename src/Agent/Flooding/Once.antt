-- ===== src/Agent/Flooding/Once.antt =====
-- `recvRequest` passes a request on at most once: a known one never, and another makes it known.
use ns2_te_aomdv.Base.{
  ℕ, suc, ◌+◌, ◌-◌, ◌≤◌, ◌≡◌, refl, sym, ◌∙◌, Bool, true, false, Bool-cases, inl, inr, none, any,
  count, is_some, find-any, ◌==◌, not, ◌&&◌, arith, Double,
}
use ns2_te_aomdv.Packet.{Packet, Header, Request, rreq, pt_teaomdv}
use ns2_te_aomdv.Agent.State.{Env, Agent, has_id, nb_lookup, when, modify, ◌>>◌}
use ns2_te_aomdv.Agent.Ids.{id_get, id_insert}
use ns2_te_aomdv.Agent.RecvRequest.Answer.{
  process_request, is_distrusted, recv_request, request_rpt,
}
use ns2_te_aomdv.Agent.Budget.{Within, Frugal, if-Stays, emit-Frugal}
use ns2_te_aomdv.Agent.Budget.Forward.{forward-Frugal, forward_free-Frugal}
use ns2_te_aomdv.Agent.Budget.Answer.{process_request-Frugal}
use ns2_te_aomdv.Agent.Flooding.{is_copy, copies, request_watch}

same_ids : (a k src id : ℕ) → a == src && k == id ≡ true → (a ≡ src) × (k ≡ id)
same_ids a k src id h = (ground arith, ground arith)

module _ {D : Type 0} (src id : ℕ) where
  same-copy :
      (h : Header D) (rq rq' : Request D)
      → h ≡ rreq rq'
      → rq'.rq_src ≡ rq.rq_src
      → rq'.rq_bcast_id ≡ rq.rq_bcast_id
      → is_copy src id h ≡ is_copy src id (rreq rq)
  same-copy h rq rq' e e1 e2 = rw e (rw e1 (rw e2 refl))

module _ {D : Type 0} ⦃fl : Double D⦄ (env : Env D) (src id b : ℕ) where
  -- A request that is not known is within the budget once more.
  copies-lt :
      (a k : ℕ) (s : Agent D)
      → is_some (id_get a k s) ≡ false
      → a == src && k == id ≡ true
      → Within (request_watch src id) b s
      → suc (copies src id s.effects + count (λ p. is_copy src id p.header) s.rqueue.items) ≤ b
  unfolding id_get
  copies-lt a k s h e v =
      let q = same_ids a k src id e in
      let known : any (has_id src id) s.bihead ≡ false =
        rw (sym q.0) (rw (sym q.1) (sym (find-any (has_id a k) s.bihead) ∙ h)) in
      let l : copies src id s.effects + count (λ p. is_copy src id p.header) s.rqueue.items + 1
          ≤ b =
        simp known at v.within in
      omega arith

  -- A new request is made known, and may then be passed on.
  process_new_lem :
      (p : Packet D) (rq : Request D) (s : Agent D)
      → p.ptype ≡ pt_teaomdv
      → is_some (id_get rq.rq_src rq.rq_bcast_id s) ≡ false
      → Within (request_watch src id) b s
      → Frugal
          (request_watch src id)
          b
          (process_request env false p rq (id_insert env rq.rq_src rq.rq_bcast_id s))
  unfolding id_insert
  process_new_lem p rq s t k v = elim (Bool-cases (is_copy src id (rreq rq))) [
    | inl copy ↦
        let l = copies-lt rq.rq_src rq.rq_bcast_id s k copy v in
        process_request-Frugal env (request_watch src id) (b - 1) b false p rq _ t (omega arith)
          (λ _ q s' _ _ _ _ _ v'.
            forward-Frugal env (request_watch src id) (b - 1) b none q (fl.lit 1 1) s' v'
              (ground arith))
          (record { foreign = v.foreign; within = rw copy (omega arith) })
    | inr other ↦
        process_request-Frugal env (request_watch src id) b b false p rq _ t (omega arith)
          (λ _ q s' _ rq' e e1 e2 v'.
            forward_free-Frugal env (request_watch src id) b none q (fl.lit 1 1) s' v'
              (same-copy src id q.header rq rq' e e1 e2 ∙ other))
          (record { foreign = v.foreign; within = rw other v.within })
  ]

  -- The request is known or not, and processed.
  process_any_lem :
      (known : Bool) (p : Packet D) (rq : Request D) (s : Agent D)
      → p.ptype ≡ pt_teaomdv
      → is_some (id_get rq.rq_src rq.rq_bcast_id s) ≡ known
      → Within (request_watch src id) b s
      → Frugal (request_watch src id) b (
          (when (not known) (modify (id_insert env rq.rq_src rq.rq_bcast_id))
              >> process_request env known p rq)
            s)
  process_any_lem true p rq s t k v =
      process_request-Frugal env (request_watch src id) b b true p rq s t (omega arith) (λ e. cc) v
  process_any_lem false p rq s t k v = process_new_lem p rq s t k v

  pub recv_request-Frugal :
      (p : Packet D) (rq : Request D) (s : Agent D)
      → p.ptype ≡ pt_teaomdv
      → Within (request_watch src id) b s
      → Frugal (request_watch src id) b (recv_request env p rq s)
  unfolding recv_request
  recv_request-Frugal p rq s t v = if-Stays (rq.rq_src == s.index) _ _ s (emit-Frugal v refl) (
      if-Stays (is_distrusted env p (record rq { rpt = request_rpt env (nb_lookup p.saddr s) rq }))
        _ _ s (emit-Frugal v refl) (process_any_lem _ p _ s t refl v))
