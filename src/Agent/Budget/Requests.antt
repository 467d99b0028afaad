-- ===== src/Agent/Budget/Requests.antt =====
-- `sendRequest` sends requests of this node only, and the methods on the waiting packets send no
-- request but by it.
use ns2_te_aomdv.Queue.{Queue}
use ns2_te_aomdv.Base.{
  count, ◌≤◌, ℕ, suc, zero, ◌+◌, refl, Option, none, some, length, is_some, ltb, ◌==◌, not, arith,
  Double, ◌≺◌,
}
use ns2_te_aomdv.Packet.{Packet, u32}
use ns2_te_aomdv.Entry.{is_up, infinity2}
use ns2_te_aomdv.Table.{rt_lookup}
use ns2_te_aomdv.Queue.{Reason, no_route, deque}
use ns2_te_aomdv.Queue.Kept.{Taken, deque-Yields}
use ns2_te_aomdv.Agent.State.{M, Env, Agent, dropped, lift, put, ◌>>=◌, ◌>>◌}
use ns2_te_aomdv.Agent.Routes.{is_even}
use ns2_te_aomdv.Agent.Request.{
  drop_waiting, drop_all_waiting, request_packet, emit_request, give_up, send_request,
}
use ns2_te_aomdv.Agent.Budget.{
  Watch, weight, Within, Ends, Frugal, stops, then-Stays, done-Frugal, if-Stays, assert-Frugal,
  lift-Stays, entry-Frugal, emit-Frugal, pay-Stays,
}

module _ {D : Type 0} ⦃fl : Double D⦄ (env : Env D) (w : Watch D) (b : ℕ) where
  -- The next packet for `dst` is taken out, and is paid for by its place in the queue.
  pub next_waiting-Stays :
      {A : Type 0} {P : A → Agent D → Type 0} (dst : ℕ) (s : Agent D) (k : M D A)
      (f : Packet D → M D A)
      → Within w b s
      → ((s' : Agent D) → Within w b s' → Ends P (k s'))
      → ((c : ℕ) (p : Packet D) (s' : Agent D)
          → c + weight w p ≤ b
          → Within w c s'
          → Ends P (f p s'))
      → Ends P (
          (lift (deque env.now dst s.rqueue) >>= λ r.
          put (record s { rqueue = r.1 }) >> elim r.0 [ none ↦ k | some p ↦ f p ])
            s)
  next_waiting-Stays {A} {P} dst s k f v h g =
      then-Stays
        (lift-Stays {R = Taken w.carries (count w.carries s.rqueue.items)}
          (deque env.now dst s.rqueue) s v
          (deque-Yields w.carries (count w.carries s.rqueue.items) env.now dst s.rqueue
            (omega arith)))
        λ r s1 v1 t. go r.0 r.1 t
    where
      go :
          (o : Option (Packet D)) (q : Queue D)
          → Taken w.carries (count w.carries s.rqueue.items) (o, q)
          → let rest : M D A = elim o [ none ↦ k | some p ↦ f p ] in
            Ends P (rest (record s { rqueue = q }))
      go none q t = let l = v.within in h _ (record { foreign = v.foreign; within = omega arith })
      go (some p) q t =
          let l = v.within in
          g (count w.counts s.effects + count w.carries q.items + w.reserve s.bihead) p _
            (omega arith) (record { foreign = v.foreign; within = omega arith })

  drop_waiting-Frugal :
      (fuel dst : ℕ) (why : Reason) (s : Agent D)
      → Within w b s
      → Frugal w b (drop_waiting env fuel dst why s)
  unfolding drop_waiting
  drop_waiting-Frugal zero dst why s v = stops
  drop_waiting-Frugal (suc fuel) dst why s v =
      next_waiting-Stays dst s _ _ v (λ s' v'. done-Frugal v')
        λ c p s' l v'.
          then-Stays (pay-Stays (dropped p why) p s' (w.lost p why) v' l)
            λ _ s2 v2 _. drop_waiting-Frugal fuel dst why s2 v2

  pub drop_all_waiting-Frugal :
      (dst : ℕ) (why : Reason) (s : Agent D)
      → Within w b s
      → Frugal w b (drop_all_waiting env dst why s)
  unfolding drop_all_waiting
  drop_all_waiting-Frugal dst why s v =
      drop_waiting-Frugal (suc (length s.rqueue.items)) dst why s v

  -- The request of this node is no copy of another's.
  emit_request-Frugal : (dst : ℕ) (s : Agent D) → Within w b s → Frugal w b (emit_request env dst s)
  unfolding emit_request request_packet
  emit_request-Frugal dst s v = then-Stays (entry-Frugal dst _ v) λ e s1 v1 _.
      then-Stays
        (assert-Frugal (is_even (u32 (s1.seqno + 2))) _
          (record { foreign = v1.foreign; within = v1.within }))
        λ _ s2 v2 _. emit-Frugal v2 (w.sent _ _ (w.own _ _ s1.index v1.foreign refl refl refl))

  pub send_request-Frugal :
      (dst : ℕ) (s : Agent D) → Within w b s → Frugal w b (send_request env dst s)
  unfolding send_request give_up
  send_request-Frugal dst s v =
      then-Stays (assert-Frugal (is_some (rt_lookup s.rtable dst)) s v) λ _ s1 v1 _.
        then-Stays (entry-Frugal dst s1 v1) λ e s2 v2 _.
          if-Stays (is_up e.flags) _ _ s2
            (then-Stays (assert-Frugal (not (e.hops == infinity2)) s2 v2)
              λ _ s3 v3 _. emit-Frugal v3 (w.released _))
            (if-Stays (env.now ≺ e.req_timeout) _ _ s2 (emit-Frugal v2 (w.released _)) (
              if-Stays (ltb 3 e.req_cnt) _ _ s2
                (then-Stays (drop_all_waiting-Frugal dst no_route _ v2)
                  λ _ s3 v3 _. emit-Frugal v3 (w.released _))
                (emit_request-Frugal dst s2 v2)))
