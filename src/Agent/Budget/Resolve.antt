-- ===== src/Agent/Budget/Resolve.antt =====
-- `rt_resolve`, `rt_purge` and the loops that send waiting packets pass on no request.
use ns2_te_aomdv.Queue.{Queue, no_route}
use ns2_te_aomdv.Agent.State.{dropped}
use ns2_te_aomdv.Base.{
  true, ◌+◌, count, ◌≤◌, arith, ℕ, suc, zero, refl, Option, none, some, List, [], ◌∷◌, length,
  is_some, ◌==◌, not, ◌&&◌, Double, ◌⊕◌, ◌≺◌,
}
use ns2_te_aomdv.Packet.{Packet}
use ns2_te_aomdv.Entry.{Entry, is_up, is_down, infinity2, path_purge, path_empty}
use ns2_te_aomdv.Table.{rt_lookup, rt_add}
use ns2_te_aomdv.Queue.{Reason, rtexpire, enque, find_dst}
use ns2_te_aomdv.Queue.Kept.{Added, enque-Yields}
use ns2_te_aomdv.Agent.State.{Env, Agent, set_entry, ◌>>◌}
use ns2_te_aomdv.Agent.Resolve.{
  find_or_add, report_drop, buffer, refuse, rt_resolve, forward_waiting, expire_entry, purge_entry,
  purge_entries, rt_purge, is_in_repair,
}
use ns2_te_aomdv.Agent.RecvRequest.Answer.{serve_waiting, route_is_up, reset_soft_state}
use ns2_te_aomdv.Agent.Forward.{no_delay}
use ns2_te_aomdv.Agent.Budget.{
  Watch, weight, Within, Frugal, returns, stops, then-Stays, done-Frugal, if-Stays, when-Frugal,
  assert-Frugal, lift-Frugal, lift-Stays, entry-Frugal, pay-Stays, weaken-Frugal,
}
use ns2_te_aomdv.Agent.Budget.Forward.{send_error-Frugal, forward-Frugal}
use ns2_te_aomdv.Agent.Budget.Requests.{
  next_waiting-Stays, send_request-Frugal, drop_all_waiting-Frugal,
}

module _ {D : Type 0} ⦃fl : Double D⦄ (env : Env D) (w : Watch D) (b : ℕ) where
  pub find_or_add-Frugal :
      (dst : ℕ) (s : Agent D) → Within w b s → Frugal w b (find_or_add env dst s)
  unfolding find_or_add
  find_or_add-Frugal dst s v = if-Stays (is_some (rt_lookup s.rtable dst)) _ _ s (done-Frugal v) (
      then-Stays (lift-Frugal (rt_add env.garbage_hops dst s.rtable) s v)
        λ t s1 v1 _. done-Frugal v)

module _ {D : Type 0} ⦃fl : Double D⦄ (env : Env D) (w : Watch D) (c b : ℕ) where
  pub buffer-Frugal :
      (p : Packet D) (s : Agent D) → c + weight w p ≤ b → Within w c s → Frugal w b (buffer env p s)
  unfolding buffer
  buffer-Frugal p s l v =
      then-Stays
        (lift-Stays {R = Added w.carries (count w.carries s.rqueue.items + weight w p)}
          (enque env.now p s.rqueue) s v
          (enque-Yields w.carries (count w.carries s.rqueue.items)
            (count w.carries s.rqueue.items + weight w p) env.now p s.rqueue
            (λ t. w.same _ _ refl refl refl) (omega arith) (omega arith)))
        λ r s1 v1 k. go r.0 r.1 k
    where
      go :
          (o : Option (Packet D × Reason)) (q : Queue D)
          → Added w.carries (count w.carries s.rqueue.items + weight w p) (o, q)
          → Frugal w b (report_drop env o (record s { rqueue = q }))
      go none q k =
          let m = v.within in done-Frugal (record { foreign = v.foreign; within = omega arith })
      go (some r) q k =
          let m = v.within in
          pay-Stays {c = count w.counts s.effects + count w.carries q.items + w.reserve s.bihead}
            (dropped r.0 r.1) r.0 _ (w.lost r.0 r.1)
            (record { foreign = v.foreign; within = omega arith }) (omega arith)

  refuse-Frugal :
      (p : Packet D) (e : Entry D) (s : Agent D)
      → c + weight w p ≤ b
      → Within w c s
      → Frugal w b (refuse env p e s)
  unfolding refuse
  refuse-Frugal p e s l v = then-Stays (assert-Frugal (is_down e.flags) s v) λ _ s1 v1 _.
      then-Stays (send_error-Frugal env w c _ _ s1 v1)
        λ _ s2 v2 _. pay-Stays (dropped p no_route) p s2 (w.lost p no_route) v2 l

  -- A packet that is to be routed is paid for by itself.
  pub rt_resolve-Frugal :
      (p : Packet D) (s : Agent D)
      → c + weight w p ≤ b
      → Within w c s
      → Frugal w b (rt_resolve env p s)
  unfolding rt_resolve
  rt_resolve-Frugal p s l v =
      let q : Packet D = record p { callback = true } in
      let l' : c + weight w q ≤ b = rw (w.same q p refl refl refl) l in
      then-Stays (find_or_add-Frugal env w c p.daddr s v) λ _ s1 v1 _.
        then-Stays (entry-Frugal p.daddr s1 v1) λ e s2 v2 _.
          if-Stays (is_up e.flags) _ _ s2
            (then-Stays (assert-Frugal (not (e.hops == infinity2)) s2 v2)
              λ _ s3 v3 _. forward-Frugal env w c b _ q _ s3 v3 l')
            (if-Stays (p.saddr == s2.index) _ _ s2
              (then-Stays (buffer-Frugal q s2 l' v2)
                λ _ s3 v3 _. send_request-Frugal env w b e.dst s3 v3)
              (if-Stays (is_in_repair e.flags) _ _ s2 (buffer-Frugal q s2 l' v2)
                (refuse-Frugal q e s2 l' v2)))

module _ {D : Type 0} ⦃fl : Double D⦄ (env : Env D) (w : Watch D) (b : ℕ) where
  forward_waiting-Frugal :
      (fuel dst : ℕ) (delay : D) (s : Agent D)
      → Within w b s
      → Frugal w b (forward_waiting env fuel dst delay s)
  unfolding forward_waiting
  forward_waiting-Frugal zero dst delay s v = stops
  forward_waiting-Frugal (suc fuel) dst delay s v =
      next_waiting-Stays env w b dst s _ _ v (λ s' v'. returns (v', tt))
        λ c p s' l v'.
          then-Stays (forward-Frugal env w c b (some dst) p delay s' v' l)
            λ _ s2 v2 _. forward_waiting-Frugal fuel dst (delay ⊕ fl.lit 1 100) s2 v2

  serve_waiting-Frugal :
      (fuel dst : ℕ) (s : Agent D) → Within w b s → Frugal w b (serve_waiting env fuel dst s)
  unfolding serve_waiting
  serve_waiting-Frugal zero dst s v = stops
  serve_waiting-Frugal (suc fuel) dst s v =
      next_waiting-Stays env w b dst s _ _ v (λ s' v'. done-Frugal v')
        λ c p s' l v'. then-Stays (entry-Frugal dst s' v') λ e s1 v1 _.
          then-Stays
            (if-Stays (is_up e.flags) _ _ s1
              (forward-Frugal env w c b (some dst) p no_delay s1 v1 l)
              (weaken-Frugal (omega arith) (done-Frugal v1)))
            λ _ s2 v2 _. serve_waiting-Frugal fuel dst s2 v2

  pub route_is_up-Frugal :
      (dst : ℕ) (s : Agent D) → Within w b s → Frugal w b (route_is_up env dst s)
  unfolding route_is_up
  route_is_up-Frugal dst s v = then-Stays (entry-Frugal dst s v) λ e s1 v1 _.
      when-Frugal (is_up e.flags)
        (set_entry dst (reset_soft_state env)
          >> serve_waiting env (suc (length s1.rqueue.items)) dst)
        s1 v1 (serve_waiting-Frugal (suc (length s1.rqueue.items)) dst _ v1)

  expire_entry-Frugal :
      (e : Entry D) (s : Agent D) → Within w b s → Frugal w b (expire_entry env e s)
  unfolding expire_entry
  expire_entry-Frugal e s v = then-Stays (lift-Frugal (path_purge env.now e) s v) λ e1 s1 v1 _.
      then-Stays (lift-Frugal (path_empty e1) _ v1) λ empty s2 v2 _. when-Frugal empty _ s2 v2 (
        then-Stays (drop_all_waiting-Frugal env w b e.dst rtexpire s2 v2)
          λ _ s3 v3 _. done-Frugal v3)

  purge_entry-Frugal :
      (dst : ℕ) (delay : D) (s : Agent D) → Within w b s → Frugal w b (purge_entry env dst delay s)
  unfolding purge_entry
  purge_entry-Frugal dst delay s v = then-Stays (entry-Frugal dst s v) λ e s1 v1 _.
      if-Stays (is_up e.flags && (e.expire ≺ env.now)) _ _ s1
        (then-Stays (expire_entry-Frugal e s1 v1) λ _ s2 v2 _. returns (v2, tt))
        (if-Stays (is_up e.flags) _ _ s1
          (then-Stays (assert-Frugal (not (e.hops == infinity2)) s1 v1)
            λ _ s2 v2 _. forward_waiting-Frugal (suc (length s1.rqueue.items)) dst delay s2 v2)
          (if-Stays (find_dst dst s1.rqueue) _ _ s1
            (then-Stays (send_request-Frugal env w b dst s1 v1) λ _ s2 v2 _. returns (v2, tt))
            (returns (v1, tt))))

  purge_entries-Frugal :
      (dsts : List ℕ) (delay : D) (s : Agent D)
      → Within w b s
      → Frugal w b (purge_entries env dsts delay s)
  unfolding purge_entries
  purge_entries-Frugal [] delay s v = done-Frugal v
  purge_entries-Frugal (dst ∷ dsts) delay s v =
      then-Stays (purge_entry-Frugal dst delay s v) λ d s1 v1 _. purge_entries-Frugal dsts d s1 v1

  pub rt_purge-Frugal : (s : Agent D) → Within w b s → Frugal w b (rt_purge env s)
  unfolding rt_purge
  rt_purge-Frugal s v = purge_entries-Frugal _ _ s v
