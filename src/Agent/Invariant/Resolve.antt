-- ===== src/Agent/Invariant/Resolve.antt =====
-- `sendRequest`, `rt_resolve` and `rt_purge` keep the agent valid.
use ns2_te_aomdv.Base.{
  ℕ, ◌+◌, refl, true, false, Option, none, some, [], ◌∷◌, is_some, not, ◌==◌, ltb, update_first,
  Double, ◌≺◌, ◌⊕◌,
}
use ns2_te_aomdv.Packet.{Packet, u32}
use ns2_te_aomdv.Entry.{Entry, infinity2, is_up, is_down}
use ns2_te_aomdv.Table.{rt_lookup, has_dst}
use ns2_te_aomdv.Queue.{Reason, no_route}
use ns2_te_aomdv.Queue.Laws.{enque_lem, enqueued}
use ns2_te_aomdv.Agent.State.{Env, Agent, entry, emit, freed, assert}
use ns2_te_aomdv.Agent.Send.{send_error}
use ns2_te_aomdv.Agent.Routes.{is_even}
use ns2_te_aomdv.Agent.Request.{requested, emit_request, give_up, send_request, drop_all_waiting}
use ns2_te_aomdv.Agent.Forward.{no_delay}
use ns2_te_aomdv.Agent.Resolve.{find_or_add, buffer, report_drop, refuse, rt_resolve, is_in_repair}
use ns2_te_aomdv.Agent.Invariant.{IsGood, IsValid, Post, returns, then-Post}
use ns2_te_aomdv.Agent.Invariant.Forward.{forward-Post}
use ns2_te_aomdv.Agent.Invariant.RouteError.{send_error-Post}
use ns2_te_aomdv.Agent.Invariant.Waiting.{valid-Keeps}
use ns2_te_aomdv.Agent.Invariant.Waiting.Dropped.{drop_all_waiting-Post}
use ns2_te_aomdv.Agent.Invariant.Rules.{
  Valid, stay, if-Post, assert-Valid, set_entry-IsValid, entry-Valid, find_or_add-Post,
}

module _ {D : Type 0} ⦃fl : Double D⦄ (env : Env D) where
  requested-IsGood : (e : Entry D) → IsGood e → IsGood (requested env e)
  unfolding requested
  requested-IsGood e g = record {
    counted = g.counted;
    disjoint = g.disjoint;
    live = g.live;
    few = g.few;
  }

  emit_request-Post : (dst : ℕ) (s : Agent D) → IsValid s → Post Valid (emit_request env dst s)
  unfolding emit_request requested
  emit_request-Post dst s v = then-Post (entry dst) _ s1 (entry-Valid env dst s1 v1) λ e s2 h2.
      then-Post (assert (is_even (u32 (s2.seqno + 2)))) _
        (record s2 { bid = u32 (s2.bid + 1); seqno = u32 (s2.seqno + 2) })
        (assert-Valid _ _ (record { good = h2.1.good; bounded = h2.1.bounded }))
        λ _ s3 v3. returns (record { good = v3.good; bounded = v3.bounded })
    where
      s1 : Agent D
      s1 = record s { rtable = update_first (has_dst dst) (requested env) s.rtable }

      v1 : IsValid s1
      v1 = set_entry-IsValid dst (requested env) s requested-IsGood (λ _ d. d) v

  give_up-Post : (dst : ℕ) (s : Agent D) → IsValid s → Post Valid (give_up env dst s)
  unfolding give_up
  give_up-Post dst s v =
      then-Post (drop_all_waiting env dst no_route) _ s1
        (drop_all_waiting-Post env dst no_route s1 v.bounded)
        λ _ s2 d.
          returns (record { good = rw (d.same, d.others, d.limit) v1.good; bounded = d.bounded })
    where
      f : Entry D → Entry D
      f e = record e { req_timeout = env.now ⊕ fl.lit 1 1; req_cnt = 0 }

      s1 : Agent D
      s1 = record s { rtable = update_first (has_dst dst) f s.rtable }

      v1 : IsValid s1
      v1 =
          set_entry-IsValid dst f s
            (λ e g. record {
              counted = g.counted;
              disjoint = g.disjoint;
              live = g.live;
              few = g.few;
            })
            (λ _ d. d) v

  -- `sendRequest` keeps the agent valid: when it sends, when it gives up and drops the waiting
  -- packets, and when it does neither.
  pub send_request-Post : (dst : ℕ) (s : Agent D) → IsValid s → Post Valid (send_request env dst s)
  unfolding send_request
  send_request-Post dst s v =
      then-Post (assert (is_some (rt_lookup s.rtable dst))) _ s (assert-Valid _ s v) λ _ s1 v1.
        then-Post (entry dst) _ s1 (entry-Valid env dst s1 v1) λ e s2 h2.
          if-Post Valid (is_up e.flags) _ _ s2
            (then-Post (assert (not (e.hops == infinity2))) _ s2 (assert-Valid _ s2 h2.1)
              λ _ s3 v3. returns (record { good = v3.good; bounded = v3.bounded }))
            (if-Post Valid (env.now ≺ e.req_timeout) (emit (freed env.blank)) _ s2
              (returns (record { good = h2.1.good; bounded = h2.1.bounded }))
              (if-Post Valid (ltb 3 e.req_cnt) (give_up env dst) (emit_request env dst) s2
                (give_up-Post dst s2 h2.1) (emit_request-Post dst s2 h2.1)))

  -- `rqueue.enque` with the report of the packet that it drops.
  pub buffer-Post : (p : Packet D) (s : Agent D) → IsValid s → Post Valid (buffer env p s)
  unfolding buffer
  buffer-Post p s v =
      rw ((enque_lem env.now p s.rqueue v.bounded.counted v.bounded.within v.bounded.positive).0)
        (reported _)
    where
      s1 : Agent D
      s1 = record s { rqueue = (enqueued env.now p s.rqueue).1 }

      v1 : IsValid s1
      v1 = record {
        good = v.good;
        bounded = record {
          counted = refl;
          within =
              (enque_lem env.now p s.rqueue v.bounded.counted v.bounded.within
                v.bounded.positive).1;
          positive = v.bounded.positive;
        };
      }

      reported : (o : Option (Packet D × Reason)) → Post Valid (report_drop env o s1)
      reported none = returns v1
      reported (some (p, why)) = returns (record { good = v1.good; bounded = v1.bounded })

  refuse-Post :
      (p : Packet D) (e : Entry D) (s : Agent D) → IsValid s → Post Valid (refuse env p e s)
  unfolding refuse
  refuse-Post p e s v = then-Post (assert (is_down e.flags)) _ s (assert-Valid _ s v) λ _ s1 v1.
      then-Post (send_error env ((e.dst, e.seqno) ∷ []) false) _ s1
        (stay s1 v1 (send_error-Post env s1.rqueue _ false s1 (valid-Keeps s1 v1)))
        λ _ s2 v2. returns (record { good = v2.good; bounded = v2.bounded })

  -- `rt_resolve` keeps the agent valid, whether it forwards the packet, buffers it and asks for a
  -- route, or refuses it.
  pub rt_resolve-Post : (p : Packet D) (s : Agent D) → IsValid s → Post Valid (rt_resolve env p s)
  unfolding rt_resolve
  rt_resolve-Post p0 s v =
      then-Post (find_or_add env p.daddr) _ s (find_or_add-Post env p.daddr s v) λ _ s1 v1.
        then-Post (entry p.daddr) _ s1 (entry-Valid env p.daddr s1 v1) λ e s2 h2.
          if-Post Valid (is_up e.flags) _ _ s2
            (then-Post (assert (not (e.hops == infinity2))) _ s2 (assert-Valid _ s2 h2.1) λ _ s3 v3.
              stay s3 v3
                (forward-Post env s3.rqueue (some p.daddr) p no_delay s3 (valid-Keeps s3 v3)))
            (if-Post Valid (p.saddr == s2.index) _ _ s2
              (then-Post (buffer env p) _ s2 (buffer-Post p s2 h2.1)
                λ _ s3 v3. send_request-Post e.dst s3 v3)
              (if-Post Valid (is_in_repair e.flags) (buffer env p) (refuse env p e) s2
                (buffer-Post p s2 h2.1) (refuse-Post p e s2 h2.1)))
    where
      p : Packet D
      p = record p0 { callback = true }
