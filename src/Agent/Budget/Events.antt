-- ===== src/Agent/Budget/Events.antt =====
-- The handlers of the events stay within a budget, where `recvRequest` does.
use ns2_te_aomdv.Queue.{mac_callback}
use ns2_te_aomdv.Agent.Repair.{rt_ll_failed}
use ns2_te_aomdv.Agent.Timers.{broadcast_timer}
use ns2_te_aomdv.Base.{
  subst, Outcome, done, ◌∙◌, ℕ, ◌+◌, ◌≤◌, ◌≡◌, refl, subst, Bool, true, false, ◌==◌, not, ◌&&◌,
  if◌then◌else◌, arith, Double, Outcome, done,
}
use ns2_te_aomdv.Packet.{
  Request, Ptype, pt_teaomdv, pt_cbr, pt_other, Packet, Header, hello, rreq, rrep, rerr, rcom, prob,
  pta, other, ip_broadcast, dec_int,
}
use ns2_te_aomdv.Agent.State.{◌>>◌, assert, dropped, Env, Agent}
use ns2_te_aomdv.Agent.Forward.{is_teaomdv}
use ns2_te_aomdv.Agent.Receive.{recv, recv_teaomdv, recv_data, dispatch, route_packet}
use ns2_te_aomdv.Agent.Run.{
  Event, handle, started, received, overheard, broadcast_expired, hello_expired, neighbor_expired,
  cache_expired, probe_expired, trust_expired, repair_expired, link_failed,
}
use ns2_te_aomdv.Agent.Budget.{
  Watch, weight, cost, Within, Ends, Frugal, returns, stops, then-Stays, if-Stays, assert-Frugal,
  emit-Stays, pay-Stays, weaken-Frugal,
}
use ns2_te_aomdv.Agent.Budget.Forward.{forward-Frugal}
use ns2_te_aomdv.Agent.Budget.Resolve.{rt_resolve-Frugal}
use ns2_te_aomdv.Agent.Budget.Reception.{
  recv_error-Frugal, recv_hello-Frugal, recv_prob-Frugal, recv_rcom-Frugal, recv_pta-Frugal,
}
use ns2_te_aomdv.Agent.Budget.Reply.{recv_reply-Frugal}
use ns2_te_aomdv.Agent.RecvRequest.Answer.{recv_request}
use ns2_te_aomdv.Agent.Budget.Timers.{
  IsClean, hello_timer-Frugal, neighbor_timer-Frugal, route_cache_timer-Frugal, probe_timer-Frugal,
  local_repair_timer-Frugal, start-Frugal,
}
use ns2_te_aomdv.Agent.Budget.Trust.{tap-Frugal, trust_timer-Frugal}

module _ {D : Type 0} ⦃fl : Double D⦄ (env : Env D) (w : Watch D) (c : ℕ) where
  -- `recvRequest` stays within the budget.
  abbrev pub RequestsStay : Type 0
  RequestsStay =
      (p : Packet D) (rq : Request D) (s : Agent D)
      → p.ptype ≡ pt_teaomdv
      → Within w c s
      → Frugal w c (recv_request env p rq s)

  dispatch-Frugal :
      (p : Packet D) (h : Header D) (s : Agent D)
      → RequestsStay
      → p.ptype ≡ pt_teaomdv
      → Within w c s
      → Frugal w c (dispatch env p h s)
  unfolding dispatch
  dispatch-Frugal p (rreq rq) s k t v = k p rq s t v
  dispatch-Frugal p (rrep rp) s k t v = recv_reply-Frugal env w c p rp s t v
  dispatch-Frugal p (rerr unreachable) s k t v = recv_error-Frugal env w c p unreachable s v
  dispatch-Frugal p (hello rp) s k t v = recv_hello-Frugal env w c p rp s v
  dispatch-Frugal p (rcom rc) s k t v = recv_rcom-Frugal env w c p rc s v
  dispatch-Frugal p prob s k t v = recv_prob-Frugal env w c p s v
  dispatch-Frugal p (pta re) s k t v = recv_pta-Frugal env w c p re s v
  dispatch-Frugal p (other n) s k t v = stops

  recv_teaomdv-Frugal :
      (p : Packet D) (s : Agent D)
      → RequestsStay
      → p.ptype ≡ pt_teaomdv
      → Within w c s
      → Frugal w c (recv_teaomdv env p s)
  unfolding recv_teaomdv
  recv_teaomdv-Frugal p s k t v =
      then-Stays (assert-Frugal (p.sport == env.rt_port) s v) λ _ s1 v1 _.
        then-Stays (assert-Frugal (p.dport == env.rt_port) s1 v1)
          λ _ s2 v2 _. dispatch-Frugal p p.header s2 k t v2

-- What an event costs: a packet that comes in, and is no packet of this protocol, pays for itself.
module _ {D : Type 0} (w : Watch D) where
  abbrev pub price : Event D → ℕ
  price (received p) = if is_teaomdv p.ptype then 0 else weight w p
  price (link_failed p) = cost w (dropped p mac_callback)
  price started = 0
  price (overheard p) = 0
  price broadcast_expired = 0
  price hello_expired = 0
  price neighbor_expired = 0
  price cache_expired = 0
  price probe_expired = 0
  price trust_expired = 0
  price (repair_expired p) = 0

is_teaomdv-eq : (t : Ptype) → is_teaomdv t ≡ true → t ≡ pt_teaomdv
is_teaomdv-eq pt_teaomdv h = refl
is_teaomdv-eq pt_cbr h = cc
is_teaomdv-eq (pt_other n) h = cc

module _ {D : Type 0} ⦃fl : Double D⦄ (env : Env D) (w : Watch D) (c b : ℕ) where
  route_packet-Frugal :
      (p q : Packet D) (s : Agent D)
      → w.carries q ≡ w.carries p
      → c + weight w p ≤ b
      → Within w c s
      → Frugal w b (route_packet env q s)
  unfolding route_packet
  route_packet-Frugal p q s k l v =
      let l' : c + weight w q ≤ b = rw k l in
      if-Stays (not (q.daddr == ip_broadcast)) _ _ s (rt_resolve-Frugal env w c b q s l' v)
        (forward-Frugal env w c b _ q _ s v l')

  recv_data-Frugal :
      (p : Packet D) (s : Agent D)
      → c + weight w p ≤ b
      → Within w c s
      → Frugal w b (recv_data env p s)
  unfolding recv_data
  recv_data-Frugal p s l v =
      if-Stays ((p.saddr == s.index) && (p.num_forwards == 0)) _ _ s
        (route_packet-Frugal p _ s (w.same _ _ refl refl refl) l v)
        (if-Stays (p.saddr == s.index) _ _ s (pay-Stays _ p s (w.lost p _) v l) (
          if-Stays (dec_int p.ttl == 0) _ _ s
            (pay-Stays _ p s (λ h. w.lost _ _ (w.same _ p refl refl refl ∙ h)) v l)
            (route_packet-Frugal p _ s (w.same _ _ refl refl refl) l v)))

  recv-Frugal :
      (p : Packet D) (s : Agent D)
      → RequestsStay env w c
      → c + price w (received p) ≤ b
      → Within w c s
      → Frugal w b (recv env p s)
  unfolding recv
  recv-Frugal p s k l v = met env.has_target
    where
      go :
          (x : Bool)
          → is_teaomdv p.ptype ≡ x
          → c + (if x then 0 else weight w p) ≤ b
          → Frugal w b (
              (if x then recv_teaomdv env (record p { ttl = dec_int p.ttl }) else recv_data env p)
                s)
      go true e l =
          weaken-Frugal (omega arith)
            (recv_teaomdv-Frugal env w c _ s k (is_teaomdv-eq p.ptype e) v)
      go false e l = recv_data-Frugal p s l v

      met :
          (t : Bool)
          → Frugal w b (
              (do
                assert t
                if is_teaomdv p.ptype
                    then recv_teaomdv env (record p { ttl = dec_int p.ttl })
                    else recv_data env p)
                s)
      met true = go (is_teaomdv p.ptype) refl l
      met false = stops

  -- Every event is paid for by the packet that it brings.
  pub handle-Frugal :
      (ev : Event D) (s : Agent D)
      → RequestsStay env w c
      → IsClean env w
      → Frugal w c (broadcast_timer env s)
      → c + price w ev ≤ b
      → Within w c s
      → Frugal w b (handle env ev s)
  unfolding handle rt_ll_failed
  handle-Frugal started s k h r l v = weaken-Frugal (omega arith) (start-Frugal env w c s r h v)
  handle-Frugal (received p) s k h r l v = recv-Frugal p s k l v
  handle-Frugal (overheard p) s k h r l v = weaken-Frugal (omega arith) (tap-Frugal env w c p s v)
  handle-Frugal broadcast_expired s k h r l v = weaken-Frugal (omega arith) r
  handle-Frugal hello_expired s k h r l v =
      weaken-Frugal (omega arith) (hello_timer-Frugal env w c s v)
  handle-Frugal neighbor_expired s k h r l v =
      weaken-Frugal (omega arith) (neighbor_timer-Frugal env w c s h v)
  handle-Frugal cache_expired s k h r l v =
      weaken-Frugal (omega arith) (route_cache_timer-Frugal env w c s v)
  handle-Frugal probe_expired s k h r l v =
      weaken-Frugal (omega arith) (probe_timer-Frugal env w c s v)
  handle-Frugal trust_expired s k h r l v =
      weaken-Frugal (omega arith) (trust_timer-Frugal env w c s v)
  handle-Frugal (repair_expired p) s k h r l v =
      weaken-Frugal (omega arith) (local_repair_timer-Frugal env w c p s v)
  handle-Frugal (link_failed p) s k h r l v = emit-Stays (dropped p mac_callback) s v l

module _ {D A : Type 0} {P : A → Agent D → Type 0} where
  pub Ends-done :
      {o : Outcome (A × Agent D)} (a : A) (s : Agent D) → Ends P o → o ≡ done (a, s) → P a s
  Ends-done a s (returns {a = c} {s = s'} h) e =
      let same_a : c ≡ a = cc in
      let same_s : s' ≡ s = cc in subst (λ x. P x s) same_a (subst (P c) same_s h)
  Ends-done a s stops e = cc
