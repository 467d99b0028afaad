-- ===== src/Agent/Budget/Forward.antt =====
-- The methods that schedule packets which are not requests, and `forward`: it sends a copy of a
-- request only if it is given one.
use ns2_te_aomdv.Queue.{no_route}
use ns2_te_aomdv.Base.{
  Outcome, done, crash, ◌+◌, ◌≤◌, arith, ℕ, ◌≡◌, refl, ◌∙◌, Bool, false, ◌&&◌, Option, none, some,
  List, [], ◌∷◌, ◌==◌, not, is_some, Double, ◌≺◌, min_d, ◌||◌,
}
use ns2_te_aomdv.Packet.{Packet, Header, Pta, Recommen, ip_broadcast}
use ns2_te_aomdv.Entry.{RoutePath, is_up, path_empty}
use ns2_te_aomdv.Entry.Choice.{path_find}
use ns2_te_aomdv.Neighbor.{Neighbor, trust_threshold}
use ns2_te_aomdv.Agent.State.{dropped, Env, Agent, set_entry, nb_lookup}
use ns2_te_aomdv.Agent.Send.{
  send_error, send_pta, send_reply, send_beacon, send_hello, send_rcom, send_prob,
}
use ns2_te_aomdv.Agent.Routes.{rt_down}
use ns2_te_aomdv.Agent.Neighbors.{nb_insert, insert_looked_up}
use ns2_te_aomdv.Agent.Forward.{
  forward, forward_on, forward_broadcast, forward_route, transmit, transmit_some, check_trust,
  use_path, distrust, delete_path, send_ptas, is_cbr, is_teaomdv, is_upward,
}
use ns2_te_aomdv.Agent.Budget.{
  Watch, weight, is_request, Within, Ends, Stays, Frugal, returns, stops, then-Stays, done-Frugal,
  if-Stays, when-Frugal, assert-Frugal, lift-Frugal, deref-Frugal, entry-Frugal, emit-Frugal,
  pay-Stays,
}

module _ {D : Type 0} ⦃fl : Double D⦄ (env : Env D) (w : Watch D) (b : ℕ) where
  pub send_error-Frugal :
      (dests : List (ℕ × ℕ)) (jitter : Bool) (s : Agent D)
      → Within w b s
      → Frugal w b (send_error env dests jitter s)
  unfolding send_error
  send_error-Frugal dests jitter s v =
      if-Stays jitter _ _ s (emit-Frugal v (w.sent _ _ (w.control _ refl refl)))
        (emit-Frugal v (w.sent _ _ (w.control _ refl refl)))

  pub send_pta-Frugal :
      (re : Pta) (daddr : ℕ) (s : Agent D) → Within w b s → Frugal w b (send_pta env re daddr s)
  unfolding send_pta
  send_pta-Frugal re daddr s v = emit-Frugal v (w.sent _ _ (w.control _ refl refl))

  pub send_reply-Frugal :
      (ipdst hop_count rpdst rpseq : ℕ) (lifetime timestamp : D) (nexthop bcast_id first : ℕ)
      (fpt rpt : D) (s : Agent D)
      → Within w b s
      → Frugal w b (
          send_reply env ipdst hop_count rpdst rpseq lifetime timestamp nexthop bcast_id first fpt
            rpt s)
  unfolding send_reply
  send_reply-Frugal ipdst hop_count rpdst rpseq lifetime timestamp nexthop bcast_id first fpt rpt s
        v =
      emit-Frugal v (w.sent _ _ (w.control _ refl refl))

  send_beacon-Frugal :
      (p : Packet D) (h : Header D) (s : Agent D)
      → Within w b s
      → is_request h ≡ false
      → Frugal w b (send_beacon env p h s)
  unfolding send_beacon
  send_beacon-Frugal p h s v e = emit-Frugal v (w.sent _ _ (w.control _ refl e))

  pub send_hello-Frugal : (s : Agent D) → Within w b s → Frugal w b (send_hello env s)
  unfolding send_hello
  send_hello-Frugal s v = send_beacon-Frugal env.blank _ s v refl

  pub send_rcom-Frugal :
      (rc : Recommen D) (s : Agent D) → Within w b s → Frugal w b (send_rcom env rc s)
  unfolding send_rcom
  send_rcom-Frugal rc s v = send_beacon-Frugal env.blank _ s v refl

  pub send_prob-Frugal : (s : Agent D) → Within w b s → Frugal w b (send_prob env s)
  unfolding send_prob
  send_prob-Frugal s v = send_beacon-Frugal env.blank _ s v refl

  send_ptas-Frugal :
      (re : Pta) (pcs : List ℕ) (s : Agent D) → Within w b s → Frugal w b (send_ptas env re pcs s)
  unfolding send_ptas
  send_ptas-Frugal re [] s v = done-Frugal v
  send_ptas-Frugal re (a ∷ pcs) s v =
      then-Stays (send_pta-Frugal re a s v) λ _ s1 v1 _. send_ptas-Frugal re pcs s1 v1

  pub nb_insert-Frugal : (a : ℕ) (s : Agent D) → Within w b s → Frugal w b (nb_insert env a s)
  unfolding nb_insert
  nb_insert-Frugal a s v = go (nb_lookup a s)
    where
      go : (o : Option (Neighbor D)) → Frugal w b (insert_looked_up env a o s)
      go none = done-Frugal v
      go (some nb) = done-Frugal v

  pub delete_path-Frugal :
      (dst nexthop : ℕ) (s : Agent D) → Within w b s → Frugal w b (delete_path env dst nexthop s)
  unfolding delete_path
  delete_path-Frugal dst nexthop s v = then-Stays (entry-Frugal dst _ v) λ e s1 v1 _.
      then-Stays (lift-Frugal (path_empty e) s1 v1)
        λ empty s2 v2 _. when-Frugal empty (set_entry dst (rt_down env)) s2 v2 (done-Frugal v2)

module _ {D : Type 0} ⦃fl : Double D⦄ (env : Env D) (w : Watch D) (c b : ℕ) where
  distrust-Frugal :
      (dst : ℕ) (p : Packet D) (path : RoutePath D) (s : Agent D)
      → Within w c s
      → c + weight w p ≤ b
      → Frugal w b (distrust env dst p path s)
  unfolding distrust
  distrust-Frugal dst p path s v l = then-Stays (entry-Frugal dst s v) λ e s1 v1 _.
      then-Stays (send_ptas-Frugal env w c _ e.pclist s1 v1) λ _ s2 v2 _.
        then-Stays (delete_path-Frugal env w c dst path.nexthop s2 v2)
          λ _ s3 v3 _. pay-Stays (dropped p no_route) p s3 (w.lost p no_route) v3 l

  -- What `forward` hands on is of the kind of the packet that it is given, and not yet paid for.
  use_path-Stays :
      (dst : ℕ) (p : Packet D) (s : Agent D)
      → Within w c s
      → Stays w c (λ q. w.carries q ≡ w.carries p) (use_path env dst p s)
  unfolding use_path
  use_path-Stays dst p s v =
      then-Stays
        (when-Frugal (not (p.saddr == s.index) && env.is_data p.ptype) (set_entry dst _) _ v
          (done-Frugal v))
        λ _ s1 v1 _. returns (v1, w.same _ _ refl refl refl)

  abbrev pub Handed : Packet D → Option (Packet D) → Agent D → Type 0
  Handed p none s = Within w b s
  Handed p (some q) s = Within w c s × (w.carries q ≡ w.carries p)

  check_trust-Ends :
      (dst : ℕ) (p q : Packet D) (path : RoutePath D) (s : Agent D)
      → w.carries q ≡ w.carries p
      → Within w c s
      → c + weight w p ≤ b
      → Ends (Handed p) (check_trust env dst q path s)
  unfolding check_trust
  check_trust-Ends dst p q path s k v l =
      then-Stays (deref-Frugal (nb_lookup path.nexthop s) s v) λ nb s1 v1 _.
        then-Stays (when-Frugal (is_cbr q.ptype) (set_entry dst _) s1 v1 (done-Frugal v1))
          λ _ s2 v2 _.
            if-Stays (is_cbr q.ptype && (min_d path.fpt nb.tv ≺ trust_threshold)) _ _ s2
              (then-Stays (distrust-Frugal dst q path s2 v2 (rw k l)) λ _ s3 v3 _. returns v3)
              (then-Stays (use_path-Stays dst q s2 v2) λ r s3 v3 h. returns (v3, h ∙ k))

  pub forward_on-Ends :
      (rt : Option ℕ) (p : Packet D) (s : Agent D)
      → Within w c s
      → c + weight w p ≤ b
      → Ends (Handed p) (forward_on env rt p s)
  unfolding forward_on forward_broadcast forward_route
  forward_on-Ends none p s v l =
      then-Stays (assert-Frugal (p.daddr == ip_broadcast) s v)
        λ _ s1 v1 _. returns (v1, w.same _ _ refl refl refl)
  forward_on-Ends (some dst) p s v l = then-Stays (entry-Frugal dst s v) λ e s1 v1 _.
      then-Stays (assert-Frugal (is_up e.flags) s1 v1) λ _ s2 v2 _.
        then-Stays (deref-Frugal (path_find e) s2 v2) λ path s3 v3 _.
          then-Stays
            (when-Frugal (not (is_some (nb_lookup path.nexthop _))) (nb_insert env path.nexthop) _
              v3 (nb_insert-Frugal env w c path.nexthop _ v3))
            λ _ s4 v4 _. check_trust-Ends dst p _ path s4 (w.same _ _ refl refl refl) v4 l

  transmit-Frugal :
      (rt : Option ℕ) (delay : D) (p : Packet D) (s : Agent D)
      → Within w c s
      → c + weight w p ≤ b
      → Frugal w b (transmit env rt delay p s)
  unfolding transmit
  transmit-Frugal rt delay p s v l =
      if-Stays (p.daddr == ip_broadcast) _ _ s
        (then-Stays (assert-Frugal (not (is_some rt)) s v)
          λ _ s1 v1 _. pay-Stays _ p _ (w.sent p _) v1 l)
        (pay-Stays _ p _ (w.sent p _) v l)

  hand_on-Frugal :
      (rt : Option ℕ) (delay : D) (p : Packet D) (o : Outcome (Option (Packet D) × Agent D))
      → Ends (Handed p) o
      → c + weight w p ≤ b
      → Frugal w b (elim o [ crash e ↦ crash e | done (a, s) ↦ transmit_some env rt delay a s ])
  unfolding transmit_some
  hand_on-Frugal rt delay p o (returns {a = none} h) l = done-Frugal h
  hand_on-Frugal rt delay p o (returns {a = some q} h) l =
      transmit-Frugal rt delay q _ h.0 (rw (h.1) l)
  hand_on-Frugal rt delay p o stops l = stops

  -- `forward` is paid for by the packet that it is given.
  pub forward-Frugal :
      (rt : Option ℕ) (p : Packet D) (delay : D) (s : Agent D)
      → Within w c s
      → c + weight w p ≤ b
      → Frugal w b (forward env rt p delay s)
  unfolding forward
  forward-Frugal rt p delay s v l = if-Stays (p.ttl == 0) _ _ s (pay-Stays _ p _ (w.lost p _) v l) (
      if-Stays
        ((not (is_teaomdv p.ptype) && is_upward p.direction && (p.daddr == ip_broadcast))
          || (p.daddr == env.here_addr))
        _ _ s (pay-Stays _ p _ (w.given p) v l)
        (hand_on-Frugal rt delay p _ (forward_on-Ends rt p s v l) l))

module _ {D : Type 0} ⦃fl : Double D⦄ (env : Env D) (w : Watch D) (b : ℕ) where
  -- A packet that is not watched costs nothing.
  pub forward_free-Frugal :
      (rt : Option ℕ) (p : Packet D) (delay : D) (s : Agent D)
      → Within w b s
      → w.carries p ≡ false
      → Frugal w b (forward env rt p delay s)
  forward_free-Frugal rt p delay s v h =
      forward-Frugal env w b b rt p delay s v (rw h (omega arith))
