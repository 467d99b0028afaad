-- ===== src/Agent/Conserved.antt =====
-- What becomes of a data packet: over a run, a packet that is not of this protocol, known by its id, is
-- sent, delivered or dropped no more often than it came in.
use ns2_te_aomdv.Base.{
  ℕ, ◌+◌, ◌≤◌, ◌≡◌, refl, Bool, true, false, ◌&&◌, not, List, [], ◌∷◌, All, count, is_some, none,
  ◌==◌, arith, Double, done,
}
use ns2_te_aomdv.Packet.{Packet, Request, pt_teaomdv}
use ns2_te_aomdv.Agent.State.{
  Env, Agent, Effect, scheduled, dropped, delivered, freed, resched, repair_scheduled, modify,
  nb_lookup,
}
use ns2_te_aomdv.Agent.Forward.{is_teaomdv}
use ns2_te_aomdv.Agent.RecvRequest.Answer.{recv_request, request_rpt, is_distrusted}
use ns2_te_aomdv.Agent.Ids.{id_get, id_insert, id_purge}
use ns2_te_aomdv.Agent.Timers.{broadcast_timer}
use ns2_te_aomdv.Agent.Run.{Event, handle}
use ns2_te_aomdv.Agent.Budget.{
  Watch, Within, Frugal, if-Stays, emit-Frugal, done-Frugal, then-Stays, when-Frugal,
}
use ns2_te_aomdv.Agent.Budget.Forward.{forward_free-Frugal}
use ns2_te_aomdv.Agent.Budget.Answer.{process_request-Frugal}
use ns2_te_aomdv.Agent.Budget.Timers.{IsFree}
use ns2_te_aomdv.Agent.Budget.Events.{price, handle-Frugal, Ends-done}

module _ {D : Type 0} (uid : ℕ) where
  -- The data packet with the id.
  abbrev pub is_packet : Packet D → Bool
  is_packet p = not (is_teaomdv p.ptype) && (p.uid == uid)

  -- It is sent, dropped or delivered.
  abbrev pub settles : Effect D → Bool
  settles (scheduled p t) = is_packet p
  settles (dropped p why) = is_packet p
  settles (delivered p) = is_packet p
  settles (freed p) = false
  settles (resched timer t) = false
  settles (repair_scheduled p t) = false

  pub packet-control : (p : Packet D) → p.ptype ≡ pt_teaomdv → is_packet p ≡ false
  packet-control p h = rw h refl

  abbrev pub packet_watch : Watch D
  packet_watch = record {
    carries = is_packet;
    counts = settles;
    reserve = λ bs. 0;
    is_foreign = λ index. true;
    sent = λ p t h. h;
    lost = λ p why h. h;
    given = λ p h. h;
    released = λ p. refl;
    timed = λ i t. refl;
    same = λ p q t u h. rw t (rw u refl);
    control = λ p t h. packet-control p t;
    own = λ p rq index f t h e. packet-control p t;
    noted = λ test f bs k. refl;
  }

module _ {D : Type 0} ⦃fl : Double D⦄ (env : Env D) (uid b : ℕ) where
  recv_request-Frugal :
      (p : Packet D) (rq : Request D) (s : Agent D)
      → p.ptype ≡ pt_teaomdv
      → Within (packet_watch uid) b s
      → Frugal (packet_watch uid) b (recv_request env p rq s)
  unfolding recv_request id_insert
  recv_request-Frugal p rq s t v = if-Stays (rq.rq_src == s.index) _ _ s (emit-Frugal v refl) (
      if-Stays (is_distrusted env p (record rq { rpt = request_rpt env (nb_lookup p.saddr s) rq }))
        _ _ s (emit-Frugal v refl)
        (then-Stays
          (when-Frugal (not (is_some (id_get rq.rq_src rq.rq_bcast_id s)))
            (modify (id_insert env rq.rq_src rq.rq_bcast_id)) s v
            (done-Frugal (record { foreign = v.foreign; within = v.within })))
          λ _ s1 v1 _.
            process_request-Frugal env (packet_watch uid) b b _ p _ s1 t (omega arith)
              (λ _ q s' tq _ _ _ _ v'.
                forward_free-Frugal env (packet_watch uid) b none q (fl.lit 1 1) s' v'
                  (packet-control uid q tq))
              v1))

  broadcast_timer-Frugal :
      (s : Agent D)
      → Within (packet_watch uid) b s
      → Frugal (packet_watch uid) b (broadcast_timer env s)
  unfolding broadcast_timer id_purge
  broadcast_timer-Frugal s v =
      done-Frugal (record { foreign = refl; within = let l = v.within in omega arith })

module _ {D : Type 0} ⦃fl : Double D⦄ (uid : ℕ) where
  -- The states that the agent comes to from `s`, with how often the packet has come in: from above, from
  -- another node, or back from the link layer. The interface queue does not give it back.
  pub data Follows (s : Agent D) : ℕ → Agent D → Type 0 where
    here : Follows s 0 s
    on :
        {n : ℕ} {s1 s2 : Agent D} (env : Env D) (ev : Event D)
        → Follows s n s1
        → ((a : ℕ) → All (λ q. is_packet uid q ≡ false) (env.ifq_filter a))
        → handle env ev s1 ≡ done (tt, s2)
        → Follows s (n + price (packet_watch uid) ev) s2

  clean-All :
      (env : Env D) (ps : List (Packet D))
      → All (λ q. is_packet uid q ≡ false) ps
      → All (IsFree env (packet_watch uid)) ps
  clean-All env [] h = tt
  clean-All env (p ∷ ps) h = (((λ _. h.0), (λ _. h.0)), clean-All env ps h.1)

  Follows-Within :
      (b : ℕ) (s : Agent D) (n : ℕ) (s' : Agent D)
      → Within (packet_watch uid) b s
      → Follows s n s'
      → Within (packet_watch uid) (b + n) s'
  Follows-Within b s n s' w here = record {
    foreign = refl;
    within = let l = w.within in omega arith;
  }
  Follows-Within b s n s' w (on {n = m} {s1 = s1} env ev r f e) =
      let w1 = Follows-Within b s m s1 w r in
      (Ends-done tt s'
        (handle-Frugal env (packet_watch uid) (b + m) (b + n) ev s1
          (λ p rq s t v. recv_request-Frugal env uid (b + m) p rq s t v)
          (λ a. clean-All env (env.ifq_filter a) (f a))
          (broadcast_timer-Frugal env uid (b + m) s1 w1) (omega arith) w1)
        e).0

  -- No data packet is handed on more often than it came in: over any events, how often it is sent,
  -- dropped or delivered, and how often it waits for a route, grows at most by how often it comes in.
  pub packets_once :
      (n : ℕ) (s s' : Agent D)
      → Follows s n s'
      → count (settles uid) s'.effects + count (is_packet uid) s'.rqueue.items
        ≤ count (settles uid) s.effects + count (is_packet uid) s.rqueue.items + n
  packets_once n s s' r =
      let w =
        (Follows-Within (count (settles uid) s.effects + count (is_packet uid) s.rqueue.items) s n
          s' (record { foreign = refl; within = omega arith }) r).within in
      omega arith
