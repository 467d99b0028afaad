-- ===== src/Agent/RecvRequest/Answer.antt =====
-- teaomdv/teaomdv.cc: `recvRequest` from the learnt reverse route on: the waiting packets, the answers, and the handler.
use ns2_te_aomdv.Base.{
  ℕ, suc, zero, ◌+◌, Bool, true, false, ◌&&◌, Option, none, some, length, is_some, update_first,
  ltb, leb, ◌==◌, if◌then◌else◌, not, Double, ◌⊕◌, ◌⊖◌, ◌≺◌, min_d, no_fuel,
}
use ns2_te_aomdv.Packet.{Packet, Request, rreq, u8, u32}
use ns2_te_aomdv.Entry.{Entry, is_up}
use ns2_te_aomdv.Entry.Choice.{path_find, path_get_max_hopcount}
use ns2_te_aomdv.Table.{rt_lookup}
use ns2_te_aomdv.Queue.{deque}
use ns2_te_aomdv.Neighbor.{Neighbor}
use ns2_te_aomdv.Agent.State.{
  M, Env, BroadcastId, ◌>>=◌, ◌>>◌, skip, fail, get, put, modify, assert, when, lift, emit, freed,
  entry, set_entry, nb_lookup, has_id,
}
use ns2_te_aomdv.Agent.Ids.{id_get, id_insert}
use ns2_te_aomdv.Agent.Send.{send_reply}
use ns2_te_aomdv.Agent.Routes.{is_even, max_seqno}
use ns2_te_aomdv.Agent.Neighbors.{nb_insert}
use ns2_te_aomdv.Agent.Forward.{forward, no_delay, deref}
use ns2_te_aomdv.Agent.Resolve.{find_or_add}
use ns2_te_aomdv.Agent.RecvRequest.{learn_reverse}

module _ {D : Type 0} ⦃fl : Double D⦄ (env : Env D) where
  abbrev pub reset_soft_state : Entry D → Entry D
  reset_soft_state e = record e { req_timeout = fl.lit 0 1; req_last_ttl = 0; req_cnt = 0 }

  -- `while ((buffered_pkt = rqueue.deque(dst)))`: a packet goes on if the entry is still up, and is
  -- forgotten otherwise.
  unfoldable pub serve_waiting : ℕ → ℕ → M D (Unit {0})
  serve_waiting zero dst = fail no_fuel
  serve_waiting (suc fuel) dst = do
    s ← get
    r ← lift (deque env.now dst s.rqueue)
    put (record s { rqueue = r.1 })
    elim r.0 [
      | none ↦ skip
      | some p ↦ (do
        e ← entry dst
        when (is_up e.flags) (forward env (some dst) p no_delay)
        serve_waiting fuel dst)
    ]

  -- If the route is up, reset the soft state, and send what waits for it.
  unfoldable pub route_is_up : ℕ → M D (Unit {0})
  route_is_up dst = do
    e ← entry dst
    s ← get
    when (is_up e.flags)
        (do set_entry dst reset_soft_state; serve_waiting (suc (length s.rqueue.items)) dst)

  -- The own sequence number before a reply: above the one asked for, and even.
  unfoldable pub reply_seqno : ℕ → ℕ → ℕ
  reply_seqno seqno asked =
      let odd = if is_even asked then u32 (asked + 1) else asked in
      let above = if ltb seqno odd then u32 (odd + 1) else seqno in
      if is_even above then above else u32 (above + 1)

  -- The request is for me.
  unfoldable pub reply_own : Packet D → Request D → M D (Unit {0})
  reply_own p rq = do
    s ← get
    put (record s { seqno = reply_seqno s.seqno rq.rq_dst_seqno })
    when (not (is_some (nb_lookup p.saddr s))) (nb_insert env p.saddr)
    s ← get
    nb ← deref (nb_lookup p.saddr s)
    send_reply env rq.rq_src 0 s.index s.seqno (fl.lit 10 1) rq.rq_timestamp p.saddr rq.rq_bcast_id
        p.saddr (fl.lit 1 1) nb.tv
    emit (freed p)

  -- `if (rt_advertised_hops == INFINITY) rt_advertised_hops = path_get_max_hopcount()`.
  abbrev pub advertise : Entry D → Entry D
  advertise e = record e {
    advertised_hops =
        if env.is_infinity e.advertised_hops then path_get_max_hopcount e else e.advertised_hops;
  }

  abbrev pub answered : BroadcastId D → BroadcastId D
  answered b = record b { count = 1 }

  unfoldable pub set_answered : ℕ → ℕ → M D (Unit {0})
  set_answered src id =
      modify λ s. record s { bihead = update_first (has_id src id) answered s.bihead }

  -- I have a fresh route: the first request that is answered gets the first path.
  unfoldable pub reply_route : Bool → Packet D → Request D → M D (Unit {0})
  reply_route reverse_path p rq = do
    e ← entry rq.rq_dst
    assert (is_even e.seqno)
    s ← get
    when reverse_path (do
      b ← deref (id_get rq.rq_src rq.rq_bcast_id s)
      when (b.count == 0) (do
        set_answered rq.rq_src rq.rq_bcast_id
        set_entry rq.rq_dst advertise
        e ← entry rq.rq_dst
        set_entry rq.rq_dst (λ e. record e { error = true })
        path ← deref (path_find e)
        send_reply env rq.rq_src e.advertised_hops rq.rq_dst e.seqno (path.expire ⊖ env.now)
            rq.rq_timestamp p.saddr rq.rq_bcast_id path.lasthop path.fpt path.rpt))
    emit (freed p)

  -- Not for me, and no fresh route: the first copy goes on.
  unfoldable pub propagate : Bool → Packet D → Request D → Option (Entry D) → M D (Unit {0})
  propagate kill p rq rt = if kill then emit (freed p) else (do
    s ← get
    set_entry rq.rq_src advertise
    e0 ← entry rq.rq_src
    path ← deref (path_find e0)
    forward env none
        (record p {
          saddr = s.index;
          header = rreq (record rq {
            rq_dst_seqno = seen rt;
            rq_hop_count = u8 e0.advertised_hops;
            rq_first_hop = path.lasthop;
          });
        })
        (fl.lit 1 1))
    where
      seen : Option (Entry D) → ℕ
      seen none = rq.rq_dst_seqno
      seen (some e) = max_seqno e.seqno rq.rq_dst_seqno

  -- The route for the destination is up and recent enough.
  abbrev pub is_recent : ℕ → Option (Entry D) → Bool
  is_recent seqno none = false
  is_recent seqno (some e) = is_up e.flags && leb seqno e.seqno

  unfoldable pub answer : Bool → Bool → Packet D → Request D → M D (Unit {0})
  answer kill reverse_path p rq = do
    s ← get
    let rt = rt_lookup s.rtable rq.rq_dst
    if rq.rq_dst == s.index
        then reply_own p rq
        else if is_recent rq.rq_dst_seqno rt
        then reply_route reverse_path p rq
        else propagate kill p rq rt

  -- The reverse route is learnt, and the request answered, if it is not refused.
  unfoldable pub process_request : Bool → Packet D → Request D → M D (Unit {0})
  process_request kill p rq = do
    find_or_add env rq.rq_src
    e0 ← entry rq.rq_src
    s ← get
    r ← lift (learn_reverse env s.index s.max_paths s.len_diff p rq e0)
    set_entry rq.rq_src (λ _. r.1)
    elim r.0 [
      | none ↦ emit (freed p)
      | some reverse_path ↦ (do route_is_up rq.rq_src; answer kill reverse_path p rq)
    ]

  -- The reverse path trust, cut to the trust in the sender.
  unfoldable pub request_rpt : Option (Neighbor D) → Request D → D
  request_rpt none rq = rq.rpt ⊕ fl.lit 1 10
  request_rpt (some nb) rq = min_d rq.rpt nb.tv

  -- Whether the request is refused for want of trust.
  unfoldable pub is_distrusted : Packet D → Request D → Bool
  is_distrusted p rq = (rq.rpt ≺ rq.rt) && not (p.saddr == rq.rq_src)

  unfoldable pub recv_request : Packet D → Request D → M D (Unit {0})
  recv_request p rq0 = do
    s ← get
    let rq1 : Request D = record rq0 { rpt = request_rpt (nb_lookup p.saddr s) rq0 }
    let kill = is_some (id_get rq1.rq_src rq1.rq_bcast_id s)
    if rq0.rq_src == s.index
        then emit (freed p)
        else if is_distrusted p rq1
        then emit (freed p)
        else (do
          when (not kill) (modify (id_insert env rq1.rq_src rq1.rq_bcast_id))
          process_request kill p (record rq1 {
            rq_first_hop = if rq1.rq_hop_count == 0 then s.index else rq1.rq_first_hop;
          }))
