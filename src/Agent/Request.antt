-- ===== src/Agent/Request.antt =====
-- teaomdv/teaomdv.cc: `PerHopTime` and `sendRequest`, with its rate limit and its expanding ring.
pub mod Branches
pub mod Ring
use ns2_te_aomdv.Base.{
  ℕ, suc, zero, ◌+◌, Bool, ◌&&◌, none, some, List, [], ◌∷◌, length, is_some, ltb, ◌==◌,
  if◌then◌else◌, not, Double, ◌⊕◌, ◌⊗◌, ◌⊘◌, ◌≺◌, no_fuel,
}
use ns2_te_aomdv.Packet.{
  Packet, Request, rreq, header_size, pt_teaomdv, af_none, ip_broadcast, u8, u32,
}
use ns2_te_aomdv.Entry.{Entry, is_up, infinity2}
use ns2_te_aomdv.Table.{rt_lookup}
use ns2_te_aomdv.Queue.{Reason, no_route, deque}
use ns2_te_aomdv.Neighbor.{trust_threshold, of_int}
use ns2_te_aomdv.Agent.State.{
  M, Env, Agent, ◌>>=◌, ◌>>◌, skip, fail, get, put, assert, lift, emit, scheduled, dropped, freed,
  entry, set_entry,
}
use ns2_te_aomdv.Agent.Routes.{is_even}

module _ {D : Type 0} ⦃fl : Double D⦄ where
  -- The latencies that are positive, counted and added up.
  unfoldable pub latencies : ℕ → D → List D → ℕ × D
  latencies n total [] = (n, total)
  latencies n total (t ∷ ts) =
      let later : Bool = fl.lit 0 1 ≺ t in
      latencies (if later then n + 1 else n) (if later then total ⊕ t else total) ts

  -- NODE_TRAVERSAL_TIME is 0.03.
  unfoldable pub per_hop_time : Entry D → D
  per_hop_time e =
      let (n, total) = latencies 0 (fl.lit 0 1) e.disc_latency in
      if ltb 0 n then total ⊘ of_int n else fl.lit 3 100

-- The larger of the last time-to-live and the last hop count, two values of type `int`.
abbrev pub ring : ℕ → ℕ → ℕ
ring last hop_count = if ltb hop_count last then last else hop_count

-- TTL_START, TTL_THRESHOLD, TTL_INCREMENT and NETWORK_DIAMETER are 5, 7, 2 and 30.
unfoldable pub next_ttl : ℕ → ℕ
next_ttl last = if last == 0 then 5 else if ltb last 7 then last + 2 else 30

-- Whether the request goes through the whole network.
abbrev pub is_wide : ℕ → Bool
is_wide last = not (last == 0) && not (ltb last 7)

module _ {D : Type 0} ⦃fl : Double D⦄ (env : Env D) where
  -- `while ((p = rqueue.deque(dst))) drop(p, reason)`.
  unfoldable pub drop_waiting : ℕ → ℕ → Reason → M D (Unit {0})
  drop_waiting zero dst why = fail no_fuel
  drop_waiting (suc fuel) dst why = do
    s ← get
    r ← lift (deque env.now dst s.rqueue)
    put (record s { rqueue = r.1 })
    elim r.0 [ none ↦ skip | some p ↦ (do emit (dropped p why); drop_waiting fuel dst why) ]

  unfoldable pub drop_all_waiting : ℕ → Reason → M D (Unit {0})
  drop_all_waiting dst why = do s ← get; drop_waiting (suc (length s.rqueue.items)) dst why

  -- The entry when a request goes out: its ring, its count of wide requests, and the time before
  -- which no other request may follow, at most MAX_RREQ_TIMEOUT = 1.0 from now.
  unfoldable pub requested : Entry D → Entry D
  requested e =
      let last = ring e.req_last_ttl e.last_hop_count in
      let cnt = if is_wide last then u8 (e.req_cnt + 1) else e.req_cnt in
      let base : D = fl.lit 2 1 ⊗ of_int (next_ttl last) ⊗ per_hop_time e in
      let scaled : D = if ltb 0 cnt then base ⊗ of_int cnt else base in
      let timeout : D = scaled ⊕ env.now in
      record e {
        req_last_ttl = next_ttl last;
        req_cnt = cnt;
        req_timeout = if env.now ⊕ fl.lit 1 1 ≺ timeout then env.now ⊕ fl.lit 1 1 else timeout;
        expire = fl.lit 0 1;
      }

  -- The packet, from the numbers of the agent and of the entry at that time.
  unfoldable pub request_packet : Agent D → ℕ → ℕ → ℕ → ℕ → Packet D
  request_packet s dst dst_seqno src_seqno ttl = record (env.blank) {
    ptype = pt_teaomdv;
    size = env.ip_hdr_len + header_size (rreq rq);
    addr_type = af_none;
    prev_hop = s.index;
    saddr = s.index;
    daddr = ip_broadcast;
    sport = env.rt_port;
    dport = env.rt_port;
    ttl = ttl;
    header = rreq rq;
  }
    where
      rq : Request D
      rq = record (env.blank_request) {
        rq_hop_count = 0;
        rq_bcast_id = s.bid;
        rq_dst = dst;
        rq_dst_seqno = dst_seqno;
        rq_src = s.index;
        rq_src_seqno = src_seqno;
        rq_timestamp = env.now;
        rt = trust_threshold;
        fpt = of_int 1;
        rpt = of_int 1;
      }

  -- The part of `sendRequest` that sends.
  unfoldable pub emit_request : ℕ → M D (Unit {0})
  emit_request dst = do
    set_entry dst requested
    e ← entry dst
    s ← get
    let seqno = u32 (s.seqno + 2)
    put (record s { bid = u32 (s.bid + 1); seqno = seqno })
    assert (is_even seqno)
    emit (scheduled (request_packet s dst e.seqno seqno e.req_last_ttl) (fl.lit 0 1))

  -- RREQ_RETRIES is 3.
  unfoldable pub give_up : ℕ → M D (Unit {0})
  give_up dst = do
    set_entry dst λ e. record e { req_timeout = env.now ⊕ fl.lit 1 1; req_cnt = 0 }
    drop_all_waiting dst no_route
    emit (freed env.blank)

  unfoldable pub send_request : ℕ → M D (Unit {0})
  send_request dst = do
    s ← get
    assert (is_some (rt_lookup s.rtable dst))
    e ← entry dst
    if is_up e.flags
        then (do assert (not (e.hops == infinity2)); emit (freed env.blank))
        else if env.now ≺ e.req_timeout
        then emit (freed env.blank)
        else if ltb 3 e.req_cnt
        then give_up dst
        else emit_request dst
