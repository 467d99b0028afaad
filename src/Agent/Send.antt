-- ===== src/Agent/Send.antt =====
-- teaomdv/teaomdv.cc, the routines that fill in a control packet and schedule it: `sendError`,
-- `sendPta`, `sendReply`, `sendHello`, `sendRcom`, `sendProb`. The interface and error fields of the
-- common header, which nobody here reads, are left out.
use ns2_te_aomdv.Base.{ℕ, ◌+◌, Bool, true, List, Double, ◌⊗◌, if◌then◌else◌}
use ns2_te_aomdv.Packet.{
  Packet, Header, hello, rrep, rerr, rcom, prob, pta, Recommen, Pta, pt_teaomdv, af_none, af_inet,
  dir_down, ip_broadcast, header_size, u8,
}
use ns2_te_aomdv.Neighbor.{trust_threshold}
use ns2_te_aomdv.Agent.State.{M, Env, ◌>>=◌, get, emit, scheduled, draw}

module _ {D : Type 0} ⦃fl : Double D⦄ (env : Env D) where
  -- The fields that all of them set alike: the header with its size, and the ports.
  unfoldable pub control_packet : Packet D → Header D → ℕ → Packet D
  control_packet p h index = record p {
    ptype = pt_teaomdv;
    size = env.ip_hdr_len + header_size h;
    addr_type = af_none;
    prev_hop = index;
    saddr = index;
    sport = env.rt_port;
    dport = env.rt_port;
    header = h;
  }

  -- `sendError(p, jitter)` for a packet whose list of destinations is filled in.
  unfoldable pub send_error : List (ℕ × ℕ) → Bool → M D (Unit {0})
  unfolding control_packet
  send_error dests jitter = do
    s ← get
    let p = record (control_packet env.blank (rerr dests) s.index) {
      next_hop = 0;
      direction = dir_down;
      daddr = ip_broadcast;
      ttl = 1;
    }
    if jitter
        then (draw env >>= λ u. emit (scheduled p (fl.lit 1 100 ⊗ u)))
        else emit (scheduled p (fl.lit 0 1))

  -- `sendPta(p)` for a packet whose three fields and whose destination are filled in.
  unfoldable pub send_pta : Pta → ℕ → M D (Unit {0})
  unfolding control_packet
  send_pta re daddr = do
    s ← get
    emit (
        scheduled
          (record (control_packet env.blank (pta re) s.index) {
            next_hop = 0;
            direction = dir_down;
            daddr = daddr;
            ttl = 1;
          })
          (fl.lit 0 1))

  -- NETWORK_DIAMETER is 30. The hop count is cut to the `u_int8_t` of the header.
  unfoldable pub send_reply : ℕ → ℕ → ℕ → ℕ → D → D → ℕ → ℕ → ℕ → D → D → M D (Unit {0})
  unfolding control_packet
  send_reply ipdst hop_count rpdst rpseq lifetime timestamp nexthop bcast_id rp_first_hop fpt rpt =
      do
        s ← get
        let h = rrep (record {
          rp_hop_count = u8 hop_count;
          rp_dst = rpdst;
          rp_dst_seqno = rpseq;
          rp_src = s.index;
          rp_lifetime = lifetime;
          rp_timestamp = timestamp;
          rp_bcast_id = bcast_id;
          rp_first_hop = rp_first_hop;
          rt = trust_threshold;
          fpt = fpt;
          rpt = rpt;
        })
        emit (
            scheduled
              (record (control_packet env.blank h s.index) {
                addr_type = af_inet;
                next_hop = nexthop;
                callback = true;
                daddr = ipdst;
                ttl = 30;
              })
              (fl.lit 0 1))

  -- A packet to all neighbours, one hop far, with up to 0.1 s of jitter.
  unfoldable pub send_beacon : Packet D → Header D → M D (Unit {0})
  unfolding control_packet
  send_beacon p h = do
    s ← get
    u ← draw env
    emit (
        scheduled (record (control_packet p h s.index) { daddr = ip_broadcast; ttl = 1 })
          (fl.lit 1 10 ⊗ u))

  -- The lifetime is (1 + ALLOWED_HELLO_LOSS) * HELLO_INTERVAL = 8.
  unfoldable pub send_hello : M D (Unit {0})
  unfolding send_beacon
  send_hello = do
    s ← get
    send_beacon env.blank (
        hello (record (env.blank_reply) {
          rp_hop_count = 0;
          rp_dst = s.index;
          rp_dst_seqno = s.seqno;
          rp_lifetime = fl.lit 8 1;
        }))

  unfoldable pub send_rcom : Recommen D → M D (Unit {0})
  unfolding send_beacon
  send_rcom rc = send_beacon env.blank (rcom rc)

  unfoldable pub send_prob : M D (Unit {0})
  unfolding send_beacon
  send_prob = send_beacon env.blank prob
