-- ===== src/Agent/Receive.antt =====
-- teaomdv/teaomdv.cc, "Packet Reception Routines": `recv` and `recvTEAOMDV`.
use ns2_te_aomdv.Base.{◌+◌, ◌&&◌, none, ◌==◌, if◌then◌else◌, not, Double, exits}
use ns2_te_aomdv.Packet.{
  Packet, Header, hello, rreq, rrep, rerr, rcom, prob, pta, other, ip_broadcast, dec_int,
}
use ns2_te_aomdv.Queue.{route_loop, ttl_expired}
use ns2_te_aomdv.Agent.State.{M, Env, ◌>>=◌, ◌>>◌, fail, get, assert, emit, dropped}
use ns2_te_aomdv.Agent.Routes.{recv_error}
use ns2_te_aomdv.Agent.Neighbors.{recv_hello, recv_prob, recv_rcom}
use ns2_te_aomdv.Agent.Forward.{forward, no_delay, is_teaomdv}
use ns2_te_aomdv.Agent.Resolve.{rt_resolve}
use ns2_te_aomdv.Agent.RecvRequest.Answer.{recv_request}
use ns2_te_aomdv.Agent.RecvReply.{recv_reply}
use ns2_te_aomdv.Agent.Pta.{recv_pta}

module _ {D : Type 0} ⦃fl : Double D⦄ (env : Env D) where
  -- The switch on the type of the packet.
  unfoldable pub dispatch : Packet D → Header D → M D (Unit {0})
  dispatch p (rreq rq) = recv_request env p rq
  dispatch p (rrep rp) = recv_reply env p rp
  dispatch p (rerr unreachable) = recv_error env p unreachable
  dispatch p (hello rp) = recv_hello env p rp
  dispatch p (rcom rc) = recv_rcom env p rc
  dispatch p prob = recv_prob env p
  dispatch p (pta re) = recv_pta env p re
  dispatch p (other t) = fail exits

  unfoldable pub recv_teaomdv : Packet D → M D (Unit {0})
  recv_teaomdv p = do
    assert (p.sport == env.rt_port)
    assert (p.dport == env.rt_port)
    dispatch p p.header

  -- A packet that has its way through `recv`: it is resolved, or broadcast.
  unfoldable pub route_packet : Packet D → M D (Unit {0})
  route_packet p =
      if not (p.daddr == ip_broadcast) then rt_resolve env p else forward env none p no_delay

  -- The first packet of an own flow gets its header; an own packet that comes back is dropped; one
  -- of somebody else lives one hop less.
  unfoldable pub recv_data : Packet D → M D (Unit {0})
  recv_data p = do
    s ← get
    if (p.saddr == s.index) && (p.num_forwards == 0)
        then route_packet (record p {
          size = p.size + env.ip_hdr_len;
          salvage_count = 0;
          ttl = if p.daddr == ip_broadcast then p.ttl else 30;
        })
        else if p.saddr == s.index
        then emit (dropped p route_loop)
        else if dec_int p.ttl == 0
        then emit (dropped (record p { ttl = dec_int p.ttl }) ttl_expired)
        else route_packet (record p { ttl = dec_int p.ttl })

  unfoldable pub recv : Packet D → M D (Unit {0})
  recv p = do
    assert env.has_target
    if is_teaomdv p.ptype then recv_teaomdv (record p { ttl = dec_int p.ttl }) else recv_data p
