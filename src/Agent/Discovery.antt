-- ===== src/Agent/Discovery.antt =====
-- A route discovery from end to end: what the destination answers is news for the node that asked.
pub mod Destination
pub mod Process
pub mod Source
use ns2_te_aomdv.Base.{
  ℕ, ◌+◌, ◌^◌, ◌<◌, ◌≤◌, ◌≡◌, refl, true, false, Option, some, [], ◌∷◌, find, ltb, arith, Double,
  ◌⊕◌, done,
}
use ns2_te_aomdv.Packet.{Packet, Request, Reply, rrep, af_inet}
use ns2_te_aomdv.Entry.{Entry, RoutePath, is_up, path_insert, path_delete_all}
use ns2_te_aomdv.Neighbor.{Neighbor, trust_threshold}
use ns2_te_aomdv.Agent.State.{Env, Agent, ◌>>=◌, ◌>>◌, scheduled, freed, nb_lookup, has_addr}
use ns2_te_aomdv.Agent.Send.{send_reply, control_packet}
use ns2_te_aomdv.Agent.RecvRequest.{renew, add_path}
use ns2_te_aomdv.Agent.RecvRequest.Answer.{reply_own, reply_seqno}
use ns2_te_aomdv.Agent.RecvReply.{learn_forward, reply_expire}
use ns2_te_aomdv.Agent.Seqno.{reply_seqno_lem}

module _ {D : Type 0} ⦃fl : Double D⦄ (env asker : Env D) where
  -- The destination `s` answers the request by a packet to the source of the request, and the source
  -- learns from the reply in it that it can reach the destination in one hop.
  pub record Discovered (p : Packet D) (rq : Request D) (max_paths diff : ℕ)
      (nb : Option (Neighbor D)) (e : Entry D) (s : Agent D) : Type 0 where
    pub after : Agent D
    pub sent : Packet D
    pub reply : Reply D
    pub learnt : Entry D
    pub path : RoutePath D
    pub answers : reply_own env p rq s ≡ done (tt, after)
    pub sends : after.effects ≡ freed p ∷ scheduled sent (fl.lit 0 1) ∷ s.effects
    pub carries : sent.header ≡ rrep reply
    pub to_source : sent.daddr ≡ rq.rq_src
    pub for_me : reply.rp_dst ≡ s.index
    pub accepted : learn_forward asker max_paths diff nb reply e ≡ done (true, learnt)
    pub up : is_up learnt.flags ≡ true
    pub fresh : learnt.seqno ≡ after.seqno
    pub only_path : learnt.paths ≡ path ∷ []
    pub next_hop : path.nexthop ≡ s.index
    pub one_hop : path.hopcount ≡ 1

  pub reply_of : Packet D → Request D → Neighbor D → Agent D → Reply D
  reply_of p rq nb s = record {
    rp_hop_count = 0;
    rp_dst = s.index;
    rp_dst_seqno = reply_seqno env s.seqno rq.rq_dst_seqno;
    rp_src = s.index;
    rp_lifetime = fl.lit 10 1;
    rp_timestamp = rq.rq_timestamp;
    rp_bcast_id = rq.rq_bcast_id;
    rp_first_hop = p.saddr;
    rt = trust_threshold;
    fpt = fl.lit 1 1;
    rpt = nb.tv;
  }

  pub reply_packet : Packet D → Request D → Neighbor D → Agent D → Packet D
  unfolding reply_of
  reply_packet p rq nb s =
      record (control_packet env env.blank (rrep (reply_of p rq nb s)) s.index) {
        addr_type = af_inet;
        next_hop = p.saddr;
        callback = true;
        daddr = rq.rq_src;
        ttl = 30;
      }

  pub answered : Packet D → Request D → Neighbor D → Agent D → Agent D
  unfolding reply_packet
  answered p rq nb s = record s {
    seqno = reply_seqno env s.seqno rq.rq_dst_seqno;
    effects = freed p ∷ scheduled (reply_packet p rq nb s) (fl.lit 0 1) ∷ s.effects;
  }

  pub reply_own_lem :
      (p : Packet D) (rq : Request D) (nb : Neighbor D) (s : Agent D)
      → nb_lookup p.saddr s ≡ some nb
      → reply_own env p rq s ≡ done (tt, answered p rq nb s)
  unfolding reply_own send_reply nb_lookup answered reply_packet reply_of
  reply_own_lem p rq nb s known =
      let found : find (has_addr p.saddr) s.nbhead ≡ some nb = known in
      rw (◌>>=◌, ◌>>◌, found) (rw (◌>>=◌, ◌>>◌, found) refl)

  one_path : Packet D → Request D → Neighbor D → Agent D → RoutePath D
  one_path p rq nb s = record {
    nexthop = s.index;
    hopcount = 1;
    expire = asker.now ⊕ fl.lit 10 1;
    ts = asker.now;
    lasthop = p.saddr;
    error = false;
    fpt = fl.lit 1 1;
    rpt = nb.tv;
  }

  -- The entry of the node that asked.
  found_route : Packet D → Request D → Neighbor D → Agent D → Entry D → Entry D
  unfolding reply_of
  found_route p rq nb s e =
      let rp = reply_of p rq nb s in
      add_path asker (renew asker e rp.rp_dst_seqno) s.index 0 (asker.now ⊕ fl.lit 10 1) p.saddr
        (fl.lit 1 1) nb.tv

  learn_forward_lem :
      (p : Packet D) (rq : Request D) (max_paths diff : ℕ) (nb : Neighbor D)
      (back : Option (Neighbor D)) (e : Entry D) (s : Agent D)
      → e.seqno < reply_seqno env s.seqno rq.rq_dst_seqno
      → learn_forward asker max_paths diff back (reply_of p rq nb s) e
        ≡ done (true, found_route p rq nb s e)
  unfolding learn_forward reply_expire reply_of found_route
  learn_forward_lem p rq max_paths diff nb back e s h =
      let news : ltb e.seqno (reply_seqno env s.seqno rq.rq_dst_seqno) ≡ true = ground arith in
      rw news refl

  -- A request for this node that came from a known neighbour, if neither the own number nor the one
  -- asked for is within 3 of the end of 32 bits: the node answers with a reply to the source of the
  -- request, and a node whose number for this destination is not above the one asked for accepts
  -- that reply, if it comes to it unchanged: its entry is then up, with the number of the reply and
  -- one path, a hop long, to the node that answered.
  pub learn_forward-reply_own :
      (p : Packet D) (rq : Request D) (max_paths diff : ℕ) (nb : Neighbor D)
      (back : Option (Neighbor D)) (e : Entry D) (s : Agent D)
      → nb_lookup p.saddr s ≡ some nb
      → s.seqno + 3 < 2 ^ 32
      → rq.rq_dst_seqno + 3 < 2 ^ 32
      → e.seqno ≤ rq.rq_dst_seqno
      → Discovered p rq max_paths diff back e s
  unfolding control_packet reply_of reply_packet answered found_route one_path renew add_path
      path_insert path_delete_all
  learn_forward-reply_own p rq max_paths diff nb back e s known own asked old = record {
    after = answered p rq nb s;
    sent = reply_packet p rq nb s;
    reply = reply_of p rq nb s;
    learnt = found_route p rq nb s e;
    path = one_path p rq nb s;
    answers = reply_own_lem p rq nb s known;
    sends = refl;
    carries = refl;
    to_source = refl;
    for_me = refl;
    accepted =
        learn_forward_lem p rq max_paths diff nb back e s
          (omega (arith, reply_seqno_lem env s.seqno rq.rq_dst_seqno own asked));
    up = refl;
    fresh = refl;
    only_path = refl;
    next_hop = refl;
    one_hop = refl;
  }
