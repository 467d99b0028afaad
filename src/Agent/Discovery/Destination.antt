-- ===== src/Agent/Discovery/Destination.antt =====
-- A request that comes to its destination, through the whole handler.
use ns2_te_aomdv.Base.{
  ◌<◌, ◌+◌, ◌≡◌, refl, ap, ◌∙◌, true, false, none, some, [], ◌∷◌, if◌then◌else◌, find-update_first,
  ◌==◌, ==_refl, Double, min_d, done, is_some,
}
use ns2_te_aomdv.Packet.{Packet, Request, Reply, rrep, u16}
use ns2_te_aomdv.Entry.{Entry, RoutePath, is_up, path_insert, path_delete_all}
use ns2_te_aomdv.Neighbor.{Neighbor}
use ns2_te_aomdv.Table.{rt_lookup, has_dst}
use ns2_te_aomdv.Queue.Purge.{IsCounted}
use ns2_te_aomdv.Queue.Laws.{served}
use ns2_te_aomdv.Agent.State.{Env, Agent, ◌>>=◌, ◌>>◌, scheduled, freed, nb_lookup}
use ns2_te_aomdv.Agent.Ids.{id_get, id_insert}
use ns2_te_aomdv.Agent.Send.{control_packet}
use ns2_te_aomdv.Agent.RecvRequest.{renew, add_path, reverse_expire}
use ns2_te_aomdv.Agent.RecvRequest.Answer.{
  reset_soft_state, request_rpt, is_distrusted, recv_request,
}
use ns2_te_aomdv.Agent.Discovery.{answered, reply_packet, reply_of}
use ns2_te_aomdv.Agent.Discovery.Process.{
  known_or_new, prepared, lookup-extended, back, back-found, flushed, learnt, process_request-reply,
}

module _ {D : Type 0} ⦃fl : Double D⦄ (env : Env D) where
  -- The node has answered the request by a reply to its source, knows the request, and has one path
  -- to the source, over the neighbour that the request came from.
  pub record Answers (p : Packet D) (rq : Request D) (nb : Neighbor D) (s : Agent D) : Type 0 where
    pub after : Agent D
    pub sent : Packet D
    pub reply : Reply D
    pub route : Entry D
    pub path : RoutePath D
    pub ran : recv_request env p rq s ≡ done (tt, after)
    pub sends : after.effects ≡ freed p ∷ scheduled sent (fl.lit 0 1) ∷ s.effects
    pub carries : sent.header ≡ rrep reply
    pub to_source : sent.daddr ≡ rq.rq_src
    pub back_over : sent.next_hop ≡ p.saddr
    pub for_me : reply.rp_dst ≡ s.index
    pub same_request : reply.rp_bcast_id ≡ rq.rq_bcast_id
    pub own_trust : reply.rpt ≡ nb.tv
    pub is_known : is_some (id_get rq.rq_src rq.rq_bcast_id after) ≡ true
    pub route_found : rt_lookup after.rtable rq.rq_src ≡ some route
    pub up : is_up route.flags ≡ true
    pub fresh : route.seqno ≡ rq.rq_src_seqno
    pub only_path : route.paths ≡ path ∷ []
    pub next_hop : path.nexthop ≡ p.saddr
    pub hops : path.hopcount ≡ u16 (rq.rq_hop_count + 1)
    pub cut_trust : path.rpt ≡ min_d rq.rpt nb.tv

  -- The request as the handler goes on with it.
  abbrev read : Request D → Neighbor D → Agent D → Request D
  read rq nb s = record rq {
    rpt = min_d rq.rpt nb.tv;
    rq_first_hop = if rq.rq_hop_count == 0 then s.index else rq.rq_first_hop;
  }

  abbrev noted : Request D → Agent D → Agent D
  noted rq s = id_insert env rq.rq_src rq.rq_bcast_id s

  abbrev final : Packet D → Request D → Neighbor D → Entry D → Agent D → Agent D
  final p rq nb e s =
      answered env env p (read rq nb s) nb (
        flushed env rq.rq_src (learnt env p (read rq nb s) e (prepared env rq.rq_src (noted rq s))))

  request_rpt-known :
      (p : Packet D) (rq : Request D) (nb : Neighbor D) (s : Agent D)
      → nb_lookup p.saddr s ≡ some nb
      → request_rpt env (nb_lookup p.saddr s) rq ≡ min_d rq.rpt nb.tv
  unfolding request_rpt
  request_rpt-known p rq nb s known = rw known refl

  nb_lookup-noted :
      (p : Packet D) (rq : Request D) (nb : Neighbor D) (s : Agent D)
      → nb_lookup p.saddr s ≡ some nb
      → nb_lookup p.saddr (noted rq s) ≡ some nb
  unfolding nb_lookup id_insert
  nb_lookup-noted p rq nb s known = known

  recv_request-final :
      (p : Packet D) (rq : Request D) (nb : Neighbor D) (e : Entry D) (s : Agent D)
      → nb_lookup p.saddr s ≡ some nb
      → (rq.rq_src == s.index) ≡ false
      → is_distrusted env p (record rq { rpt = min_d rq.rpt nb.tv }) ≡ false
      → id_get rq.rq_src rq.rq_bcast_id s ≡ none
      → known_or_new env rq.rq_src (rt_lookup s.rtable rq.rq_src) ≡ e
      → e.seqno < rq.rq_src_seqno
      → rq.rq_dst ≡ s.index
      → IsCounted s.rqueue
      → (served env.now rq.rq_src s.rqueue).0 ≡ none
      → recv_request env p rq s ≡ done (tt, final p rq nb e s)
  unfolding recv_request id_insert
  recv_request-final p rq nb e s known other trusted new there newer mine counted idle =
      let cut : request_rpt env (nb_lookup p.saddr s) rq ≡ min_d rq.rpt nb.tv =
        request_rpt-known p rq nb s known in
      let known_still : nb_lookup p.saddr (noted rq s) ≡ some nb =
        nb_lookup-noted p rq nb s known in
      rw (◌>>=◌, ◌>>◌, cut)
        (rw new (
          rw other (
            rw trusted (
              rw cut (
                process_request-reply env false p (read rq nb s) nb e (noted rq s) known_still there
                  newer mine counted idle)))))

  route_after :
      (p : Packet D) (rq : Request D) (nb : Neighbor D) (e : Entry D) (s : Agent D)
      → known_or_new env rq.rq_src (rt_lookup s.rtable rq.rq_src) ≡ e
      → rt_lookup (final p rq nb e s).rtable rq.rq_src
        ≡ some (reset_soft_state env (back env p (read rq nb s) e))
  unfolding rt_lookup answered id_insert
  route_after p rq nb e s there =
      find-update_first (has_dst rq.rq_src) (reset_soft_state env)
        (learnt env p (read rq nb s) e (prepared env rq.rq_src (noted rq s))).rtable
        (back env p (read rq nb s) e) (λ _ h. h)
        (back-found env p (read rq nb s) e (prepared env rq.rq_src (noted rq s))
          (lookup-extended env rq.rq_src _ s.rtable refl ∙ ap some there))

  known_after :
      (p : Packet D) (rq : Request D) (nb : Neighbor D) (e : Entry D) (s : Agent D)
      → is_some (id_get rq.rq_src rq.rq_bcast_id (final p rq nb e s)) ≡ true
  unfolding id_get answered id_insert
  known_after p rq nb e s = rw (==_refl rq.rq_src) (rw (==_refl rq.rq_bcast_id) refl)

  -- A request for this node that is not its own, that is not known yet, that came from a known
  -- neighbour and passes the check of trust, that brings a higher number for its source than the
  -- node's entry for the source has (0 if there is none), while no packet in the queue waits for the
  -- source: `recvRequest` returns, and
  -- the node has sent one reply, to the source and over that neighbour; it has set up one path to the
  -- source, over that neighbour and with its trust cut to that neighbour's; it knows the request.
  pub recv_request-Answers :
      (p : Packet D) (rq : Request D) (nb : Neighbor D) (s : Agent D)
      → nb_lookup p.saddr s ≡ some nb
      → (rq.rq_src == s.index) ≡ false
      → is_distrusted env p (record rq { rpt = min_d rq.rpt nb.tv }) ≡ false
      → id_get rq.rq_src rq.rq_bcast_id s ≡ none
      → (known_or_new env rq.rq_src (rt_lookup s.rtable rq.rq_src)).seqno < rq.rq_src_seqno
      → rq.rq_dst ≡ s.index
      → IsCounted s.rqueue
      → (served env.now rq.rq_src s.rqueue).0 ≡ none
      → Answers p rq nb s
  unfolding answered reply_packet reply_of control_packet renew add_path path_insert path_delete_all
      id_insert
  recv_request-Answers p rq nb s known other trusted new newer mine counted idle =
      let e = known_or_new env rq.rq_src (rt_lookup s.rtable rq.rq_src) in
      record {
        after = final p rq nb e s;
        sent = reply_packet env env p (read rq nb s) nb (noted rq s);
        reply = reply_of env env p (read rq nb s) nb (noted rq s);
        route = reset_soft_state env (back env p (read rq nb s) e);
        path = record {
          nexthop = p.saddr;
          hopcount = u16 (rq.rq_hop_count + 1);
          expire = reverse_expire env;
          ts = env.now;
          lasthop = (read rq nb s).rq_first_hop;
          error = false;
          fpt = rq.fpt;
          rpt = min_d rq.rpt nb.tv;
        };
        ran = recv_request-final p rq nb e s known other trusted new refl newer mine counted idle;
        sends = refl;
        carries = refl;
        to_source = refl;
        back_over = refl;
        for_me = refl;
        same_request = refl;
        own_trust = refl;
        is_known = known_after p rq nb e s;
        route_found = route_after p rq nb e s refl;
        up = refl;
        fresh = refl;
        only_path = refl;
        next_hop = refl;
        hops = refl;
        cut_trust = refl;
      }
