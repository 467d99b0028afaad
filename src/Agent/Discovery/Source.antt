-- ===== src/Agent/Discovery/Source.antt =====
-- A reply that comes to the source of the request, through the whole handler.
use ns2_te_aomdv.Base.{
  ◌+◌, ◌<◌, ◌≡◌, refl, ap, ◌∙◌, true, false, ◌&&◌, not, none, some, [], ◌∷◌, find-update_first,
  find-passes, update_first, ltb, ◌==◌, ==_refl, arith, Double, ◌≺◌, min_d, done,
}
use ns2_te_aomdv.Packet.{Packet, Reply, u16}
use ns2_te_aomdv.Entry.{Entry, RoutePath, is_up, path_insert, path_delete_all}
use ns2_te_aomdv.Neighbor.{Neighbor}
use ns2_te_aomdv.Table.{rt_lookup, has_dst}
use ns2_te_aomdv.Queue.Purge.{IsCounted}
use ns2_te_aomdv.Queue.Laws.{served}
use ns2_te_aomdv.Agent.State.{Env, Agent, ◌>>=◌, ◌>>◌, freed, nb_lookup}
use ns2_te_aomdv.Agent.RecvRequest.{renew, add_path}
use ns2_te_aomdv.Agent.RecvRequest.Answer.{reset_soft_state}
use ns2_te_aomdv.Agent.RecvReply.{
  cut_trust, reply_expire, learn_forward, pass_reply, process_reply, recv_reply,
}
use ns2_te_aomdv.Agent.Discovery.Process.{
  known_or_new, prepared, find_or_add-prepared, lookup-extended, flushed, route_is_up-idle,
}

module _ {D : Type 0} ⦃fl : Double D⦄ (env : Env D) where
  -- The route to the destination is set up anew.
  abbrev onward : Reply D → Entry D → Entry D
  onward rp e =
      add_path env (renew env e rp.rp_dst_seqno) rp.rp_src rp.rp_hop_count (reply_expire env rp)
        rp.rp_first_hop rp.fpt rp.rpt

  abbrev learnt : Reply D → Entry D → Agent D → Agent D
  learnt rp e s = record s { rtable = update_first (has_dst rp.rp_dst) (λ _. onward rp e) s.rtable }

  onward-found :
      (rp : Reply D) (e : Entry D) (s : Agent D)
      → rt_lookup s.rtable rp.rp_dst ≡ some e
      → rt_lookup (learnt rp e s).rtable rp.rp_dst ≡ some (onward rp e)
  unfolding rt_lookup renew add_path path_insert path_delete_all
  onward-found rp e s there =
      find-update_first (has_dst rp.rp_dst) (λ _. onward rp e) s.rtable e
        (λ _ _. find-passes (has_dst rp.rp_dst) s.rtable e there) there

  abbrev settled : Packet D → Reply D → Entry D → Agent D → Agent D
  settled p rp e s =
      let s1 : Agent D = flushed env rp.rp_dst (learnt rp e (prepared env rp.rp_dst s)) in
      record s1 { effects = freed p ∷ s1.effects }

  process_reply-settled :
      (p : Packet D) (rp : Reply D) (e : Entry D) (s : Agent D)
      → known_or_new env rp.rp_dst (rt_lookup s.rtable rp.rp_dst) ≡ e
      → e.seqno < rp.rp_dst_seqno
      → p.daddr ≡ s.index
      → IsCounted s.rqueue
      → (served env.now rp.rp_dst s.rqueue).0 ≡ none
      → process_reply env p rp s ≡ done (tt, settled p rp e s)
  unfolding process_reply learn_forward pass_reply renew add_path path_insert path_delete_all
  process_reply-settled p rp e s is_entry newer mine counted idle =
      let s1 : Agent D = prepared env rp.rp_dst s in
      let there : rt_lookup s1.rtable rp.rp_dst ≡ some e =
        lookup-extended env rp.rp_dst _ s.rtable refl ∙ ap some is_entry in
      let news : ltb e.seqno rp.rp_dst_seqno ≡ true = ground arith in
      let me : (p.daddr == s.index) ≡ true = rw mine (==_refl s.index) in
      rw (◌>>=◌, ◌>>◌, find_or_add-prepared env rp.rp_dst s)
        (rw (◌>>=◌, there)
          (rw news (
            rw
              (
                ◌>>=◌,
                ◌>>◌,
                route_is_up-idle env rp.rp_dst (onward rp e) (learnt rp e s1)
                    (onward-found rp e s1 there) refl counted idle,
              )
              (rw me refl))))

  -- The node has one path to the destination, over the node that the reply names, and the reply goes
  -- no further.
  pub record Reached (p : Packet D) (rp : Reply D) (nb : Neighbor D) (s : Agent D) : Type 0 where
    pub after : Agent D
    pub route : Entry D
    pub path : RoutePath D
    pub ran : recv_reply env p rp s ≡ done (tt, after)
    pub ends_here : after.effects ≡ freed p ∷ s.effects
    pub route_found : rt_lookup after.rtable rp.rp_dst ≡ some route
    pub up : is_up route.flags ≡ true
    pub fresh : route.seqno ≡ rp.rp_dst_seqno
    pub asks_no_more : route.req_cnt ≡ 0
    pub only_path : route.paths ≡ path ∷ []
    pub next_hop : path.nexthop ≡ rp.rp_src
    pub hops : path.hopcount ≡ u16 (rp.rp_hop_count + 1)
    pub trust_cut : path.fpt ≡ min_d rp.fpt nb.tv

  -- The reply as the handler goes on with it.
  abbrev read : Reply D → Neighbor D → Reply D
  read rp nb = record rp { fpt = min_d rp.fpt nb.tv }

  cut_trust-known :
      (p : Packet D) (rp : Reply D) (nb : Neighbor D) (s : Agent D)
      → nb_lookup p.prev_hop s ≡ some nb
      → cut_trust env (nb_lookup p.prev_hop s) rp rp.fpt ≡ min_d rp.fpt nb.tv
  unfolding cut_trust
  cut_trust-known p rp nb s known = rw known refl

  route_after :
      (p : Packet D) (rp : Reply D) (nb : Neighbor D) (e : Entry D) (s : Agent D)
      → known_or_new env rp.rp_dst (rt_lookup s.rtable rp.rp_dst) ≡ e
      → rt_lookup (settled p (read rp nb) e s).rtable rp.rp_dst
        ≡ some (reset_soft_state env (onward (read rp nb) e))
  unfolding rt_lookup
  route_after p rp nb e s is_entry =
      let s1 : Agent D = prepared env rp.rp_dst s in
      find-update_first (has_dst rp.rp_dst) (reset_soft_state env) (learnt (read rp nb) e s1).rtable
        (onward (read rp nb) e) (λ _ h. h)
        (onward-found (read rp nb) e s1
          (lookup-extended env rp.rp_dst _ s.rtable refl ∙ ap some is_entry))

  recv_reply-settled :
      (p : Packet D) (rp : Reply D) (nb : Neighbor D) (e : Entry D) (s : Agent D)
      → nb_lookup p.prev_hop s ≡ some nb
      → ((min_d rp.fpt nb.tv ≺ rp.rt) && not (p.prev_hop == rp.rp_src)) ≡ false
      → (rp.rp_dst == s.index) ≡ false
      → known_or_new env rp.rp_dst (rt_lookup s.rtable rp.rp_dst) ≡ e
      → e.seqno < rp.rp_dst_seqno
      → p.daddr ≡ s.index
      → IsCounted s.rqueue
      → (served env.now rp.rp_dst s.rqueue).0 ≡ none
      → recv_reply env p rp s ≡ done (tt, settled p (read rp nb) e s)
  unfolding recv_reply
  recv_reply-settled p rp nb e s known trusted other is_entry newer mine counted idle =
      let cut : cut_trust env (nb_lookup p.prev_hop s) rp rp.fpt ≡ min_d rp.fpt nb.tv =
        cut_trust-known p rp nb s known in
      rw (◌>>=◌, ◌>>◌, cut)
        (rw trusted
          (rw other (process_reply-settled p (read rp nb) e s is_entry newer mine counted idle)))

  -- A reply for a request of this node, from a known neighbour, that passes the check of trust and
  -- brings a higher number for a destination that is not this node than the node's entry for it has
  -- (0 if there is none), while no packet in the queue waits for the destination: `recvReply`
  -- returns, the reply goes no further, and the node has set up one path to the destination, over the
  -- node that the reply names, with its trust cut to that of the neighbour, and asks no more.
  pub recv_reply-Reached :
      (p : Packet D) (rp : Reply D) (nb : Neighbor D) (s : Agent D)
      → nb_lookup p.prev_hop s ≡ some nb
      → ((min_d rp.fpt nb.tv ≺ rp.rt) && not (p.prev_hop == rp.rp_src)) ≡ false
      → (rp.rp_dst == s.index) ≡ false
      → (known_or_new env rp.rp_dst (rt_lookup s.rtable rp.rp_dst)).seqno < rp.rp_dst_seqno
      → p.daddr ≡ s.index
      → IsCounted s.rqueue
      → (served env.now rp.rp_dst s.rqueue).0 ≡ none
      → Reached p rp nb s
  unfolding renew add_path path_insert path_delete_all reply_expire
  recv_reply-Reached p rp nb s known trusted other newer mine counted idle =
      let e = known_or_new env rp.rp_dst (rt_lookup s.rtable rp.rp_dst) in
      record {
        after = settled p (read rp nb) e s;
        route = reset_soft_state env (onward (read rp nb) e);
        path = record {
          nexthop = rp.rp_src;
          hopcount = u16 (rp.rp_hop_count + 1);
          expire = reply_expire env rp;
          ts = env.now;
          lasthop = rp.rp_first_hop;
          error = false;
          fpt = min_d rp.fpt nb.tv;
          rpt = rp.rpt;
        };
        ran = recv_reply-settled p rp nb e s known trusted other refl newer mine counted idle;
        ends_here = refl;
        route_found = route_after p rp nb e s refl;
        up = refl;
        fresh = refl;
        asks_no_more = refl;
        only_path = refl;
        next_hop = refl;
        hops = refl;
        trust_cut = refl;
      }
