-- ===== src/Agent/Resolve/Down.antt =====
-- teaomdv/teaomdv.cc: `rt_resolve` for a packet to a destination to which no route is up.
use ns2_te_aomdv.Base.{
  ℕ, ◌≡◌, refl, ap, ◌∙◌, true, false, ◌&&◌, Option, none, some, List, [], ◌∷◌, find-passes, ◌==◌,
  ==_refl, arith, Double, done,
}
use ns2_te_aomdv.Packet.{Packet, rerr, dir_down, ip_broadcast}
use ns2_te_aomdv.Entry.{Entry, is_up, infinity2, rtf_down}
use ns2_te_aomdv.Table.{rt_lookup, has_dst}
use ns2_te_aomdv.Queue.{Reason, no_route}
use ns2_te_aomdv.Queue.Laws.{enqueued, enque_lem}
use ns2_te_aomdv.Agent.State.{Env, Agent, Effect, scheduled, dropped, ◌>>=◌, ◌>>◌, entry}
use ns2_te_aomdv.Agent.Send.{control_packet, send_error}
use ns2_te_aomdv.Agent.Routes.{is_even}
use ns2_te_aomdv.Agent.Resolve.{buffer, refuse, report_drop, rt_resolve}
use ns2_te_aomdv.Agent.Request.{send_request}
use ns2_te_aomdv.Agent.Request.Branches.{after_request, send_request_lem}
use ns2_te_aomdv.Agent.Discovery.Process.{
  known_or_new, prepared, find_or_add-prepared, lookup-extended,
}
use ns2_te_aomdv.Agent.Invariant.{IsBounded}

module _ {D : Type 0} ⦃fl : Double D⦄ (env : Env D) where
  -- The report of the packet that had to leave the queue, if one had to.
  abbrev pub displaced : Option (Packet D × Reason) → List (Effect D) → List (Effect D)
  displaced none es = es
  displaced (some (p, why)) es = dropped p why ∷ es

  -- The packet waits at the end of the queue.
  abbrev pub queued : Packet D → Agent D → Agent D
  queued p s = record s {
    rqueue = (enqueued env.now p s.rqueue).1;
    effects = displaced (enqueued env.now p s.rqueue).0 s.effects;
  }

  report_drop_lem :
      (o : Option (Packet D × Reason)) (s : Agent D)
      → report_drop env o s ≡ done (tt, record s { effects = displaced o s.effects })
  report_drop_lem none s = refl
  report_drop_lem (some (p, why)) s = refl

  buffer_lem :
      (p : Packet D) (s : Agent D) → IsBounded s.rqueue → buffer env p s ≡ done (tt, queued p s)
  unfolding buffer
  buffer_lem p s b =
      rw ((enque_lem env.now p s.rqueue b.counted b.within b.positive).0) (report_drop_lem _ _)

  found-dst :
      (dst : ℕ) (table : List (Entry D)) (e : Entry D) → rt_lookup table dst ≡ some e → e.dst ≡ dst
  unfolding rt_lookup
  found-dst dst table e h = ground (arith, find-passes (has_dst dst) table e h)

  -- For a packet of this node, whose number is even, on a queue within its limit: if the entry for the
  -- packet's destination, which is added if there is none, is not up, `rt_resolve` returns; the packet
  -- waits at the end of the queue, where only the oldest packet may have had to leave for it, and is
  -- reported then; and `sendRequest` for the destination does what it does for this entry: it sends
  -- one request, waits, or gives up.
  pub rt_resolve_own :
      (p : Packet D) (e : Entry D) (s : Agent D)
      → p.saddr ≡ s.index
      → known_or_new env p.daddr (rt_lookup s.rtable p.daddr) ≡ e
      → is_up e.flags ≡ false
      → is_even s.seqno ≡ true
      → IsBounded s.rqueue
      → rt_resolve env p s
        ≡ done (
          tt,
          after_request env p.daddr e
              (queued (record p { callback = true }) (prepared env p.daddr s)),
        )
  unfolding rt_resolve
  rt_resolve_own p e s own is_entry down even b = ends _ (
      send_request_lem env p.daddr e (queued q s1) there (ap (λ t. t && (e.hops == infinity2)) down)
        even refl)
    where
      s1 : Agent D
      s1 = prepared env p.daddr s

      q : Packet D
      q = record p { callback = true }

      there : rt_lookup s1.rtable p.daddr ≡ some e
      there = lookup-extended env p.daddr _ s.rtable refl ∙ ap some is_entry

      mine : (p.saddr == s.index) ≡ true
      mine = rw own (==_refl s.index)

      ends :
          (t : Agent D)
          → send_request env p.daddr (queued q s1) ≡ done (tt, t)
          → rt_resolve env p s ≡ done (tt, t)
      ends t sends =
          rw (◌>>=◌, ◌>>◌, find_or_add-prepared env p.daddr s)
            (rw (◌>>=◌, entry, there)
              (rw (down, mine)
                (rw (◌>>◌, ◌>>=◌, buffer_lem q s1 b, found-dst p.daddr s1.rtable e there) sends)))

  -- The route error for one destination: a broadcast of one hop, without delay.
  abbrev pub complaint : ℕ → ℕ → Agent D → Effect D
  complaint dst seqno s =
      scheduled
        (record (control_packet env env.blank (rerr ((dst, seqno) ∷ [])) s.index) {
          next_hop = 0;
          direction = dir_down;
          daddr = ip_broadcast;
          ttl = 1;
        })
        (fl.lit 0 1)

  -- For a packet of another node: if the entry for the packet's destination, which is added if there
  -- is none, is down, `rt_resolve` returns; it has sent one route error, which names this destination
  -- with the entry's number, and then dropped the packet, and no route was asked for.
  pub rt_resolve_refused :
      (p : Packet D) (e : Entry D) (s : Agent D)
      → (p.saddr == s.index) ≡ false
      → known_or_new env p.daddr (rt_lookup s.rtable p.daddr) ≡ e
      → e.flags ≡ rtf_down
      → rt_resolve env p s
        ≡ done (
          tt,
          record (prepared env p.daddr s) {
            effects =
                dropped (record p { callback = true }) no_route
                ∷ complaint p.daddr e.seqno s
                ∷ s.effects;
          },
        )
  unfolding rt_resolve refuse send_error
  rt_resolve_refused p e s other is_entry down =
      let there : rt_lookup (prepared env p.daddr s).rtable p.daddr ≡ some e =
        lookup-extended env p.daddr _ s.rtable refl ∙ ap some is_entry in
      rw (◌>>=◌, ◌>>◌, find_or_add-prepared env p.daddr s)
        (rw (◌>>=◌, entry, there)
          (rw (down, other) (rw (found-dst p.daddr (prepared env p.daddr s).rtable e there) refl)))
