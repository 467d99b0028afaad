-- ===== src/Agent/Gate/Distrust.antt =====
-- What `forward` does with a data packet over a path or a neighbour that is not trusted.
use ns2_te_aomdv.Base.{
  ℕ, ◌≡◌, refl, true, Option, none, some, List, [], ◌∷◌, find, find-any, any, sym, ◌==◌,
  if◌then◌else◌, arith, Double, ◌≺◌, min_d, Outcome, done, crash, ap, update_first,
  find-update_first,
}
use ns2_te_aomdv.Packet.{Packet, Pta, pta, pt_cbr, dir_down}
use ns2_te_aomdv.Entry.{Entry, RoutePath, is_pc}
use ns2_te_aomdv.Entry.Precursors.{pc_insert}
use ns2_te_aomdv.Table.{rt_lookup, has_dst}
use ns2_te_aomdv.Queue.{no_route}
use ns2_te_aomdv.Entry.Counted.{IsCounted}
use ns2_te_aomdv.Agent.Invariant.Deletion.{delete_path-eq}
use ns2_te_aomdv.Neighbor.{Neighbor, trust_threshold}
use ns2_te_aomdv.Agent.State.{
  entry, ◌>>=◌, ◌>>◌, Env, Agent, Effect, scheduled, dropped, emit, pure, set_head_path, nb_lookup,
  has_addr,
}
use ns2_te_aomdv.Agent.Send.{control_packet, send_pta}
use ns2_te_aomdv.Agent.Forward.{
  send_ptas, distrust, delete_path, set_fpt, forward, forward_on, forward_route, check_trust,
  transmit_some, is_upward,
}
use ns2_te_aomdv.Agent.Gate.{Routed, and_false, Ends, ends, onward}

module _ {D : Type 0} ⦃fl : Double D⦄ (env : Env D) where
  -- The report of a path to one precursor, and those to all of them, the newest first.
  abbrev pub reported : Pta → ℕ → ℕ → Effect D
  reported re index a =
      scheduled
        (record (control_packet env env.blank (pta re) index) {
          next_hop = 0;
          direction = dir_down;
          daddr = a;
          ttl = 1;
        })
        (fl.lit 0 1)

  pub told : Pta → ℕ → List ℕ → List (Effect D) → List (Effect D)
  told re index [] es = es
  told re index (a ∷ pcs) es = told re index pcs (reported re index a ∷ es)

  pub send_ptas-told :
      (re : Pta) (pcs : List ℕ) (s : Agent D)
      → send_ptas env re pcs s ≡ done (tt, record s { effects = told re s.index pcs s.effects })
  unfolding send_ptas send_pta told
  send_ptas-told re [] s = refl
  send_ptas-told re (a ∷ pcs) s = send_ptas-told re pcs _

  -- The report that `forward` makes of a path.
  abbrev pub report_of : Entry D → RoutePath D → Pta
  report_of e path = record {
    unreachable_dst = e.dst;
    unreachable_lasthop = path.lasthop;
    unreachable_dst_seqno = e.seqno;
  }

  -- `delete_path` returns, and emits nothing.
  delete_path-Ends :
      (dst nexthop : ℕ) (e : Entry D) (s : Agent D)
      → rt_lookup s.rtable dst ≡ some e
      → IsCounted e
      → Ends s.effects (delete_path env dst nexthop s)
  unfolding rt_lookup
  delete_path-Ends dst nexthop e s h c =
      rw (delete_path-eq env s.rqueue dst nexthop s e h c) (ends refl)

  dropping :
      (p : Packet D) (es : List (Effect D)) (o : Outcome (Unit {0} × Agent D))
      → Ends es o
      → Ends
          (dropped p no_route ∷ es)
          (elim o [ done x ↦ emit (dropped p no_route) x.1 | crash f ↦ crash f ])
  dropping p es o (ends h) = ends (ap (λ t. dropped p no_route ∷ t) h)

  distrust-Ends :
      (dst : ℕ) (p : Packet D) (path : RoutePath D) (e : Entry D) (s : Agent D)
      → rt_lookup s.rtable dst ≡ some e
      → IsCounted e
      → Ends
          (dropped p no_route ∷ told (report_of e path) s.index e.pclist s.effects)
          (distrust env dst p path s)
  unfolding distrust
  distrust-Ends dst p path e s h c =
      rw (◌>>=◌, entry, h)
        (rw
          (
            ◌>>◌,
            ◌>>=◌,
            send_ptas-told
                (record {
                  unreachable_dst = e.dst;
                  unreachable_lasthop = path.lasthop;
                  unreachable_dst_seqno = e.seqno;
                })
                e.pclist s,
          )
          (dropping p _ _ (delete_path-Ends dst path.nexthop e _ h c)))

  -- The packet does not go on.
  blocked :
      (dst : ℕ) (delay : D) (es : List (Effect D)) (o : Outcome (Unit {0} × Agent D))
      → Ends es o
      → Ends es
          (elim (elim o as (λ _. Outcome (Option (Packet D) × Agent D)) [
            | done x ↦ pure none x.1
            | crash f ↦ crash f
          ]) [ done x ↦ transmit_some env (some dst) delay x.0 x.1 | crash f ↦ crash f ])
  unfolding transmit_some
  blocked dst delay es o (ends h) = ends h

  -- The entry as `forward` has changed it when it comes to distrust the path.
  pub found_again :
      (dst prev : ℕ) (m : D) (table : List (Entry D)) (e : Entry D)
      → rt_lookup table dst ≡ some e
      → rt_lookup
          (update_first
            (has_dst dst)
            (set_head_path (set_fpt m))
            (update_first (has_dst dst) (pc_insert prev) table))
          dst
        ≡ some (set_head_path (set_fpt m) (pc_insert prev e))
  unfolding rt_lookup pc_insert
  found_again dst prev m table e h =
      find-update_first (has_dst dst) (set_head_path (set_fpt m)) _ (pc_insert prev e) (λ x k. k)
        (find-update_first (has_dst dst) (pc_insert prev) table e (λ x k. ground arith) h)

  pub recounted :
      (prev : ℕ) (m : D) (e : Entry D)
      → IsCounted e
      → IsCounted (set_head_path (set_fpt m) (pc_insert prev e))
  unfolding pc_insert
  recounted prev m e c = go e.paths refl
    where
      go :
          (ps : List (RoutePath D))
          → e.paths ≡ ps
          → IsCounted (set_head_path (set_fpt m) (pc_insert prev e))
      go [] q = ground arith
      go (x ∷ ps) q = ground arith

  -- The precursors with the previous hop, which is put first if it is not one of them.
  abbrev pub listed : ℕ → List ℕ → List ℕ
  listed prev pcs = if any (λ a. a == prev) pcs then pcs else prev ∷ pcs

  pc_insert-listed : (prev : ℕ) (e : Entry D) → (pc_insert prev e).pclist ≡ listed prev e.pclist
  unfolding pc_insert
  pc_insert-listed prev e = ground (arith, find-any (is_pc prev) e.pclist)

  report_of-pc_insert :
      (prev : ℕ) (path : RoutePath D) (e : Entry D)
      → report_of (pc_insert prev e) path ≡ report_of e path
  unfolding pc_insert
  report_of-pc_insert prev path e = ground arith

  -- For a data packet, not a broadcast and not for this node, with time left to live, of which the route
  -- is up and counts its paths right and the first path's next hop is a known neighbour: if the smaller
  -- of the path's trust and that of the neighbour is below the threshold, `forward` returns, and the
  -- packet does not go on: it reports the path to each precursor of the entry, and to the packet's
  -- previous hop, first if that is not one of them yet, and drops the packet. It sends nothing else.
  pub forward_distrusted :
      (dst : ℕ) (p : Packet D) (delay : D) (path : RoutePath D) (nb : Neighbor D) (e : Entry D)
      (s : Agent D)
      → Routed env dst p path nb e s
      → IsCounted e
      → (min_d path.fpt nb.tv ≺ trust_threshold) ≡ true
      → Ends
          (dropped (record (onward env p path s) { direction = p.direction }) no_route
            ∷ told (report_of e path) s.index (listed p.prev_hop e.pclist) s.effects)
          (forward env (some dst) p delay s)
  unfolding forward forward_on forward_route check_trust transmit_some nb_lookup
  forward_distrusted dst p delay path nb e s r c t =
      let m = min_d path.fpt nb.tv in
      let known : find (has_addr path.nexthop) s.nbhead ≡ some nb = r.neighbor_found in
      rw (sym (report_of-pc_insert p.prev_hop path e), sym (pc_insert-listed p.prev_hop e))
        (rw (r.lives, r.is_data, r.unicast, r.elsewhere, and_false (is_upward p.direction))
          (rw (◌>>=◌, forward_on, forward_route, entry, r.entry_found)
            (rw (r.up, r.path_found)
              (rw known (
                rw known (
                  rw t (
                    blocked dst delay _ _ (
                      distrust-Ends dst
                        (record (onward env p path s) { ptype = pt_cbr; direction = p.direction })
                        path (set_head_path (set_fpt m) (pc_insert p.prev_hop e))
                        (record s {
                          rtable =
                              update_first (has_dst dst) (set_head_path (set_fpt m))
                                (update_first (has_dst dst) (pc_insert p.prev_hop) s.rtable);
                        })
                        (found_again dst p.prev_hop m s.rtable e r.entry_found)
                        (recounted p.prev_hop m e c)))))))))
