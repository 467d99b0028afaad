-- ===== src/Agent/Gate/LastPath.antt =====
-- What `forward` leaves of a route when it distrusts the route's only path.
use ns2_te_aomdv.Base.{
  ℕ, ◌≡◌, refl, true, false, Option, none, some, [], ◌∷◌, find, update_first, find-update_first,
  arith, Double, ◌≺◌, min_d, ==_refl, Outcome, done, crash,
}
use ns2_te_aomdv.Packet.{Packet, pt_cbr}
use ns2_te_aomdv.Entry.{Entry, RoutePath, is_up, path_delete, path_delete_all}
use ns2_te_aomdv.Entry.Counted.{IsCounted}
use ns2_te_aomdv.Entry.Precursors.{pc_insert}
use ns2_te_aomdv.Table.{rt_lookup, has_dst}
use ns2_te_aomdv.Queue.{Queue, no_route}
use ns2_te_aomdv.Neighbor.{Neighbor, trust_threshold}
use ns2_te_aomdv.Agent.State.{
  Env, Agent, ◌>>=◌, ◌>>◌, dropped, emit, pure, entry, set_head_path, nb_lookup, has_addr,
}
use ns2_te_aomdv.Agent.Routes.{rt_down}
use ns2_te_aomdv.Agent.Forward.{
  distrust, delete_path, set_fpt, forward, forward_on, forward_route, check_trust, transmit_some,
  is_upward,
}
use ns2_te_aomdv.Agent.Gate.{Routed, and_false, onward}
use ns2_te_aomdv.Agent.Gate.Distrust.{send_ptas-told, found_again, recounted}
use ns2_te_aomdv.Agent.Invariant.Deletion.{delete_path-eq, is_nil, path_delete-dst}

-- The method returns, with the queue `q` and an entry for the destination that is not up.
pub data LeavesDown {D : Type 0} (q : Queue D) (dst : ℕ)
    : Outcome (Unit {0} × Agent D) → Type 0 where
  leaves :
      {s : Agent D} {e : Entry D}
      → rt_lookup s.rtable dst ≡ some e
      → is_up e.flags ≡ false
      → s.rqueue ≡ q
      → LeavesDown q dst (done (tt, s))

module _ {D : Type 0} ⦃fl : Double D⦄ (env : Env D) where
  rt_down-flags : (e : Entry D) → is_up (rt_down env e).flags ≡ false
  unfolding rt_down path_delete_all
  rt_down-flags e = ground arith

  rt_down-has_dst :
      (dst : ℕ) (x : Entry D) → has_dst dst x ≡ true → has_dst dst (rt_down env x) ≡ true
  unfolding rt_down path_delete_all
  rt_down-has_dst dst x k = ground arith

  delete_path-LeavesDown :
      (dst nexthop : ℕ) (e : Entry D) (s : Agent D)
      → rt_lookup s.rtable dst ≡ some e
      → IsCounted e
      → is_nil (path_delete nexthop e) ≡ true
      → LeavesDown s.rqueue dst (delete_path env dst nexthop s)
  unfolding rt_lookup
  delete_path-LeavesDown dst nexthop e s h c nil =
      rw (delete_path-eq env s.rqueue dst nexthop s e h c, nil)
        (leaves
          (find-update_first (has_dst dst) (λ x. rt_down env (path_delete nexthop x)) s.rtable e
            (λ x k. rt_down-has_dst dst (path_delete nexthop x) (path_delete-dst nexthop dst x k))
            h)
          (rt_down-flags (path_delete nexthop e)) refl)

  dropping-LeavesDown :
      (p : Packet D) (q : Queue D) (dst : ℕ) (o : Outcome (Unit {0} × Agent D))
      → LeavesDown q dst o
      → LeavesDown q dst (elim o [ done x ↦ emit (dropped p no_route) x.1 | crash f ↦ crash f ])
  dropping-LeavesDown p q dst o (leaves h d k) = leaves h d k

  distrust-LeavesDown :
      (dst : ℕ) (p : Packet D) (path : RoutePath D) (e : Entry D) (s : Agent D)
      → rt_lookup s.rtable dst ≡ some e
      → IsCounted e
      → is_nil (path_delete path.nexthop e) ≡ true
      → LeavesDown s.rqueue dst (distrust env dst p path s)
  unfolding distrust
  distrust-LeavesDown dst p path e s h c nil =
      rw (◌>>=◌, entry, h)
        (rw
          (
            ◌>>◌,
            ◌>>=◌,
            send_ptas-told env
                (record {
                  unreachable_dst = e.dst;
                  unreachable_lasthop = path.lasthop;
                  unreachable_dst_seqno = e.seqno;
                })
                e.pclist s,
          )
          (dropping-LeavesDown p _ dst _ (delete_path-LeavesDown dst path.nexthop e _ h c nil)))

  blocked-LeavesDown :
      (dst : ℕ) (delay : D) (q : Queue D) (o : Outcome (Unit {0} × Agent D))
      → LeavesDown q dst o
      → LeavesDown q dst
          (elim (elim o as (λ _. Outcome (Option (Packet D) × Agent D)) [
            | done x ↦ pure none x.1
            | crash f ↦ crash f
          ]) [ done x ↦ transmit_some env (some dst) delay x.0 x.1 | crash f ↦ crash f ])
  unfolding transmit_some
  blocked-LeavesDown dst delay q o (leaves h d k) = leaves h d k

  -- The only path is gone.
  only-gone :
      (prev : ℕ) (m : D) (path : RoutePath D) (e : Entry D)
      → e.paths ≡ path ∷ []
      → is_nil (path_delete path.nexthop (set_head_path (set_fpt m) (pc_insert prev e))) ≡ true
  unfolding path_delete pc_insert
  only-gone prev m path e h = ground (arith, ==_refl path.nexthop)

  -- `forward` distrusts the only path of a route, and brings the route down.
  pub forward-LeavesDown :
      (dst : ℕ) (p : Packet D) (delay : D) (path : RoutePath D) (nb : Neighbor D) (e : Entry D)
      (s : Agent D)
      → Routed env dst p path nb e s
      → IsCounted e
      → e.paths ≡ path ∷ []
      → (min_d path.fpt nb.tv ≺ trust_threshold) ≡ true
      → LeavesDown s.rqueue dst (forward env (some dst) p delay s)
  unfolding forward forward_on forward_route check_trust transmit_some nb_lookup
  forward-LeavesDown dst p delay path nb e s r c only t =
      let m = min_d path.fpt nb.tv in
      let known : find (has_addr path.nexthop) s.nbhead ≡ some nb = r.neighbor_found in
      rw (r.lives, r.is_data, r.unicast, r.elsewhere, and_false (is_upward p.direction))
        (rw (◌>>=◌, forward_on, forward_route, entry, r.entry_found)
          (rw (r.up, r.path_found)
            (rw known (
              rw known (
                rw t (
                  blocked-LeavesDown dst delay s.rqueue _ (
                    distrust-LeavesDown dst
                      (record (onward env p path s) { ptype = pt_cbr; direction = p.direction })
                      path (set_head_path (set_fpt m) (pc_insert p.prev_hop e))
                      (record s {
                        rtable =
                            update_first (has_dst dst) (set_head_path (set_fpt m))
                              (update_first (has_dst dst) (pc_insert p.prev_hop) s.rtable);
                      })
                      (found_again env dst p.prev_hop m s.rtable e r.entry_found)
                      (recounted env p.prev_hop m e c) (only-gone p.prev_hop m path e only))))))))
