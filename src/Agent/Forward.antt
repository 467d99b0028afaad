-- ===== src/Agent/Forward.antt =====
-- teaomdv/teaomdv.cc, "Packet Transmission Routines": `forward`, with the trust in the next hop that
-- it checks for data, and the report of a route that is no longer trusted (PTA).
use ns2_te_aomdv.Base.{
  ℕ, Bool, true, false, ◌&&◌, ◌||◌, not, Option, none, some, List, [], ◌∷◌, is_some, ◌==◌,
  if◌then◌else◌, Double, ◌⊕◌, ◌⊗◌, ◌≺◌, min_d, null_pointer,
}
use ns2_te_aomdv.Packet.{
  Packet, Ptype, pt_teaomdv, pt_cbr, pt_other, Direction, dir_up, dir_down, dir_none, af_none,
  af_inet, ip_broadcast, Pta,
}
use ns2_te_aomdv.Entry.{RoutePath, is_up, path_delete, path_empty}
use ns2_te_aomdv.Entry.Choice.{path_find}
use ns2_te_aomdv.Entry.Precursors.{pc_insert}
use ns2_te_aomdv.Queue.{no_route, ttl_expired}
use ns2_te_aomdv.Neighbor.{Neighbor, trust_threshold}
use ns2_te_aomdv.Neighbor.Rating.{count_data, count_control}
use ns2_te_aomdv.Agent.State.{
  M, Env, pure, ◌>>=◌, ◌>>◌, skip, fail, get, assert, when, lift, emit, scheduled, dropped,
  delivered, entry, set_entry, set_neighbor, set_head_path, nb_lookup, draw,
}
use ns2_te_aomdv.Agent.Send.{send_pta}
use ns2_te_aomdv.Agent.Routes.{rt_down}
use ns2_te_aomdv.Agent.Neighbors.{nb_insert}

abbrev pub is_cbr : Ptype → Bool
is_cbr pt_cbr = true
is_cbr pt_teaomdv = false
is_cbr (pt_other n) = false

abbrev pub is_teaomdv : Ptype → Bool
is_teaomdv pt_teaomdv = true
is_teaomdv pt_cbr = false
is_teaomdv (pt_other n) = false

abbrev pub is_upward : Direction → Bool
is_upward dir_up = true
is_upward dir_down = false
is_upward dir_none = false

-- NO_TEAOMDV_DELAY is -1.0.
abbrev pub no_delay : {D : Type 0} ⦃fl : Double D⦄ → D
no_delay ⦃fl⦄ = fl.sub (fl.lit 0 1) (fl.lit 1 1)

-- A read through a pointer.
abbrev pub deref : {D A : Type 0} → Option A → M D A
deref none = fail null_pointer
deref (some a) = pure a

module _ {D : Type 0} where
  abbrev pub set_fpt : D → RoutePath D → RoutePath D
  set_fpt x path = record path { fpt = x }

  abbrev pub set_path_expire : D → RoutePath D → RoutePath D
  set_path_expire t path = record path { expire = t }

module _ {D : Type 0} ⦃fl : Double D⦄ (env : Env D) where
  -- A PTA to each precursor.
  unfoldable pub send_ptas : Pta → List ℕ → M D (Unit {0})
  send_ptas re [] = skip
  send_ptas re (a ∷ pcs) = do send_pta env re a; send_ptas re pcs

  -- A path is deleted, and the entry brought down if that was its last.
  unfoldable pub delete_path : ℕ → ℕ → M D (Unit {0})
  delete_path dst nexthop = do
    set_entry dst (path_delete nexthop)
    e ← entry dst
    empty ← lift (path_empty e)
    when empty (set_entry dst (rt_down env))

  -- The path is not trusted any more: tell the precursors, delete it, and drop the packet.
  unfoldable pub distrust : ℕ → Packet D → RoutePath D → M D (Unit {0})
  distrust dst p path = do
    e ← entry dst
    let re : Pta = record {
      unreachable_dst = e.dst;
      unreachable_lasthop = path.lasthop;
      unreachable_dst_seqno = e.seqno;
    }
    send_ptas re e.pclist
    delete_path dst path.nexthop
    emit (dropped p no_route)

  -- The statistics for the next hop.
  unfoldable pub count_sent : Packet D → Neighbor D → Neighbor D
  count_sent p nb =
      if is_cbr p.ptype
      then count_data env.now p.uid (p.next_hop == p.daddr) nb
      else if is_teaomdv p.ptype
      then count_control env.now p.uid (p.next_hop == p.daddr) nb
      else nb

  -- The rest of the branch with a route, for a next hop that is trusted. ACTIVE_ROUTE_TIMEOUT is 10.
  unfoldable pub use_path : ℕ → Packet D → M D (Packet D)
  use_path dst p = do
    s ← get
    set_neighbor p.next_hop (count_sent p)
    set_entry dst (set_head_path (set_path_expire (env.now ⊕ fl.lit 10 1)))
    when (not (p.saddr == s.index) && env.is_data p.ptype)
        (set_entry dst λ e. record e { error = true })
    pure (record p { direction = dir_down })

  -- Data go on only along a path whose trust, cut to that of the next hop, reaches the threshold.
  -- `none` is a packet that was dropped.
  unfoldable pub check_trust : ℕ → Packet D → RoutePath D → M D (Option (Packet D))
  check_trust dst p path = do
    s ← get
    nb ← deref (nb_lookup path.nexthop s)
    let fpt = min_d path.fpt nb.tv
    when (is_cbr p.ptype) (set_entry dst (set_head_path (set_fpt fpt)))
    if is_cbr p.ptype && (fpt ≺ trust_threshold)
        then (do distrust dst p path; pure none)
        else (do p' ← use_path dst p; pure (some p'))

  -- The branch of `forward` with a route.
  unfoldable pub forward_route : ℕ → Packet D → M D (Option (Packet D))
  forward_route dst p = do
    e ← entry dst
    assert (is_up e.flags)
    path ← deref (path_find e)
    set_entry dst (pc_insert p.prev_hop)
    s ← get
    let p' = record p {
      addr_type = af_inet;
      next_hop = path.nexthop;
      pprev_hop = p.prev_hop;
      prev_hop = s.index;
    }
    when (not (is_some (nb_lookup path.nexthop s))) (nb_insert env path.nexthop)
    check_trust dst p' path

  -- The branch of `forward` without a route.
  unfoldable pub forward_broadcast : Packet D → M D (Option (Packet D))
  forward_broadcast p = do
    assert (p.daddr == ip_broadcast)
    pure (some (record p { addr_type = af_none; direction = dir_down }))

  unfoldable pub forward_on : Option ℕ → Packet D → M D (Option (Packet D))
  forward_on none p = forward_broadcast p
  forward_on (some dst) p = forward_route dst p

  -- The end of `forward`: hand the packet to the lower layer.
  unfoldable pub transmit : Option ℕ → D → Packet D → M D (Unit {0})
  transmit rt delay p =
      if p.daddr == ip_broadcast
      then (do assert (not (is_some rt)); u ← draw env; emit (scheduled p (fl.lit 1 100 ⊗ u)))
      else emit (scheduled p (if fl.lit 0 1 ≺ delay then delay else fl.lit 0 1))

  unfoldable pub transmit_some : Option ℕ → D → Option (Packet D) → M D (Unit {0})
  transmit_some rt delay none = skip
  transmit_some rt delay (some p) = transmit rt delay p

  -- `forward(rt, p, delay)`; `rt` is the destination of the entry, or `none` for the null pointer.
  unfoldable pub forward : Option ℕ → Packet D → D → M D (Unit {0})
  forward rt p delay =
      if p.ttl == 0
      then emit (dropped p ttl_expired)
      else if (not (is_teaomdv p.ptype) && is_upward p.direction && (p.daddr == ip_broadcast))
          || (p.daddr == env.here_addr)
      then emit (delivered p)
      else (forward_on rt p >>= transmit_some rt delay)
