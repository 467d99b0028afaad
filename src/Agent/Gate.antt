-- ===== src/Agent/Gate.antt =====
-- The check of trust in `forward`: a data packet goes on only along a path that is trusted.
pub mod Distrust
pub mod LastPath
use ns2_te_aomdv.Base.{
  ℕ, ◌≡◌, refl, Bool, true, false, ◌&&◌, not, Option, none, some, List, [], ◌∷◌, find, ◌==◌,
  if◌then◌else◌, Bool-cases, inl, inr, arith, Double, ◌≺◌, min_d, Outcome, done, crash, ap,
  update_first, find-update_first,
}
use ns2_te_aomdv.Packet.{Packet, Pta, pta, pt_cbr, dir_down, af_inet, ip_broadcast}
use ns2_te_aomdv.Entry.{Entry, RoutePath, is_up}
use ns2_te_aomdv.Entry.Choice.{path_find}
use ns2_te_aomdv.Entry.Precursors.{pc_insert}
use ns2_te_aomdv.Table.{rt_lookup, has_dst}
use ns2_te_aomdv.Queue.{no_route}
use ns2_te_aomdv.Entry.Counted.{IsCounted}
use ns2_te_aomdv.Agent.Invariant.Deletion.{delete_path-eq}
use ns2_te_aomdv.Neighbor.{Neighbor, trust_threshold}
use ns2_te_aomdv.Agent.State.{
  entry, ◌>>=◌, ◌>>◌, Env, Agent, Effect, scheduled, dropped, emit, pure, set_head_path, nb_lookup,
  has_addr,
}
use ns2_te_aomdv.Agent.Send.{control_packet, send_pta}
use ns2_te_aomdv.Agent.Forward.{
  send_ptas, distrust, delete_path, set_fpt, forward, forward_on, forward_route, check_trust,
  use_path, transmit, transmit_some, is_upward,
}

-- The situation of `forward` with a route for a data packet that is not for this node: the route is up,
-- its first path is `path`, and the next hop of that is the neighbour `nb`.
pub record Routed {D : Type 0} (env : Env D) (dst : ℕ) (p : Packet D) (path : RoutePath D)
    (nb : Neighbor D) (e : Entry D) (s : Agent D) : Type 0 where
  pub entry_found : rt_lookup s.rtable dst ≡ some e
  pub up : is_up e.flags ≡ true
  pub path_found : path_find e ≡ some path
  pub neighbor_found : nb_lookup path.nexthop s ≡ some nb
  pub is_data : p.ptype ≡ pt_cbr
  pub lives : (p.ttl == 0) ≡ false
  pub unicast : (p.daddr == ip_broadcast) ≡ false
  pub elsewhere : (p.daddr == env.here_addr) ≡ false

pub and_false : (b : Bool) → (b && false) ≡ false
and_false true = refl
and_false false = refl

-- The method returns, and these are the effects then, the newest first.
pub data Ends {D : Type 0} (es : List (Effect D)) : Outcome (Unit {0} × Agent D) → Type 0 where
  ends : {s : Agent D} → s.effects ≡ es → Ends es (done (tt, s))

module _ {D : Type 0} ⦃fl : Double D⦄ (env : Env D) where
  -- The packet as it goes on.
  abbrev pub onward : Packet D → RoutePath D → Agent D → Packet D
  onward p path s = record p {
    addr_type = af_inet;
    next_hop = path.nexthop;
    pprev_hop = p.prev_hop;
    prev_hop = s.index;
    direction = dir_down;
  }

  -- For a data packet, not a broadcast and not for this node, with time left to live, of which the route
  -- is up and the first path's next hop is a known neighbour: if the smaller of the path's trust and
  -- that of the neighbour is not below the threshold, `forward` returns, and hands the packet, for that
  -- next hop and with this node as the previous one, to the lower layer, after the given delay if that
  -- is positive. It sends nothing else.
  pub forward_trusted :
      (dst : ℕ) (p : Packet D) (delay : D) (path : RoutePath D) (nb : Neighbor D) (e : Entry D)
      (s : Agent D)
      → Routed env dst p path nb e s
      → (min_d path.fpt nb.tv ≺ trust_threshold) ≡ false
      → Ends
          (scheduled (onward p path s) (if fl.lit 0 1 ≺ delay then delay else fl.lit 0 1)
            ∷ s.effects)
          (forward env (some dst) p delay s)
  unfolding forward forward_on forward_route check_trust use_path transmit transmit_some nb_lookup
  forward_trusted dst p delay path nb e s r t =
      let known : find (has_addr path.nexthop) s.nbhead ≡ some nb = r.neighbor_found in
      rw (r.lives, r.is_data, r.unicast, r.elsewhere, and_false (is_upward p.direction))
        (rw (◌>>=◌, forward_on, forward_route, entry, r.entry_found)
          (rw (r.up, r.path_found)
            (rw known (
              rw known (
                rw t (elim (Bool-cases (not (p.saddr == s.index) && env.is_data pt_cbr)) [
                  | inl noted ↦ rw noted (rw (r.unicast) (ends refl))
                  | inr own ↦ rw own (rw (r.unicast) (ends refl))
                ]))))))
