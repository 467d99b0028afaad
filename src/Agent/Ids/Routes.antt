-- ===== src/Agent/Ids/Routes.antt =====
-- teaomdv/teaomdv.h: the lists of reverse and forward routes of a broadcast id. Only the code for
-- link-disjoint paths, which this build leaves out, calls these.
use ns2_te_aomdv.Base.{ℕ, Bool, ◌&&◌, Option, ◌∷◌, find, ◌==◌}
use ns2_te_aomdv.Agent.State.{Route, BroadcastId}

abbrev pub is_route : ℕ → ℕ → Route → Bool
is_route nexthop lasthop r = (r.nh_addr == nexthop) && (r.lh_addr == lasthop)

module _ {D : Type 0} where
  pub reverse_path_insert : ℕ → ℕ → BroadcastId D → BroadcastId D
  reverse_path_insert nexthop lasthop b = record b {
    reverse_path_list = record { nh_addr = nexthop; lh_addr = lasthop } ∷ b.reverse_path_list;
  }

  pub reverse_path_lookup : ℕ → ℕ → BroadcastId D → Option Route
  reverse_path_lookup nexthop lasthop b = find (is_route nexthop lasthop) b.reverse_path_list

  pub forward_path_insert : ℕ → ℕ → BroadcastId D → BroadcastId D
  forward_path_insert nexthop lasthop b = record b {
    forward_path_list = record { nh_addr = nexthop; lh_addr = lasthop } ∷ b.forward_path_list;
  }

  pub forward_path_lookup : ℕ → ℕ → BroadcastId D → Option Route
  forward_path_lookup nexthop lasthop b = find (is_route nexthop lasthop) b.forward_path_list
