-- ===== src/Entry.antt =====
-- teaomdv/teaomdv_rtable.h and teaomdv_rtable.cc: a route table entry with its paths and
-- precursors. A BSD list is a `List`, the head first; a path's or a precursor's pointer is the place
-- of the object in its list. `now` is the scheduler's clock.
pub mod Choice
pub mod Precursors
pub mod Counted
pub mod Disjoint
pub mod Hops
pub mod Nblist
pub mod Purge
use ns2_te_aomdv.Base.{
  ℕ, zero, suc, ◌+◌, ◌-◌, Bool, true, false, ◌&&◌, ◌||◌, Option, none, some, List, [], ◌∷◌, ◌++◌,
  length, find, remove_first, is_some, any, ltb, ◌==◌, if◌then◌else◌, Double, ◌≺◌, Outcome, done,
  crash, no_fuel, assert_failed, and_then, on_done, asserting,
}
use ns2_te_aomdv.Packet.{u16}
use ns2_te_aomdv.Neighbor.{Neighbor}

abbrev pub infinity2 : ℕ
infinity2 = 0xff

pub data Flags : Type 0 where
  rtf_down rtf_up rtf_in_repair : Flags

abbrev pub is_up : Flags → Bool
is_up rtf_up = true
is_up rtf_down = false
is_up rtf_in_repair = false

abbrev pub is_down : Flags → Bool
is_down rtf_down = true
is_down rtf_up = false
is_down rtf_in_repair = false

pub record RoutePath (D : Type 0) : Type 0 where
  pub nexthop : ℕ
  pub hopcount : ℕ
  pub expire : D
  pub ts : D
  pub lasthop : ℕ
  pub error : Bool
  pub fpt : D
  pub rpt : D

-- `rt_hops` is never written by the code: it holds what the allocation left there.
pub record Entry (D : Type 0) : Type 0 where
  -- the fields of `teaomdv_rt_entry`, without the prefix `rt_`
  pub req_timeout : D
  pub req_cnt : ℕ
  pub flags : Flags
  pub dst : ℕ
  pub seqno : ℕ
  pub hops : ℕ
  pub advertised_hops : ℕ
  pub last_hop_count : ℕ
  pub paths : List (RoutePath D)
  pub highest_seqno_heard : ℕ
  pub num_paths : ℕ
  pub error : Bool
  pub pclist : List ℕ
  pub expire : D
  pub disc_latency : List D
  pub hist_indx : ℕ
  pub req_last_ttl : ℕ
  pub nblist : List (Neighbor D)

module _ {D : Type 0} ⦃fl : Double D⦄ where
  -- The constructor; `garbage` is what `rt_hops` happens to hold.
  unfoldable pub new_entry : ℕ → Entry D
  new_entry garbage = record {
    req_timeout = fl.lit 0 1;
    req_cnt = 0;
    flags = rtf_down;
    dst = 0;
    seqno = 0;
    hops = garbage;
    advertised_hops = infinity2;
    last_hop_count = infinity2;
    paths = [];
    highest_seqno_heard = 0;
    num_paths = 0;
    error = false;
    pclist = [];
    expire = fl.lit 0 1;
    disc_latency = fl.lit 0 1 ∷ fl.lit 0 1 ∷ fl.lit 0 1 ∷ [];
    hist_indx = 0;
    req_last_ttl = 0;
    nblist = [];
  }

  -- `hopcount` is converted to the `u_int16_t` of the parameter.
  unfoldable pub path_insert : D → Entry D → ℕ → ℕ → D → ℕ → D → D → Entry D
  path_insert now e nexthop hopcount expire_time lasthop fpt rpt = record e {
    paths = e.paths ++ (path ∷ []);
    num_paths = e.num_paths + 1;
  }
    where
      path : RoutePath D
      path = record {
        nexthop = nexthop;
        hopcount = u16 hopcount;
        expire = expire_time;
        ts = now;
        lasthop = lasthop;
        error = false;
        fpt = fpt;
        rpt = rpt;
      }

  -- `path->expire < now`.
  abbrev pub is_expired : D → RoutePath D → Bool
  is_expired now p = p.expire ≺ now

  -- The outer loop of `path_purge`: a pass removes the first expired path, and stops when it finds
  -- none.
  purge_paths : ℕ → D → Entry D → Outcome (Entry D)
  purge_paths zero now e = crash no_fuel
  purge_paths (suc fuel) now e = elim (any (is_expired now) e.paths) [
    | true ↦
        purge_paths fuel now
          (record e { paths = remove_first (is_expired now) e.paths; num_paths = e.num_paths - 1 })
    | false ↦ done e
  ]

  pub path_purge : D → Entry D → Outcome (Entry D)
  path_purge now e = purge_paths (suc (length e.paths)) now e

  max_expire_from : D → List (RoutePath D) → D
  max_expire_from m [] = m
  max_expire_from m (p ∷ ps) = max_expire_from (if m ≺ p.expire then p.expire else m) ps

  pub path_get_max_expiration_time : Entry D → D
  path_get_max_expiration_time e = max_expire_from (fl.lit 0 1) e.paths

-- `pc->pc_addr == id`.
abbrev pub is_pc : ℕ → ℕ → Bool
is_pc id a = a == id

module _ {D : Type 0} where
  abbrev pub has_nexthop : ℕ → RoutePath D → Bool
  has_nexthop id p = p.nexthop == id

  abbrev pub has_lasthop : ℕ → RoutePath D → Bool
  has_lasthop id p = p.lasthop == id

  abbrev pub has_both : ℕ → ℕ → RoutePath D → Bool
  has_both nexthop lasthop p = p.nexthop == nexthop && p.lasthop == lasthop

  abbrev pub has_either : ℕ → ℕ → RoutePath D → Bool
  has_either nexthop lasthop p = p.nexthop == nexthop || p.lasthop == lasthop

  unfoldable pub path_lookup : Entry D → ℕ → Option (RoutePath D)
  path_lookup e id = find (has_nexthop id) e.paths

  unfoldable pub disjoint_path_lookup : Entry D → ℕ → ℕ → Option (RoutePath D)
  disjoint_path_lookup e nexthop lasthop = find (has_both nexthop lasthop) e.paths

  unfoldable pub new_disjoint_path : Entry D → ℕ → ℕ → Bool
  new_disjoint_path e nexthop lasthop =
      if any (has_either nexthop lasthop) e.paths then false else true

  pub path_lookup_lasthop : Entry D → ℕ → Option (RoutePath D)
  path_lookup_lasthop e id = find (has_lasthop id) e.paths

  -- `path_delete(id)`.
  unfoldable pub path_delete : ℕ → Entry D → Entry D
  path_delete id e =
      if any (has_nexthop id) e.paths
      then record e { paths = remove_first (has_nexthop id) e.paths; num_paths = e.num_paths - 1 }
      else e

  -- `path_delete(void)`.
  unfoldable pub path_delete_all : Entry D → Entry D
  path_delete_all e = record e { paths = []; num_paths = 0 }

  -- The loop of `path_delete_longest`, over the paths from place `i` on: the place of the path to
  -- remove, if one was found.
  longest_from : ℕ → Option ℕ → ℕ → List (RoutePath D) → Outcome (Option ℕ)
  longest_from i best max_hopcount [] = done best
  longest_from i best max_hopcount (p ∷ ps) = elim (ltb max_hopcount p.hopcount) [
    | true ↦ elim (p.hopcount == infinity2) [
      | true ↦ crash assert_failed
      | false ↦ longest_from (i + 1) (some i) p.hopcount ps
    ]
    | false ↦ longest_from (i + 1) best max_hopcount ps
  ]

  remove_at : ℕ → List (RoutePath D) → List (RoutePath D)
  remove_at i [] = []
  remove_at zero (p ∷ ps) = ps
  remove_at (suc i) (p ∷ ps) = p ∷ remove_at i ps

  remove_found : Entry D → Option ℕ → Entry D
  unfolding remove_at
  remove_found e none = e
  remove_found e (some i) = record e { paths = remove_at i e.paths; num_paths = e.num_paths - 1 }

  pub path_delete_longest : Entry D → Outcome (Entry D)
  unfolding longest_from remove_found
  path_delete_longest e = on_done (remove_found e) (longest_from 0 none 0 e.paths)

  pub path_empty : Entry D → Outcome Bool
  path_empty e = elim e.paths [
    | [] ↦ asserting (e.num_paths == 0) true
    | p ∷ ps ↦ asserting (ltb 0 e.num_paths) false
  ]
