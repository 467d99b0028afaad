-- ===== src/Agent/RecvRequest.antt =====
-- teaomdv/teaomdv.cc: `recvRequest`: how the reverse path, the one to the source, is learnt.
pub mod Answer
use ns2_te_aomdv.Base.{
  ℕ, suc, zero, ◌+◌, Bool, true, false, ◌&&◌, Option, none, some, length, is_some, update_first,
  ltb, leb, ◌==◌, if◌then◌else◌, not, Double, ◌⊕◌, ◌⊖◌, ◌≺◌, min_d, max_d, Outcome, done, crash,
  assert_failed, asserting, no_fuel,
}
use ns2_te_aomdv.Packet.{Packet, Request, rreq, u8, u32}
use ns2_te_aomdv.Entry.{
  Entry, RoutePath, rtf_up, is_up, path_insert, path_delete_all, disjoint_path_lookup,
  new_disjoint_path, path_lookup_lasthop, has_both,
}
use ns2_te_aomdv.Entry.Choice.{path_find, path_get_max_hopcount, path_get_min_hopcount}
use ns2_te_aomdv.Table.{rt_lookup}
use ns2_te_aomdv.Queue.{deque}
use ns2_te_aomdv.Neighbor.{Neighbor}
use ns2_te_aomdv.Agent.State.{
  M, Env, BroadcastId, ◌>>=◌, ◌>>◌, skip, fail, get, put, modify, assert, when, lift, emit, freed,
  entry, set_entry, nb_lookup, has_id,
}
use ns2_te_aomdv.Agent.Ids.{id_get, id_insert}
use ns2_te_aomdv.Agent.Send.{send_reply}
use ns2_te_aomdv.Agent.Routes.{is_even, max_seqno}
use ns2_te_aomdv.Agent.Neighbors.{nb_insert}
use ns2_te_aomdv.Agent.Forward.{forward, no_delay, deref}
use ns2_te_aomdv.Agent.Resolve.{find_or_add}

module _ {D : Type 0} ⦃fl : Double D⦄ (env : Env D) where
  -- The length test of an alternate path, `(hops + 1) - min <= diff` over the integers.
  abbrev pub is_near : ℕ → ℕ → Entry D → Bool
  is_near hops diff e = leb (hops + 1) (path_get_min_hopcount e + diff)

  -- A path is inserted, and the last hop count is taken anew.
  unfoldable pub add_path : Entry D → ℕ → ℕ → D → ℕ → D → D → Entry D
  add_path e nexthop hops expire lasthop fpt rpt =
      let e1 : Entry D = path_insert env.now e nexthop (hops + 1) expire lasthop fpt rpt in
      record e1 { last_hop_count = path_get_max_hopcount e1 }

  -- News of a higher sequence number: all previous paths go, and the route is up.
  unfoldable pub renew : Entry D → ℕ → Entry D
  renew e seqno = record (path_delete_all e) {
    seqno = seqno;
    advertised_hops = env.infinity;
    flags = rtf_up;
  }

  -- REV_ROUTE_LIFE is 6.
  pub reverse_expire : D
  reverse_expire = env.now ⊕ fl.lit 6 1

  -- The result of a part of the handler: `none` if the packet was refused, and otherwise whether a
  -- reverse path was found or made.
  abbrev Learnt : Type 0
  Learnt = Outcome (Option Bool × Entry D)

  -- The path exists: its lifetime is adjusted.
  unfoldable pub refresh_reverse : Packet D → Request D → RoutePath D → Entry D → Learnt
  refresh_reverse p rq path e = asserting (path.hopcount == rq.rq_hop_count + 1) (
    some true,
    record e {
      paths =
          update_first (has_both p.saddr rq.rq_first_hop)
            (λ r. record r { expire = max_d r.expire reverse_expire }) e.paths;
    },
  )

  -- A new disjoint reverse path: it is inserted if there is room and it is not too long, and the
  -- packet is refused if it is too long after that.
  unfoldable pub extend_reverse : ℕ → ℕ → Packet D → Request D → Entry D → Learnt
  extend_reverse max_paths diff p rq e =
      let fits = ltb e.num_paths max_paths && is_near rq.rq_hop_count diff e in
      let e1 : Entry D =
        if fits
        then add_path e p.saddr rq.rq_hop_count reverse_expire rq.rq_first_hop rq.fpt rq.rpt
        else e in
      done (if is_near rq.rq_hop_count diff e1 then some fits else none, e1)

  -- The same sequence number, and fewer hops than are advertised.
  unfoldable pub update_reverse : ℕ → ℕ → ℕ → Packet D → Request D → Entry D → Learnt
  update_reverse index max_paths diff p rq e =
      elim (disjoint_path_lookup e p.saddr rq.rq_first_hop) [
        | some path ↦ refresh_reverse p rq path e
        | none ↦
            if new_disjoint_path e p.saddr rq.rq_first_hop
            then extend_reverse max_paths diff p rq e
            else if rq.rq_dst == index && is_longer (path_lookup_lasthop e rq.rq_first_hop)
            then done (none, e)
            else done (some false, e)
      ]
    where
      is_longer : Option (RoutePath D) → Bool
      is_longer none = true
      is_longer (some erp) = ltb erp.hopcount (rq.rq_hop_count + 1)

  -- Create or update the reverse path, the path back to the source.
  unfoldable pub learn_reverse :
      ℕ → ℕ → ℕ → Packet D → Request D → Entry D → Outcome (Option Bool × Entry D)
  learn_reverse index max_paths diff p rq e =
      if ltb e.seqno rq.rq_src_seqno
      then done (
        some true,
        add_path (renew e rq.rq_src_seqno) p.saddr rq.rq_hop_count reverse_expire rq.rq_first_hop
            rq.fpt rq.rpt,
      )
      else if (e.seqno == rq.rq_src_seqno) && ltb rq.rq_hop_count e.advertised_hops
      then (if is_up e.flags
          then update_reverse index max_paths diff p rq e
          else crash assert_failed)
      else done (none, e)
