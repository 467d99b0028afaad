-- ===== src/Agent/RecvReply.antt =====
-- teaomdv/teaomdv.cc: `recvReply`, in the parts in which its comments divide it.
use ns2_te_aomdv.Base.{
  ℕ, ◌+◌, Bool, true, false, ◌&&◌, Option, none, some, update_first, ltb, ◌==◌, if◌then◌else◌, not,
  Double, ◌⊕◌, ◌≺◌, min_d, max_d, Outcome, done, crash, assert_failed, asserting,
}
use ns2_te_aomdv.Packet.{Packet, Reply, rrep, af_inet, u8}
use ns2_te_aomdv.Entry.{Entry, is_up, disjoint_path_lookup, new_disjoint_path, has_both}
use ns2_te_aomdv.Entry.Choice.{path_find}
use ns2_te_aomdv.Table.{rt_lookup}
use ns2_te_aomdv.Neighbor.{Neighbor}
use ns2_te_aomdv.Agent.State.{
  M, Env, BroadcastId, ◌>>=◌, ◌>>◌, get, lift, emit, freed, entry, set_entry, set_head_path,
  nb_lookup,
}
use ns2_te_aomdv.Agent.Ids.{id_get}
use ns2_te_aomdv.Agent.Forward.{forward, no_delay, deref, set_path_expire}
use ns2_te_aomdv.Agent.Resolve.{find_or_add}
use ns2_te_aomdv.Agent.RecvRequest.{is_near, add_path, renew}
use ns2_te_aomdv.Agent.RecvRequest.Answer.{route_is_up, advertise, set_answered}

module _ {D : Type 0} ⦃fl : Double D⦄ (env : Env D) where
  -- A path's trust cut to the trust in a neighbour, or the required trust and a little more where
  -- there is no such neighbour.
  unfoldable pub cut_trust : Option (Neighbor D) → Reply D → D → D
  cut_trust none rp trust = rp.rt ⊕ fl.lit 1 10
  cut_trust (some nb) rp trust = min_d trust nb.tv

  unfoldable pub reply_expire : Reply D → D
  reply_expire rp = env.now ⊕ rp.rp_lifetime

  -- The same sequence number, and fewer hops than are advertised. The result says whether the reply
  -- was of use.
  unfoldable pub update_forward :
      ℕ → ℕ → Option (Neighbor D) → Reply D → Entry D → Outcome (Bool × Entry D)
  update_forward max_paths diff nb rp e = elim (disjoint_path_lookup e rp.rp_src rp.rp_first_hop) [
    | some path ↦ asserting (path.hopcount == rp.rp_hop_count + 1) (
      true,
      record e {
        paths =
            update_first (has_both rp.rp_src rp.rp_first_hop)
              (λ r. record r {
                fpt = cut_trust nb rp r.fpt;
                expire = max_d r.expire (reply_expire rp);
              })
              e.paths;
      },
    )
    | none ↦ done (
        if new_disjoint_path e rp.rp_src rp.rp_first_hop
          && ltb e.num_paths max_paths
          && is_near env rp.rp_hop_count diff e
        then (
          true,
          add_path env e rp.rp_src rp.rp_hop_count (reply_expire rp) rp.rp_first_hop rp.fpt rp.rpt,
        )
        else (false, e))
  ]

  -- Create or update the forward path, the path to the destination of the data.
  unfoldable pub learn_forward :
      ℕ → ℕ → Option (Neighbor D) → Reply D → Entry D → Outcome (Bool × Entry D)
  learn_forward max_paths diff nb rp e =
      if ltb e.seqno rp.rp_dst_seqno
      then done (
        true,
        add_path env (renew env e rp.rp_dst_seqno) rp.rp_src rp.rp_hop_count (reply_expire rp)
            rp.rp_first_hop rp.fpt rp.rpt,
      )
      else if (e.seqno == rp.rp_dst_seqno) && ltb rp.rp_hop_count e.advertised_hops
      then (if is_up e.flags then update_forward max_paths diff nb rp e else crash assert_failed)
      else done (false, e)

  -- The request that the reply answers is known here, and was not answered yet.
  abbrev pub is_open : Option (BroadcastId D) → Bool
  is_open none = false
  is_open (some b) = b.count == 0

  abbrev pub has_route : Option (Entry D) → Bool
  has_route none = false
  has_route (some e) = is_up e.flags

  -- The reply goes on along the first reverse path.
  unfoldable pub relay_reply : Packet D → Reply D → M D (Unit {0})
  relay_reply p rp = do
    set_answered env p.daddr rp.rp_bcast_id
    e0 ← entry p.daddr
    reverse_path ← deref (path_find e0)
    s ← get
    set_entry rp.rp_dst (advertise env)
    e ← entry rp.rp_dst
    path ← deref (path_find e)
    set_entry p.daddr (set_head_path (set_path_expire (env.now ⊕ fl.lit 10 1)))
    set_entry rp.rp_dst λ e. record e { error = true }
    forward env (some p.daddr)
        (record p {
          addr_type = af_inet;
          next_hop = reverse_path.nexthop;
          callback = true;
          header = rrep (record rp {
            rpt = cut_trust (nb_lookup reverse_path.nexthop s) rp rp.rpt;
            rp_src = s.index;
            rp_hop_count = u8 e.advertised_hops;
            rp_first_hop = path.lasthop;
          });
        })
        no_delay

  -- What is left to do once the route is in the table.
  unfoldable pub pass_reply : Packet D → Reply D → M D (Unit {0})
  pass_reply p rp = do
    s ← get
    if p.daddr == s.index
        then emit (freed p)
        else if has_route (rt_lookup s.rtable p.daddr) && is_open (id_get p.daddr rp.rp_bcast_id s)
        then relay_reply p rp
        else emit (freed p)

  unfoldable pub process_reply : Packet D → Reply D → M D (Unit {0})
  process_reply p rp = do
    find_or_add env rp.rp_dst
    e ← entry rp.rp_dst
    s ← get
    r ← lift (learn_forward s.max_paths s.len_diff (nb_lookup p.prev_hop s) rp e)
    set_entry rp.rp_dst (λ _. r.1)
    if r.0 then (do route_is_up env rp.rp_dst; pass_reply p rp) else emit (freed p)

  unfoldable pub recv_reply : Packet D → Reply D → M D (Unit {0})
  recv_reply p rp0 = do
    s ← get
    let rp : Reply D = record rp0 { fpt = cut_trust (nb_lookup p.prev_hop s) rp0 rp0.fpt }
    if (rp.fpt ≺ rp.rt) && not (p.prev_hop == rp.rp_src)
        then emit (freed p)
        else if rp.rp_dst == s.index
        then emit (freed p)
        else process_reply p rp
