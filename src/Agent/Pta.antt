-- ===== src/Agent/Pta.antt =====
-- teaomdv/teaomdv.cc: `recvPta`, the news from a next hop that a path is no longer to be trusted.
pub mod Fault
use ns2_te_aomdv.Base.{
  ℕ, Bool, false, ◌&&◌, Option, none, some, List, [], ◌∷◌, length, keep, leb, ◌==◌, if◌then◌else◌,
  Double, dangling_pointer,
}
use ns2_te_aomdv.Packet.{Packet, Pta}
use ns2_te_aomdv.Entry.{Entry, RoutePath, is_up, has_nexthop, path_lookup}
use ns2_te_aomdv.Table.{rt_lookup}
use ns2_te_aomdv.Agent.State.{
  M, Env, pure, ◌>>=◌, ◌>>◌, skip, fail, get, assert, when, emit, freed, entry, set_entry,
}
use ns2_te_aomdv.Agent.Send.{send_pta}
use ns2_te_aomdv.Agent.Routes.{is_even, max_seqno}
use ns2_te_aomdv.Agent.Forward.{delete_path, deref}

module _ {D : Type 0} ⦃fl : Double D⦄ (env : Env D) where
  -- `path->lasthop`, read in the loop below. `path` points to the first path over `saddr` that the entry
  -- had as `before`. A deletion frees that path before any other over `saddr`, so that the pointer
  -- dangles if the entry has fewer of these now.
  unfoldable pub read_lasthop : ℕ → Entry D → Entry D → M D ℕ
  read_lasthop saddr before e = do
    path ← deref (path_lookup before saddr)
    if length (keep (has_nexthop saddr) e.paths) == length (keep (has_nexthop saddr) before.paths)
        then pure path.lasthop
        else fail dangling_pointer

  -- The loop over the precursors.
  unfoldable pub tell_precursors : ℕ → ℕ → Entry D → Entry D → List ℕ → M D (Unit {0})
  tell_precursors index saddr before e [] = skip
  tell_precursors index saddr before e (a ∷ pcs) = do
    if index == a then skip else (do
      lasthop ← read_lasthop saddr before e
      send_pta env
          (record {
            unreachable_dst = e.dst;
            unreachable_lasthop = lasthop;
            unreachable_dst_seqno = e.seqno;
          })
          a)
    tell_precursors index saddr before e pcs

  -- The route goes through the sender, is not newer, and is the one that is meant.
  unfoldable pub is_meant : ℕ → Pta → Entry D → Bool
  is_meant saddr re e =
      is_up e.flags && leb e.seqno re.unreachable_dst_seqno && ends_there (path_lookup e saddr)
    where
      ends_there : Option (RoutePath D) → Bool
      ends_there none = false
      ends_there (some path) = path.lasthop == re.unreachable_lasthop

  unfoldable pub lose_trust : ℕ → Pta → Entry D → M D (Unit {0})
  lose_trust saddr re e = do
    assert (is_even e.seqno)
    let heard = max_seqno e.highest_seqno_heard re.unreachable_dst_seqno
    delete_path env e.dst saddr
    set_entry e.dst λ e. record e { highest_seqno_heard = heard; seqno = heard }
    e2 ← entry e.dst
    s ← get
    tell_precursors s.index saddr e e2 e2.pclist

  unfoldable pub pta_route : ℕ → Pta → Option (Entry D) → M D (Unit {0})
  pta_route saddr re none = skip
  pta_route saddr re (some e) = when (is_meant saddr re e) (lose_trust saddr re e)

  unfoldable pub recv_pta : Packet D → Pta → M D (Unit {0})
  recv_pta p re = do
    s ← get
    pta_route p.saddr re (rt_lookup s.rtable re.unreachable_dst)
    emit (freed p)
