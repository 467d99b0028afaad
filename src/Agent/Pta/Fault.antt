-- ===== src/Agent/Pta/Fault.antt =====
-- `recvPta` reads a path that it has freed.
use ns2_te_aomdv.Base.{
  ℕ, ◌≡◌, refl, Bool, true, false, some, List, [], ◌∷◌, find, length, keep, keep-find, find-any,
  Option-cases, ◌<◌, update_first, find-update_first, ◌==◌, arith, if◌then◌else◌, Bool-cases, inl,
  inr, Double, done, crash, dangling_pointer, sym, ◌∙◌, subst, find-passes,
}
use ns2_te_aomdv.Packet.{Packet, Pta}
use ns2_te_aomdv.Entry.{Entry, RoutePath, has_nexthop, path_lookup, path_delete, path_delete_all}
use ns2_te_aomdv.Entry.Counted.{IsCounted}
use ns2_te_aomdv.Table.{rt_lookup, has_dst}
use ns2_te_aomdv.Agent.State.{Agent, Env, ◌>>=◌, ◌>>◌, entry}
use ns2_te_aomdv.Agent.Routes.{rt_down, is_even, max_seqno}
use ns2_te_aomdv.Agent.Pta.{
  read_lasthop, tell_precursors, is_meant, lose_trust, pta_route, recv_pta,
}
use ns2_te_aomdv.Agent.Invariant.Deletion.{delete_path-eq, path_delete-dst, is_nil}

-- Some precursor is not the node itself.
abbrev pub any_other : ℕ → List ℕ → Bool
any_other index [] = false
any_other index (a ∷ pcs) = if index == a then any_other index pcs else true

module _ {D : Type 0} ⦃fl : Double D⦄ (env : Env D) where
  -- The first path over `saddr` is gone.
  abbrev Gone : ℕ → Entry D → Entry D → Type 0
  Gone saddr before e =
      length (keep (has_nexthop saddr) e.paths) < length (keep (has_nexthop saddr) before.paths)

  read_lasthop-stops :
      (saddr : ℕ) (before e : Entry D) (path : RoutePath D) (s : Agent D)
      → path_lookup before saddr ≡ some path
      → Gone saddr before e
      → read_lasthop env saddr before e s ≡ crash dangling_pointer
  unfolding read_lasthop
  read_lasthop-stops saddr before e path s h gone = rw (◌>>=◌, h) (ground arith)

  tell_precursors_lem :
      (index saddr : ℕ) (before e : Entry D) (path : RoutePath D) (pcs : List ℕ) (s : Agent D)
      → path_lookup before saddr ≡ some path
      → Gone saddr before e
      → tell_precursors env index saddr before e pcs s
        ≡ (if any_other index pcs then crash dangling_pointer else done (tt, s))
  unfolding tell_precursors
  tell_precursors_lem index saddr before e path [] s h gone = refl
  tell_precursors_lem index saddr before e path (a ∷ pcs) s h gone =
      elim (Bool-cases (index == a)) [
        | inl own ↦ rw own (tell_precursors_lem index saddr before e path pcs s h gone)
        | inr other ↦ rw other (rw (◌>>=◌, read_lasthop-stops saddr before e path s h gone) refl)
      ]

  found-dst :
      (dst : ℕ) (table : List (Entry D)) (e : Entry D) → rt_lookup table dst ≡ some e → e.dst ≡ dst
  unfolding rt_lookup
  found-dst dst table e h = ground (arith, find-passes (has_dst dst) table e h)

  -- The entry without the path.
  abbrev without : ℕ → Entry D → Entry D
  without saddr e =
      if is_nil (path_delete saddr e)
      then rt_down env (path_delete saddr e)
      else path_delete saddr e

  without-pclist : (saddr : ℕ) (e : Entry D) → (without saddr e).pclist ≡ e.pclist
  unfolding path_delete rt_down path_delete_all
  without-pclist saddr e = ground arith

  without-Gone :
      (saddr : ℕ) (path : RoutePath D) (e : Entry D)
      → path_lookup e saddr ≡ some path
      → Gone saddr e (without saddr e)
  unfolding path_delete rt_down path_delete_all path_lookup
  without-Gone saddr path e h =
      ground
        (arith, keep-find (has_nexthop saddr) e.paths path h, find-any (has_nexthop saddr) e.paths)

  without-dst :
      (saddr dst : ℕ) (e : Entry D)
      → has_dst dst e ≡ true
      → has_dst dst (rt_down env (path_delete saddr e)) ≡ true
  unfolding path_delete rt_down path_delete_all
  without-dst saddr dst e h = ground arith

  without-found :
      (saddr dst : ℕ) (e : Entry D) (table : List (Entry D))
      → find (has_dst dst) table ≡ some e
      → find (has_dst dst) (
          if is_nil (path_delete saddr e)
          then update_first (has_dst dst) (λ x. rt_down env (path_delete saddr x)) table
          else update_first (has_dst dst) (path_delete saddr) table)
        ≡ some (without saddr e)
  without-found saddr dst e table h = elim (Bool-cases (is_nil (path_delete saddr e))) [
    | inl nil ↦ rw nil (
        find-update_first (has_dst dst) (λ x. rt_down env (path_delete saddr x)) table e
          (λ x k. without-dst saddr dst x k) h)
    | inr left ↦
        rw left (
          find-update_first (has_dst dst) (path_delete saddr) table e (path_delete-dst saddr dst) h)
  ]

  -- `recvPta` stops: the route is the one that is meant, with an even sequence number.
  lose_trust-stops :
      (saddr : ℕ) (re : Pta) (path : RoutePath D) (e : Entry D) (s : Agent D)
      → path_lookup e saddr ≡ some path
      → rt_lookup s.rtable e.dst ≡ some e
      → IsCounted e
      → is_even e.seqno ≡ true
      → any_other s.index e.pclist ≡ true
      → lose_trust env saddr re e s ≡ crash dangling_pointer
  unfolding lose_trust rt_lookup
  lose_trust-stops saddr re path e s lies h c even other =
      let heard = max_seqno e.highest_seqno_heard re.unreachable_dst_seqno in
      rw (even, ◌>>◌, ◌>>=◌, delete_path-eq env s.rqueue e.dst saddr s e h c)
        (rw
          (
            ◌>>◌,
            ◌>>=◌,
            entry,
            find-update_first (has_dst e.dst)
                (λ x. record x { highest_seqno_heard = heard; seqno = heard }) _ (without saddr e)
                (λ x k. k) (without-found saddr e.dst e s.rtable h),
          )
          (tell_precursors_lem s.index saddr e
              (record (without saddr e) { highest_seqno_heard = heard; seqno = heard }) path
              (without saddr e).pclist _ lies (without-Gone saddr path e lies)
            ∙ rw (without-pclist saddr e, other) refl))

  meant-path :
      (saddr : ℕ) (re : Pta) (e : Entry D)
      → is_meant env saddr re e ≡ true
      → (path : RoutePath D) × (path_lookup e saddr ≡ some path)
  unfolding is_meant
  meant-path saddr re e meant = elim (Option-cases (path_lookup e saddr)) [
    | inl h ↦ absurd (ground arith)
    | inr found ↦ found
  ]

  -- A report of distrust for an entry that is up, with a path over the sender and the reported last
  -- hop, an even number that is not above the reported one, and a right count of its paths: if some
  -- precursor of the entry is not the node itself, `recvPta` does not return, because it reads the
  -- path that it has freed.
  pub recv_pta-stops :
      (p : Packet D) (re : Pta) (e : Entry D) (s : Agent D)
      → rt_lookup s.rtable re.unreachable_dst ≡ some e
      → IsCounted e
      → is_meant env p.saddr re e ≡ true
      → is_even e.seqno ≡ true
      → any_other s.index e.pclist ≡ true
      → recv_pta env p re s ≡ crash dangling_pointer
  unfolding recv_pta pta_route
  recv_pta-stops p re e s h c meant even other =
      let at : re.unreachable_dst ≡ e.dst = sym (found-dst re.unreachable_dst s.rtable e h) in
      let (path, lies) = meant-path p.saddr re e meant in
      rw (◌>>=◌, ◌>>◌, h)
        (rw
          (
            meant,
            lose_trust-stops p.saddr re path e s lies
                (subst (λ d. rt_lookup s.rtable d ≡ some e) at h) c even other,
          )
          refl)
