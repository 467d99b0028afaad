-- ===== src/Agent/Invariant/Expiry.antt =====
-- `rt_purge`, the handler of the route cache timer, keeps the agent valid.
use ns2_te_aomdv.Base.{
  ◌∙◌, ◌≤◌, length-keep-le, ℕ, ◌+◌, ◌≡◌, refl, sym, subst, Bool, true, false, List, [], ◌∷◌, length,
  not, ◌&&◌, ◌==◌, if◌then◌else◌, update_first, update_first-update_first, ==_refl, arith, Double,
  ◌≺◌, map,
}
use ns2_te_aomdv.Packet.{u32}
use ns2_te_aomdv.Entry.{Entry, infinity2, is_up}
use ns2_te_aomdv.Entry.Counted.{IsCounted, path_empty_lem}
use ns2_te_aomdv.Entry.Disjoint.{IsDisjoint, keep-IsDisjoint}
use ns2_te_aomdv.Entry.Purge.{path_purge_lem, is_alive, purged}
use ns2_te_aomdv.Table.{has_dst}
use ns2_te_aomdv.Queue.{rtexpire, find_dst}
use ns2_te_aomdv.Agent.State.{Env, Agent, pure, ◌>>◌, entry, set_entry, when, assert}
use ns2_te_aomdv.Agent.Routes.{rt_down, is_even, max_seqno}
use ns2_te_aomdv.Agent.Request.{send_request, drop_all_waiting}
use ns2_te_aomdv.Agent.Resolve.{expire_entry, purge_entry, purge_entries, rt_purge}
use ns2_te_aomdv.Agent.Invariant.{
  weaken-Post, IsGood, IsStored-set, IsValid, Post, returns, then-Post, assert-Post,
}
use ns2_te_aomdv.Agent.Invariant.Entries.{rt_down-IsGood, rt_down-dst}
use ns2_te_aomdv.Agent.Invariant.Resolve.{send_request-Post}
use ns2_te_aomdv.Agent.Invariant.Waiting.{forward_waiting-Post}
use ns2_te_aomdv.Agent.Invariant.Waiting.Dropped.{drop_all_waiting-Post}
use ns2_te_aomdv.Agent.Invariant.Rules.{Valid, if-Post, set_entry-IsValid, entry-Valid}

module _ {D : Type 0} ⦃fl : Double D⦄ (env : Env D) where
  -- The entry is down with an odd number once its last path is gone.
  abbrev odd_seqno : Entry D → ℕ
  odd_seqno e =
      let seqno = max_seqno (u32 (e.seqno + 1)) e.highest_seqno_heard in
      if is_even seqno then u32 (seqno + 1) else seqno

  -- Between the purge of its paths and `rt_down` the entry may be up with no path.
  emptied-Post :
      (e e1 : Entry D) (b : Bool) (s : Agent D)
      → IsValid s
      → (length e1.paths == 0) ≡ b
      → IsCounted e1
      → IsDisjoint e1.paths
      → length e1.paths ≤ 3
      → e1.dst ≡ e.dst
      → Post Valid (
          when b
            (do
              drop_all_waiting env e.dst rtexpire
              set_entry e.dst λ x. rt_down env (record x { seqno = odd_seqno e1 }))
            (record s { rtable = update_first (has_dst e.dst) (λ _. e1) s.rtable }))
  emptied-Post e e1 false s v q c d f same = returns (
      set_entry-IsValid e.dst (λ _. e1) s
        (λ _ _. record { counted = c; disjoint = d; live = λ _. ground arith; few = f })
        (λ _ _. same) v)
  emptied-Post e e1 true s v q c d f same =
      then-Post (drop_all_waiting env e.dst rtexpire) _
        (record s { rtable = update_first (has_dst e.dst) (λ _. e1) s.rtable })
        (drop_all_waiting-Post env e.dst rtexpire _ v.bounded)
        λ _ s2 left. returns (record {
          good =
              rw
                (
                  left.same,
                  left.others,
                  left.limit,
                  update_first-update_first (has_dst e.dst) (λ _. e1) down s.rtable
                      (λ _ _. rw same (==_refl e.dst)),
                )
                (IsStored-set e.dst (λ _. down e1) s.rtable s.nbhead s.max_paths
                  (λ _ _. rt_down-IsGood env _ c d f) (λ _ _. rt_down-dst env _ ∙ same) v.good);
          bounded = left.bounded;
        })
    where
      down : Entry D → Entry D
      down x = rt_down env (record x { seqno = odd_seqno e1 })

  expire_entry-Post :
      (e : Entry D) (s : Agent D) → IsGood e → IsValid s → Post Valid (expire_entry env e s)
  unfolding expire_entry
  expire_entry-Post e s g v =
      rw (path_purge_lem env.now e g.counted, path_empty_lem (purged env.now e) refl)
        (emptied-Post e (purged env.now e) _ s v refl refl
          (keep-IsDisjoint (is_alive env.now) e.paths g.disjoint)
          (omega (arith, length-keep-le (is_alive env.now) e.paths, g.few)) refl)

  purge_entry-Post :
      (dst : ℕ) (delay : D) (s : Agent D) → IsValid s → Post Valid (purge_entry env dst delay s)
  unfolding purge_entry
  purge_entry-Post dst delay s v = then-Post (entry dst) _ s (entry-Valid env dst s v) λ e s1 h1.
      if-Post Valid (is_up e.flags && (e.expire ≺ env.now)) _ _ s1
        (then-Post (expire_entry env e) _ s1 (expire_entry-Post e s1 h1.0 h1.1)
          λ _ s2 v2. returns v2)
        (if-Post Valid (is_up e.flags) _ _ s1
          (then-Post (assert (not (e.hops == infinity2))) _ s1 (assert-Post _ s1) λ _ s2 h2.
            weaken-Post (λ _ _ d. d.0)
              (forward_waiting-Post env dst _ delay s2 (subst IsValid (sym h2.0) (h1.1))
                (rw (h2.0) (omega arith))))
          (if-Post Valid (find_dst dst s1.rqueue) _ (pure delay) s1
            (then-Post (send_request env dst) _ s1 (send_request-Post env dst s1 h1.1)
              λ _ s2 v2. returns v2)
            (returns h1.1)))

  purge_entries-Post :
      (dsts : List ℕ) (delay : D) (s : Agent D)
      → IsValid s
      → Post Valid (purge_entries env dsts delay s)
  unfolding purge_entries
  purge_entries-Post [] delay s v = returns v
  purge_entries-Post (dst ∷ dsts) delay s v =
      then-Post (purge_entry env dst delay) _ s (purge_entry-Post dst delay s v)
        λ delay' s1 v1. purge_entries-Post dsts delay' s1 v1

  -- `rt_purge` keeps the agent valid, and its loops end.
  pub rt_purge-Post : (s : Agent D) → IsValid s → Post Valid (rt_purge env s)
  unfolding rt_purge
  rt_purge-Post s v = purge_entries-Post (map (λ e. e.dst) s.rtable) (fl.lit 0 1) s v
