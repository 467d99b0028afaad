-- ===== src/Agent/Invariant/Deletion.antt =====
-- The deletion of a path that is not trusted, and its reports, keep the table good.
use ns2_te_aomdv.Base.{
  KeepsKey, ◌∙◌, ℕ, ◌≡◌, Bool, true, none, some, List, [], ◌∷◌, length, find, update_first,
  update_first-update_first, find-update_first, find-update_none, All-find, Option-cases,
  if◌then◌else◌, arith, Double, done, crash, null_pointer, Bool-cases, inl, inr, ◌==◌,
}
use ns2_te_aomdv.Packet.{Pta}
use ns2_te_aomdv.Entry.{Entry, path_delete}
use ns2_te_aomdv.Entry.Counted.{IsCounted, path_delete-IsCounted, path_empty_lem}
use ns2_te_aomdv.Entry.Disjoint.{path_delete-IsDisjoint}
use ns2_te_aomdv.Table.{has_dst, rt_lookup}
use ns2_te_aomdv.Table.Unique.{key}
use ns2_te_aomdv.Queue.{Queue}
use ns2_te_aomdv.Agent.State.{Env, Agent}
use ns2_te_aomdv.Agent.Send.{send_pta}
use ns2_te_aomdv.Agent.Routes.{rt_down}
use ns2_te_aomdv.Agent.Forward.{send_ptas, delete_path}
use ns2_te_aomdv.Agent.Invariant.{
  IsGood, HasStored, IsStored-set, IsStored-found, Keeps, Post, returns, stops, then-Post,
}
use ns2_te_aomdv.Agent.Invariant.Entries.{
  rt_down-IsGood, rt_down-dst, path_delete-few, path_delete-same,
}

module _ {D : Type 0} where
  abbrev pub is_nil : Entry D → Bool
  is_nil e = length e.paths == 0

  pub path_delete-dst :
      (nexthop dst : ℕ) (e : Entry D)
      → has_dst dst e ≡ true
      → has_dst dst (path_delete nexthop e) ≡ true
  unfolding path_delete
  path_delete-dst nexthop dst e h = ground arith

module _ {D : Type 0} ⦃fl : Double D⦄ (env : Env D) (q : Queue D) where
  abbrev pub Kept : {A : Type 0} → A → Agent D → Type 0
  Kept _ = Keeps q

  pub send_pta-Post : (re : Pta) (a : ℕ) (s : Agent D) → Keeps q s → Post Kept (send_pta env re a s)
  unfolding send_pta
  send_pta-Post re a s k = returns (record { good = k.good; same = k.same })

  pub send_ptas-Post :
      (re : Pta) (pcs : List ℕ) (s : Agent D) → Keeps q s → Post Kept (send_ptas env re pcs s)
  unfolding send_ptas
  send_ptas-Post re [] s k = returns k
  send_ptas-Post re (a ∷ pcs) s k =
      then-Post (send_pta env re a) _ s (send_pta-Post re a s k)
        λ _ s' k'. send_ptas-Post re pcs s' k'

  pub set_entry-Keeps :
      (dst : ℕ) (f : Entry D → Entry D) (s : Agent D)
      → ((e : Entry D) → IsGood e → IsGood (f e))
      → KeepsKey key dst f
      → Keeps q s
      → Keeps q (record s { rtable = update_first (has_dst dst) f s.rtable })
  set_entry-Keeps dst f s h d k = record {
    good = IsStored-set dst f s.rtable s.nbhead s.max_paths h d k.good;
    same = k.same;
  }

  pub delete_path-eq :
      (dst nexthop : ℕ) (s : Agent D) (e : Entry D)
      → find (has_dst dst) s.rtable ≡ some e
      → IsCounted e
      → delete_path env dst nexthop s
        ≡ done (
          tt,
          record s {
            rtable =
                if is_nil (path_delete nexthop e)
                then update_first (has_dst dst) (λ x. rt_down env (path_delete nexthop x)) s.rtable
                else update_first (has_dst dst) (path_delete nexthop) s.rtable;
          },
        )
  unfolding delete_path rt_lookup
  delete_path-eq dst nexthop s e h c = ground (
    arith,
    find-update_first (has_dst dst) (path_delete nexthop) s.rtable e (path_delete-dst nexthop dst)
        h,
    update_first-update_first (has_dst dst) (path_delete nexthop) (rt_down env) s.rtable
        (path_delete-dst nexthop dst),
    path_empty_lem (path_delete nexthop e) (path_delete-IsCounted nexthop e c),
  )

  delete_path-none :
      (dst nexthop : ℕ) (s : Agent D)
      → find (has_dst dst) s.rtable ≡ none
      → delete_path env dst nexthop s ≡ crash null_pointer
  unfolding delete_path rt_lookup
  delete_path-none dst nexthop s h =
      ground (arith, find-update_none (has_dst dst) (path_delete nexthop) s.rtable h)

  deleted-IsGood :
      (dst nexthop : ℕ) (s : Agent D) (e : Entry D)
      → HasStored s
      → find (has_dst dst) s.rtable ≡ some e
      → HasStored (record s {
        rtable =
            if is_nil (path_delete nexthop e)
            then update_first (has_dst dst) (λ x. rt_down env (path_delete nexthop x)) s.rtable
            else update_first (has_dst dst) (path_delete nexthop) s.rtable;
      })
  deleted-IsGood dst nexthop s e g h = elim (Bool-cases (is_nil (path_delete nexthop e))) [
    | inl nil ↦ rw nil (
        IsStored-set dst _ s.rtable s.nbhead s.max_paths
          (λ x gx.
            rt_down-IsGood env _ (path_delete-IsCounted nexthop x gx.counted)
              (path_delete-IsDisjoint nexthop x gx.disjoint) (path_delete-few nexthop x gx.few))
          (λ x d. rt_down-dst env (path_delete nexthop x) ∙ path_delete-same nexthop x ∙ d) g)
    | inr some_left ↦ rw some_left (
        IsStored-found dst _ s.rtable s.nbhead s.max_paths
          (λ x hx gx. record {
            counted = path_delete-IsCounted nexthop x gx.counted;
            disjoint = path_delete-IsDisjoint nexthop x gx.disjoint;
            live = λ _. ground arith;
            few = path_delete-few nexthop x gx.few;
          })
          (λ x d. path_delete-same nexthop x ∙ d) g)
  ]

  -- After `path_delete` the entry may be up with no path, until it is brought down.
  pub delete_path-Post :
      (dst nexthop : ℕ) (s : Agent D) → Keeps q s → Post Kept (delete_path env dst nexthop s)
  delete_path-Post dst nexthop s k = elim (Option-cases (find (has_dst dst) s.rtable)) [
    | inl h ↦ rw (delete_path-none dst nexthop s h) (stops (λ x. cc))
    | inr (e, h) ↦
        rw
          (delete_path-eq dst nexthop s e h
            (All-find IsGood (has_dst dst) s.rtable e k.good.entries h).counted)
          (returns (record { good = deleted-IsGood dst nexthop s e k.good h; same = k.same }))
  ]
