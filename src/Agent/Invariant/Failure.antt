-- ===== src/Agent/Invariant/Failure.antt =====
-- The reaction to a failed link and to a route error keeps the table good, and no route that is up
-- leads over the failed link any more.
use ns2_te_aomdv.Base.{
  ◌∙◌, ◌≤◌, SameKeys, ℕ, ◌+◌, ◌≡◌, refl, ◌≢◌, Bool, true, false, ◌&&◌, List, [], ◌∷◌, length,
  is_some, remove_first, remove_first-none, find, find-any, Bool-cases, inl, inr, arith, Double,
  done, All, ◌==◌, if◌then◌else◌, asserting, and_then, on_done,
}
use ns2_te_aomdv.Entry.{Entry, RoutePath, is_up, has_nexthop, path_lookup, path_delete, path_empty}
use ns2_te_aomdv.Entry.Counted.{IsCounted, path_delete-IsCounted, path_empty_lem}
use ns2_te_aomdv.Entry.Disjoint.{IsApart, IsDisjoint, path_delete-IsDisjoint}
use ns2_te_aomdv.Table.Unique.{key}
use ns2_te_aomdv.Packet.{u32}
use ns2_te_aomdv.Agent.State.{Env}
use ns2_te_aomdv.Agent.Routes.{report, rt_down, fail_route, fail_link, fail_links, max_seqno}
use ns2_te_aomdv.Agent.Invariant.{IsGood, Gives, weaken-Gives, and_then-Gives, on_done-Gives}
use ns2_te_aomdv.Agent.Invariant.Entries.{
  rt_down-IsGood, rt_down-dst, path_delete-few, path_delete-same,
}

module _ {D : Type 0} where
  abbrev pub IsOff : ℕ → RoutePath D → Type 0
  IsOff id p = p.nexthop ≢ id

  -- If the entry is up, no path of it has that next hop.
  abbrev pub Avoids : ℕ → Entry D → Type 0
  Avoids id e = is_up e.flags ≡ true → All (IsOff id) e.paths

  apart-IsOff :
      (nh lh id : ℕ) (ps : List (RoutePath D))
      → nh ≡ id
      → All (IsApart nh lh) ps
      → All (IsOff id) ps
  apart-IsOff nh lh id [] e a = tt
  apart-IsOff nh lh id (p ∷ ps) e a = ((λ h. a.0.0 cc), apart-IsOff nh lh id ps e a.1)

  remove_first-IsOff :
      (id : ℕ) (ps : List (RoutePath D))
      → IsDisjoint ps
      → All (IsOff id) (remove_first (has_nexthop id) ps)
  remove_first-IsOff id [] d = tt
  remove_first-IsOff id (p ∷ ps) d =
      ground (arith, remove_first-IsOff id ps d.1, apart-IsOff p.nexthop p.lasthop id ps)

  -- Paths that are node-disjoint have at most one with a given next hop, which is deleted.
  path_delete-IsOff :
      (id : ℕ) (e : Entry D) → IsDisjoint e.paths → All (IsOff id) (path_delete id e).paths
  unfolding path_delete
  path_delete-IsOff id e d = ground (
    arith,
    remove_first-IsOff id e.paths d,
    remove_first-none (has_nexthop id) e.paths,
    find-any (has_nexthop id) e.paths,
  )

  path_lookup-IsOff :
      (id : ℕ) (e : Entry D) → is_some (path_lookup e id) ≡ false → All (IsOff id) e.paths
  unfolding path_lookup
  path_lookup-IsOff id e h = go e.paths h
    where
      go :
          (ps : List (RoutePath D)) → is_some (find (has_nexthop id) ps) ≡ false → All (IsOff id) ps
      go [] k = tt
      go (p ∷ ps) k = ground (arith, go ps)

-- A report of a destination stops if the packet is full.
pub report-Gives : (d : ℕ × ℕ) (dests : List (ℕ × ℕ)) → Gives (λ _. Unit {0}) (report d dests)
unfolding report
report-Gives d dests = ground arith

module _ {D : Type 0} ⦃fl : Double D⦄ (env : Env D) where
  rt_down-down : (e : Entry D) → is_up (rt_down env e).flags ≡ false
  unfolding rt_down
  rt_down-down e = ground arith

  -- Good, not over the link, and for the same destination.
  abbrev IsSafe : {A : Type 0} → ℕ → ℕ → Entry D × A → Type 0
  IsSafe id dst r = IsGood r.0 × Avoids id r.0 × (r.0.dst ≡ dst)

  downed-IsSafe :
      (id : ℕ) (e : Entry D)
      → IsCounted e
      → IsDisjoint e.paths
      → length e.paths ≤ 3
      → IsGood (rt_down env e) × Avoids id (rt_down env e) × ((rt_down env e).dst ≡ e.dst)
  downed-IsSafe id e c d f =
      (rt_down-IsGood env e c d f, (λ up. ground (arith, rt_down-down e)), rt_down-dst env e)

  fail_route-Gives :
      (id : ℕ) (e : Entry D) (dests : List (ℕ × ℕ))
      → IsCounted e
      → IsDisjoint e.paths
      → length e.paths ≤ 3
      → Gives (IsSafe id e.dst) (fail_route env e dests)
  unfolding fail_route
  fail_route-Gives id e dests c d f = go e.error
    where
      seqno : ℕ
      seqno = max_seqno (u32 (e.seqno + 1)) e.highest_seqno_heard

      go :
          (b : Bool)
          → Gives (IsSafe id e.dst) (
              if b
              then on_done
                  (λ ds. (rt_down env (record e { seqno = seqno; error = false }), ds))
                  (report (e.dst, seqno) dests)
              else done (rt_down env (record e { seqno = seqno }), dests))
      go true =
          on_done-Gives (λ _. Unit {0}) (IsSafe id e.dst) _ (report (e.dst, seqno) dests)
            (report-Gives _ dests)
            λ ds _. downed-IsSafe id (record e { seqno = seqno; error = false }) c d f
      go false = downed-IsSafe id (record e { seqno = seqno }) c d f

  fail_link-Gives :
      (id : ℕ) (e : Entry D) (dests : List (ℕ × ℕ))
      → IsGood e
      → Gives (IsSafe id e.dst) (fail_link env id e dests)
  unfolding fail_link
  fail_link-Gives id e dests g = elim (Bool-cases (is_up e.flags && is_some (path_lookup e id))) [
    | inr not_over ↦ rw not_over (g, (λ up. path_lookup-IsOff id e (ground arith)), refl)
    | inl over ↦ rw over (deleted _)
  ]
    where
      e1 : Entry D
      e1 = path_delete id e

      counted : IsCounted e1
      counted = path_delete-IsCounted id e g.counted

      disjoint : IsDisjoint e1.paths
      disjoint = path_delete-IsDisjoint id e g.disjoint

      few : length e1.paths ≤ 3
      few = path_delete-few id e g.few

      same : e1.dst ≡ e.dst
      same = path_delete-same id e

      emptied :
          (b : Bool)
          → (length e1.paths == 0) ≡ b
          → Gives (IsSafe id e.dst) (if b then fail_route env e1 dests else done (e1, dests))
      emptied true q =
          weaken-Gives (IsSafe id e1.dst) (IsSafe id e.dst) (fail_route env e1 dests)
            (fail_route-Gives id e1 dests counted disjoint few) λ r h. (h.0, h.1, h.2 ∙ same)
      emptied false q = (
        record { counted = counted; disjoint = disjoint; live = λ _. ground arith; few = few },
        (λ _. path_delete-IsOff id e g.disjoint),
        same,
      )

      deleted :
          (b : Bool)
          → Gives (IsSafe id e.dst) (
              and_then (asserting b e1) λ e1.
                and_then
                  (path_empty e1)
                  λ empty. if empty then fail_route env e1 dests else done (e1, dests))
      deleted true = rw (path_empty_lem e1 counted) (emptied _ refl)
      deleted false = λ e. cc

  -- After `handle_link_failure` has gone through a table of good entries, if it meets its assertion
  -- and the room of the packet, every entry is good and stands for the destination that it stood for,
  -- and no entry that is up has a path over the failed neighbour.
  pub fail_links-IsSafe :
      (id : ℕ) (table : List (Entry D)) (dests : List (ℕ × ℕ))
      → All IsGood table
      → Gives
          (λ r. All (λ e. IsGood e × Avoids id e) r.0 × SameKeys key table r.0)
          (fail_links env id table dests)
  unfolding fail_links
  fail_links-IsSafe id [] dests g = (tt, refl)
  fail_links-IsSafe id (e ∷ es) dests g =
      and_then-Gives (IsSafe id e.dst) _ (fail_link env id e dests) _
        (fail_link-Gives id e dests g.0)
        λ r h.
          on_done-Gives (λ rest. All (λ e. IsGood e × Avoids id e) rest.0 × SameKeys key es rest.0)
            _ _ (fail_links env id es r.1) (fail_links-IsSafe id es r.1 g.1)
            λ rest k. (((h.0, h.1), k.0), cc)
