-- ===== src/Agent/Invariant/RouteError.antt =====
-- The reception of a route error and the failure of a link, as methods of the agent, keep the table
-- good and leave the queue alone.
use ns2_te_aomdv.Base.{
  ◌∙◌, ◌≤◌, SameKeys, SameKeys-IsDistinct, find-key, ℕ, ◌≡◌, refl, sym, subst, Bool, true, false,
  ◌&&◌, List, [], ◌∷◌, length, is_some, find, All-map, All-find, Bool-cases, Option-cases, inl, inr,
  arith, Double, done, All, ltb, leb, ◌==◌, if◌then◌else◌, asserting, and_then, on_done,
}
use ns2_te_aomdv.Table.Unique.{key}
use ns2_te_aomdv.Neighbor.{Neighbor}
use ns2_te_aomdv.Packet.{Packet}
use ns2_te_aomdv.Entry.{Entry, is_up, path_lookup, path_delete, path_empty}
use ns2_te_aomdv.Entry.Counted.{IsCounted, path_delete-IsCounted, path_empty_lem}
use ns2_te_aomdv.Entry.Disjoint.{IsDisjoint, path_delete-IsDisjoint}
use ns2_te_aomdv.Table.{has_dst, rt_lookup}
use ns2_te_aomdv.Queue.{Queue}
use ns2_te_aomdv.Agent.State.{Env, Agent, lift, emit, freed}
use ns2_te_aomdv.Agent.Send.{send_error}
use ns2_te_aomdv.Agent.Routes.{
  report, rt_down, lose_last, lose_path, lose_at, lose_routes, fail_links, handle_link_failure,
  recv_error, max_seqno,
}
use ns2_te_aomdv.Agent.Invariant.{
  IsGood, IsStored, IsStored-found, weaken-Gives, Keeps, Post, returns, then-Post, weaken-Post,
  lift-Post, Gives, and_then-Gives, on_done-Gives,
}
use ns2_te_aomdv.Agent.Invariant.Entries.{
  rt_down-IsGood, rt_down-dst, path_delete-few, path_delete-same,
}
use ns2_te_aomdv.Agent.Invariant.Failure.{report-Gives, fail_links-IsSafe, Avoids}

module _ {D : Type 0} where
  -- Good, and for the same destination.
  abbrev IsLeft : {A : Type 0} → ℕ → Entry D × A → Type 0
  IsLeft dst r = IsGood r.0 × (r.0.dst ≡ dst)

  abbrev IsLeftTable : {A : Type 0} → List (Neighbor D) → ℕ → List (Entry D) × A → Type 0
  IsLeftTable nbs m r = IsStored r.0 nbs m

module _ {D : Type 0} ⦃fl : Double D⦄ (env : Env D) where
  lose_last-Gives :
      (e : Entry D) (dests : List (ℕ × ℕ))
      → IsCounted e
      → IsDisjoint e.paths
      → length e.paths ≤ 3
      → Gives (IsLeft e.dst) (lose_last env e dests)
  unfolding lose_last
  lose_last-Gives e dests c d f = go e1.error
    where
      e1 : Entry D
      e1 = rt_down env (record e { seqno = e.highest_seqno_heard })

      good : IsGood e1
      good = rt_down-IsGood env _ c d f

      same : e1.dst ≡ e.dst
      same = rt_down-dst env _

      go :
          (b : Bool)
          → Gives (IsLeft e.dst) (
              if b
              then on_done
                  (λ ds. (record e1 { error = false }, ds))
                  (report (e1.dst, e1.seqno) dests)
              else done (e1, dests))
      go true =
          on_done-Gives (λ _. Unit {0}) (IsLeft e.dst) _ (report (e1.dst, e1.seqno) dests)
            (report-Gives _ dests)
            λ ds _. (
              record {
                counted = good.counted;
                disjoint = good.disjoint;
                live = good.live;
                few = good.few;
              },
              same,
            )
      go false = (good, same)

  lose_path-Gives :
      (saddr seqno : ℕ) (e : Entry D) (dests : List (ℕ × ℕ))
      → IsGood e
      → Gives (IsLeft e.dst) (lose_path env saddr seqno e dests)
  unfolding lose_path
  lose_path-Gives saddr seqno e dests g =
      elim (Bool-cases (is_up e.flags && is_some (path_lookup e saddr) && leb e.seqno seqno)) [
        | inr kept ↦ rw kept (g, refl)
        | inl lost ↦ rw lost (deleted _)
      ]
    where
      e1 : Entry D
      e1 = path_delete saddr e

      e2 : Entry D
      e2 = record e1 { highest_seqno_heard = max_seqno e1.highest_seqno_heard seqno }

      counted : IsCounted e2
      counted = path_delete-IsCounted saddr e g.counted

      disjoint : IsDisjoint e2.paths
      disjoint = path_delete-IsDisjoint saddr e g.disjoint

      few : length e2.paths ≤ 3
      few = path_delete-few saddr e g.few

      same : e2.dst ≡ e.dst
      same = path_delete-same saddr e

      emptied :
          (b : Bool)
          → (length e2.paths == 0) ≡ b
          → Gives (IsLeft e.dst) (if b then lose_last env e2 dests else done (e2, dests))
      emptied true q =
          weaken-Gives (IsLeft e2.dst) (IsLeft e.dst) (lose_last env e2 dests)
            (lose_last-Gives e2 dests counted disjoint few) λ r h. (h.0, h.1 ∙ same)
      emptied false q = (
        record { counted = counted; disjoint = disjoint; live = λ _. ground arith; few = few },
        same,
      )

      deleted :
          (b : Bool)
          → Gives (IsLeft e.dst) (
              and_then (asserting b e1) λ e1.
                let e2 : Entry D = record e1 {
                  highest_seqno_heard = max_seqno e1.highest_seqno_heard seqno;
                } in
                and_then
                  (path_empty e2)
                  λ empty. if empty then lose_last env e2 dests else done (e2, dests))
      deleted true = rw (path_empty_lem e2 counted) (emptied _ refl)
      deleted false = λ e. cc

  lose_at-Gives :
      (saddr dst seqno : ℕ) (table : List (Entry D)) (dests : List (ℕ × ℕ))
      (nbs : List (Neighbor D)) (m : ℕ)
      → IsStored table nbs m
      → Gives (IsLeftTable nbs m) (lose_at env saddr dst seqno table dests)
  unfolding lose_at rt_lookup
  lose_at-Gives saddr dst seqno table dests nbs m g =
      elim (Option-cases (find (has_dst dst) table)) [
        | inl h ↦ rw (h, lose_at, Gives) g
        | inr (e, h) ↦
            rw (h, lose_at, Gives)
              (on_done-Gives (IsLeft e.dst) (IsLeftTable nbs m) _
                (lose_path env saddr seqno e dests)
                (lose_path-Gives saddr seqno e dests
                  (All-find IsGood (has_dst dst) table e g.entries h))
                λ r k.
                  IsStored-found dst _ table nbs m (λ x q gx. k.0)
                    (λ x q. k.1 ∙ find-key key dst table e h) g)
      ]

  -- `recvError`'s loop over the unreachable destinations keeps what is stored good, unless an assertion
  -- or the room of the packet stops it.
  lose_routes-Gives :
      (saddr : ℕ) (lost : List (ℕ × ℕ)) (table : List (Entry D)) (dests : List (ℕ × ℕ))
      (nbs : List (Neighbor D)) (m : ℕ)
      → IsStored table nbs m
      → Gives (IsLeftTable nbs m) (lose_routes env saddr lost table dests)
  unfolding lose_routes
  lose_routes-Gives saddr [] table dests nbs m g = g
  lose_routes-Gives saddr ((dst, seqno) ∷ more) table dests nbs m g =
      and_then-Gives (IsLeftTable nbs m) (IsLeftTable nbs m)
        (lose_at env saddr dst seqno table dests) _
        (lose_at-Gives saddr dst seqno table dests nbs m g)
        λ r k. lose_routes-Gives saddr more r.0 r.1 nbs m k

module _ {D : Type 0} ⦃fl : Double D⦄ (env : Env D) (q : Queue D) where
  pub send_error-Post :
      (dests : List (ℕ × ℕ)) (jitter : Bool) (s : Agent D)
      → Keeps q s
      → Post (λ _. Keeps q) (send_error env dests jitter s)
  unfolding send_error
  send_error-Post dests true s k = returns (record { good = k.good; same = k.same })
  send_error-Post dests false s k = returns (record { good = k.good; same = k.same })

  -- The error packet goes out, or the packet that was not needed is freed.
  tell-Post :
      (b jitter : Bool) (dests : List (ℕ × ℕ)) (s : Agent D)
      → Keeps q s
      → Post
          (λ _ s'. Keeps q s' × (s'.rtable ≡ s.rtable))
          ((if b then send_error env dests jitter else emit (freed env.blank)) s)
  unfolding send_error
  tell-Post true true dests s k = returns (record { good = k.good; same = k.same }, refl)
  tell-Post true false dests s k = returns (record { good = k.good; same = k.same }, refl)
  tell-Post false jitter dests s k = returns (record { good = k.good; same = k.same }, refl)

  -- `handle_link_failure` keeps what is stored good and does not touch the queue, and when it returns,
  -- no entry that is up has a path over the failed neighbour.
  pub handle_link_failure-Post :
      (id : ℕ) (s : Agent D)
      → Keeps q s
      → Post (λ _ s'. Keeps q s' × All (Avoids id) s'.rtable) (handle_link_failure env id s)
  unfolding handle_link_failure
  handle_link_failure-Post id s k =
      then-Post (lift (fail_links env id s.rtable [])) _ s
        (lift-Post (λ r. All (λ e. IsGood e × Avoids id e) r.0 × SameKeys key s.rtable r.0) _ s
          (fail_links-IsSafe env id s.rtable [] k.good.entries))
        λ r s1 h.
          weaken-Post
            (λ _ s2 k2. (k2.0, subst (All (Avoids id)) (sym k2.1) (All-map (λ e x. x.1) r.0 h.1.0)))
            (tell-Post _ false r.1 (record s { rtable = r.0 })
              (record {
                good = record {
                  entries = All-map (λ e x. x.0) r.0 h.1.0;
                  unique = SameKeys-IsDistinct key s.rtable r.0 h.1.1 k.good.unique;
                  sound = k.good.sound;
                  once = k.good.once;
                  limit = k.good.limit;
                };
                same = k.same;
              }))

  -- `recvError` keeps what is stored good and does not touch the queue.
  pub recv_error-Post :
      (p : Packet D) (lost : List (ℕ × ℕ)) (s : Agent D)
      → Keeps q s
      → Post (λ _. Keeps q) (recv_error env p lost s)
  unfolding recv_error
  recv_error-Post p lost s k =
      then-Post (lift (lose_routes env p.saddr lost s.rtable [])) _ s
        (lift-Post (IsLeftTable s.nbhead s.max_paths) _ s
          (lose_routes-Gives env p.saddr lost s.rtable [] s.nbhead s.max_paths k.good))
        λ r s1 h.
          let k1 : Keeps q s1 = subst (Keeps q) (sym h.0) k in
          then-Post (if ltb 0 (length r.1) then send_error env r.1 true else emit (freed env.blank))
            _ (record s { rtable = r.0 })
            (tell-Post _ true r.1 _ (record { good = h.1; same = k.same }))
            λ _ s2 k2. returns (record { good = k2.0.good; same = k2.0.same })
