-- ===== src/Agent/Budget/Timers.antt =====
-- The handlers of the timers and the reports of the link layer pass on no request.
use ns2_te_aomdv.Agent.Budget.Forward.{forward_free-Frugal}
use ns2_te_aomdv.Base.{
  ◌∙◌, ℕ, ◌+◌, ◌≡◌, refl, Bool, true, false, Option, none, some, List, [], ◌∷◌, map, All, not,
  if◌then◌else◌, Double, ◌⊕◌, ◌⊗◌, ◌≼◌,
}
use ns2_te_aomdv.Packet.{Packet, u32}
use ns2_te_aomdv.Entry.{Entry, is_up}
use ns2_te_aomdv.Table.{rt_lookup, rt_has_active_route}
use ns2_te_aomdv.Queue.{hello_loss}
use ns2_te_aomdv.Neighbor.{Neighbor}
use ns2_te_aomdv.Agent.State.{Env, Agent, set_entry, nb_lookup, emit, dropped}
use ns2_te_aomdv.Agent.Routes.{rt_down, is_even}
use ns2_te_aomdv.Agent.Forward.{forward, no_delay}
use ns2_te_aomdv.Agent.Send.{send_hello}
use ns2_te_aomdv.Agent.Timers.{
  start, broadcast_timer, hello_timer, neighbor_timer, route_cache_timer, probe_timer,
  local_repair_timer, repair_failed, nb_purge, purge_nbs, purge_nb, nb_delete, salvage, salvage_all,
  can_salvage,
}
use ns2_te_aomdv.Agent.Budget.{
  Watch, Within, Frugal, then-Stays, done-Frugal, if-Stays, when-Frugal, assert-Frugal, emit-Frugal,
}
use ns2_te_aomdv.Agent.Budget.Forward.{send_hello-Frugal, send_prob-Frugal}
use ns2_te_aomdv.Agent.Budget.Resolve.{rt_purge-Frugal}
use ns2_te_aomdv.Agent.Budget.Reception.{handle_link_failure-Frugal}

module _ {D : Type 0} (env : Env D) (w : Watch D) where
  -- A packet that costs nothing when it is salvaged: data that are not watched, or another packet the
  -- loss of which does not count.
  abbrev pub IsFree : Packet D → Type 0
  IsFree q =
      (env.is_data q.ptype ≡ true → w.carries q ≡ false)
      × (env.is_data q.ptype ≡ false → w.counts (dropped q hello_loss) ≡ false)

  abbrev pub IsClean : Type 0
  IsClean = (a : ℕ) → All IsFree (env.ifq_filter a)

module _ {D : Type 0} ⦃fl : Double D⦄ (env : Env D) (w : Watch D) (b : ℕ) where
  pub hello_timer-Frugal : (s : Agent D) → Within w b s → Frugal w b (hello_timer env s)
  unfolding hello_timer
  hello_timer-Frugal s v =
      then-Stays
        (when-Frugal (rt_has_active_route s.rtable) (send_hello env) s v
          (send_hello-Frugal env w b s v))
        λ _ s1 v1 _.
          then-Stays
            (assert-Frugal (fl.lit 0 1 ≼ (fl.lit 2 1 ⊕ fl.lit 1 10 ⊗ env.uniform s1.draws)) _ v1)
            λ _ s2 v2 _. emit-Frugal v2 (w.timed _ _)

  salvage-Frugal :
      (p : Packet D) (s : Agent D) → IsFree env w p → Within w b s → Frugal w b (salvage env p s)
  unfolding salvage
  salvage-Frugal p s h v = go (env.is_data p.ptype) h.0 h.1
    where
      go :
          (c : Bool)
          → (c ≡ true → w.carries p ≡ false)
          → (c ≡ false → w.counts (dropped p hello_loss) ≡ false)
          → Frugal w b (
              (if not c
                  then emit (dropped p hello_loss)
                  else if can_salvage env p (rt_lookup s.rtable p.daddr)
                  then forward env
                      (some p.daddr)
                      (record p { salvage_count = p.salvage_count + 1 })
                      no_delay
                  else emit (dropped p hello_loss))
                s)
      go false k n = emit-Frugal v (n refl)
      go true k n =
          if-Stays (can_salvage env p (rt_lookup s.rtable p.daddr)) _ _ s
            (forward_free-Frugal env w b _ _ _ s v (w.same _ p refl refl refl ∙ k refl))
            (emit-Frugal v (w.lost p _ (k refl)))

  salvage_all-Frugal :
      (ps : List (Packet D)) (s : Agent D)
      → All (IsFree env w) ps
      → Within w b s
      → Frugal w b (salvage_all env ps s)
  unfolding salvage_all
  salvage_all-Frugal [] s h v = done-Frugal v
  salvage_all-Frugal (p ∷ ps) s h v =
      then-Stays (salvage-Frugal p s h.0 v) λ _ s1 v1 _. salvage_all-Frugal ps s1 h.1 v1

  nb_delete-Frugal :
      (a : ℕ) (s : Agent D) → IsClean env w → Within w b s → Frugal w b (nb_delete env a s)
  unfolding nb_delete
  nb_delete-Frugal a s h v =
      then-Stays (assert-Frugal (is_even (u32 (s.seqno + 2))) _ v) λ _ s1 v1 _.
        then-Stays (handle_link_failure-Frugal env w b a _ v1)
          λ _ s2 v2 _. salvage_all-Frugal (env.ifq_filter a) s2 (h a) v2

  purge_nb-Frugal :
      (a : ℕ) (o : Option (Neighbor D)) (s : Agent D)
      → IsClean env w
      → Within w b s
      → Frugal w b (purge_nb env a o s)
  unfolding purge_nb
  purge_nb-Frugal a none s h v = done-Frugal v
  purge_nb-Frugal a (some nb) s h v =
      when-Frugal (nb.expire ≼ env.now) (nb_delete env a) s v (nb_delete-Frugal a s h v)

  purge_nbs-Frugal :
      (ids : List ℕ) (s : Agent D) → IsClean env w → Within w b s → Frugal w b (purge_nbs env ids s)
  unfolding purge_nbs
  purge_nbs-Frugal [] s h v = done-Frugal v
  purge_nbs-Frugal (a ∷ ids) s h v =
      then-Stays (purge_nb-Frugal a (nb_lookup a s) s h v) λ _ s1 v1 _. purge_nbs-Frugal ids s1 h v1

  pub neighbor_timer-Frugal :
      (s : Agent D) → IsClean env w → Within w b s → Frugal w b (neighbor_timer env s)
  unfolding neighbor_timer nb_purge
  neighbor_timer-Frugal s h v =
      then-Stays (purge_nbs-Frugal (map (λ nb. nb.addr) s.nbhead) s h v)
        λ _ s1 v1 _. emit-Frugal v1 (w.timed _ _)

  pub route_cache_timer-Frugal : (s : Agent D) → Within w b s → Frugal w b (route_cache_timer env s)
  unfolding route_cache_timer
  route_cache_timer-Frugal s v =
      then-Stays (rt_purge-Frugal env w b s v) λ _ s1 v1 _. emit-Frugal v1 (w.timed _ _)

  pub probe_timer-Frugal : (s : Agent D) → Within w b s → Frugal w b (probe_timer env s)
  unfolding probe_timer
  probe_timer-Frugal s v =
      then-Stays (send_prob-Frugal env w b s v) λ _ s1 v1 _. emit-Frugal v1 (w.timed _ _)

  pub local_repair_timer-Frugal :
      (p : Packet D) (s : Agent D) → Within w b s → Frugal w b (local_repair_timer env p s)
  unfolding local_repair_timer repair_failed
  local_repair_timer-Frugal p s v =
      then-Stays (go (rt_lookup s.rtable p.daddr)) λ _ s1 v1 _. emit-Frugal v1 (w.released _)
    where
      go : (o : Option (Entry D)) → Frugal w b (repair_failed env p.daddr o s)
      go none = done-Frugal v
      go (some e) =
          when-Frugal (not (is_up e.flags)) (set_entry p.daddr (rt_down env)) s v (done-Frugal v)

  pub start-Frugal :
      (s : Agent D)
      → Frugal w b (broadcast_timer env s)
      → IsClean env w
      → Within w b s
      → Frugal w b (start env s)
  unfolding start
  start-Frugal s r h v = then-Stays r λ _ s1 v1 _.
      then-Stays (hello_timer-Frugal s1 v1) λ _ s2 v2 _.
        then-Stays (neighbor_timer-Frugal s2 h v2) λ _ s3 v3 _.
          then-Stays (emit-Frugal v3 (w.timed _ _)) λ _ s4 v4 _.
            then-Stays (probe_timer-Frugal s4 v4) λ _ s5 v5 _. route_cache_timer-Frugal s5 v5
