-- ===== src/Agent/Timers.antt =====
-- teaomdv/teaomdv.cc: the loss of a neighbour, `nb_delete` and `nb_purge`, and the handlers of the
-- timers.
use ns2_te_aomdv.Base.{
  ℕ, ◌+◌, Bool, false, ◌&&◌, Option, none, some, List, [], ◌∷◌, map, remove_first, ltb,
  if◌then◌else◌, not, Double, ◌⊕◌, ◌⊖◌, ◌⊗◌, ◌≼◌,
}
use ns2_te_aomdv.Packet.{Packet, u32}
use ns2_te_aomdv.Entry.{Entry, is_up}
use ns2_te_aomdv.Table.{rt_lookup, rt_has_active_route}
use ns2_te_aomdv.Queue.{hello_loss}
use ns2_te_aomdv.Neighbor.{Neighbor, prob_t}
use ns2_te_aomdv.Agent.State.{
  M, Env, btimer, htimer, ntimer, rtimer, t_timer, prob_timer, ◌>>=◌, ◌>>◌, skip, get, put, modify,
  assert, when, emit, dropped, freed, resched, set_entry, nb_lookup, has_addr, draw,
}
use ns2_te_aomdv.Agent.Ids.{id_purge}
use ns2_te_aomdv.Agent.Send.{send_hello, send_prob}
use ns2_te_aomdv.Agent.Routes.{is_even, rt_down, handle_link_failure}
use ns2_te_aomdv.Agent.Forward.{forward, no_delay}
use ns2_te_aomdv.Agent.Resolve.{rt_purge}
use ns2_te_aomdv.Agent.Trust.{set_trust}

module _ {D : Type 0} ⦃fl : Double D⦄ (env : Env D) where
  -- TEAOMDV_MAX_SALVAGE_COUNT is 10.
  pub can_salvage : Packet D → Option (Entry D) → Bool
  can_salvage p none = false
  can_salvage p (some e) = is_up e.flags && ltb p.salvage_count 10

  -- A packet for the lost neighbour goes along another path, if it is data and there is one.
  unfoldable pub salvage : Packet D → M D (Unit {0})
  salvage p = do
    s ← get
    if not (env.is_data p.ptype)
        then emit (dropped p hello_loss)
        else if can_salvage p (rt_lookup s.rtable p.daddr)
        then forward env (some p.daddr) (record p { salvage_count = p.salvage_count + 1 }) no_delay
        else emit (dropped p hello_loss)

  unfoldable pub salvage_all : List (Packet D) → M D (Unit {0})
  salvage_all [] = skip
  salvage_all (p ∷ ps) = do salvage p; salvage_all ps

  unfoldable pub nb_delete : ℕ → M D (Unit {0})
  nb_delete id = do
    s ← get
    let seqno = u32 (s.seqno + 2)
    put (record s { seqno = seqno })
    assert (is_even seqno)
    modify λ s. record s { nbhead = remove_first (has_addr id) s.nbhead }
    handle_link_failure env id
    salvage_all (env.ifq_filter id)

  unfoldable pub purge_nb : ℕ → Option (Neighbor D) → M D (Unit {0})
  purge_nb id none = skip
  purge_nb id (some nb) = when (nb.expire ≼ env.now) (nb_delete id)

  unfoldable pub purge_nbs : List ℕ → M D (Unit {0})
  purge_nbs [] = skip
  purge_nbs (id ∷ ids) = do s ← get; purge_nb id (nb_lookup id s); purge_nbs ids

  -- The loop visits the neighbours that there are at its start: new ones stand before them.
  unfoldable pub nb_purge : M D (Unit {0})
  nb_purge = do s ← get; purge_nbs (map (λ nb. nb.addr) s.nbhead)

  unfoldable pub broadcast_timer : M D (Unit {0})
  broadcast_timer = do modify (id_purge env); emit (resched btimer (fl.lit 6 1))

  unfoldable pub hello_timer : M D (Unit {0})
  hello_timer = do
    s ← get
    when (rt_has_active_route s.rtable) (send_hello env)
    u ← draw env
    let interval = fl.lit 2 1 ⊕ fl.lit 1 10 ⊗ u
    assert (fl.lit 0 1 ≼ interval)
    emit (resched htimer interval)

  unfoldable pub neighbor_timer : M D (Unit {0})
  neighbor_timer = do nb_purge; emit (resched ntimer (fl.lit 2 1))

  unfoldable pub route_cache_timer : M D (Unit {0})
  route_cache_timer = do rt_purge env; emit (resched rtimer (fl.lit 5 10))

  unfoldable pub probe_timer : M D (Unit {0})
  probe_timer = do send_prob env; emit (resched prob_timer prob_t)

  -- TRUST_TIME is 2.1.
  unfoldable pub trust_timer : M D (Unit {0})
  trust_timer = do
    set_trust env
    u ← draw env
    let t = fl.lit 1 100 ⊗ u
    let x = env.to_int (fl.lit 100_000 1 ⊗ t)
    emit (resched t_timer (if is_even x then fl.lit 21 10 ⊖ t else fl.lit 21 10 ⊕ t))

  -- `TEAOMDVLocalRepairTimer::handle`, which no part of this build schedules.
  unfoldable pub repair_failed : ℕ → Option (Entry D) → M D (Unit {0})
  repair_failed dst none = skip
  repair_failed dst (some e) = when (not (is_up e.flags)) (set_entry dst (rt_down env))

  unfoldable pub local_repair_timer : Packet D → M D (Unit {0})
  local_repair_timer p = do
    s ← get
    repair_failed p.daddr (rt_lookup s.rtable p.daddr)
    emit (freed p)

  -- The command "start".
  unfoldable pub start : M D (Unit {0})
  start = do
    broadcast_timer
    hello_timer
    neighbor_timer
    emit (resched t_timer (fl.lit 21 10))
    probe_timer
    route_cache_timer
