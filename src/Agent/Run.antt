-- ===== src/Agent/Run.antt =====
-- A run of an agent: the scheduler calls `recv`, `tap`, the handlers of the timers, and `rt_ll_failed`
-- for a packet that the link layer could not send, one event after the other, each at its own time and
-- with what the simulator provides then.
use ns2_te_aomdv.Base.{ℕ, ◌≡◌, Double, done}
use ns2_te_aomdv.Packet.{Packet}
use ns2_te_aomdv.Agent.State.{M, Env, Agent, new_agent}
use ns2_te_aomdv.Agent.Receive.{recv}
use ns2_te_aomdv.Agent.Trust.{tap}
use ns2_te_aomdv.Agent.Repair.{rt_ll_failed}
use ns2_te_aomdv.Agent.Timers.{
  start, broadcast_timer, hello_timer, neighbor_timer, route_cache_timer, probe_timer, trust_timer,
  local_repair_timer,
}

pub data Event (D : Type 0) : Type 0 where
  started : Event D
  received : Packet D → Event D
  overheard : Packet D → Event D
  broadcast_expired hello_expired neighbor_expired cache_expired probe_expired trust_expired :
      Event D
  repair_expired link_failed : Packet D → Event D

module _ {D : Type 0} ⦃fl : Double D⦄ where
  unfoldable pub handle : Env D → Event D → M D (Unit {0})
  handle env started = start env
  handle env (received p) = recv env p
  handle env (overheard p) = tap p
  handle env broadcast_expired = broadcast_timer env
  handle env hello_expired = hello_timer env
  handle env neighbor_expired = neighbor_timer env
  handle env cache_expired = route_cache_timer env
  handle env probe_expired = probe_timer env
  handle env trust_expired = trust_timer env
  handle env (repair_expired p) = local_repair_timer env p
  handle env (link_failed p) = rt_ll_failed p

  -- The states that the agent `id` comes to.
  pub data Reaches (id : ℕ) : Agent D → Type 0 where
    fresh : Reaches id (new_agent id)
    next :
        {s s' : Agent D} (env : Env D) (ev : Event D)
        → Reaches id s
        → handle env ev s ≡ done (tt, s')
        → Reaches id s'
