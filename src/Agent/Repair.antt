-- ===== src/Agent/Repair.antt =====
-- teaomdv/teaomdv.cc: what the link layer reports, `rt_ll_failed`, and two routines that nothing in
-- this build calls, `local_rt_repair` and `forwardReply`.
use ns2_te_aomdv.Base.{ℕ, true, Option, none, some, ◌&&◌, not, ◌==◌, if◌then◌else◌, Double, ◌⊕◌}
use ns2_te_aomdv.Packet.{Packet, af_none, af_inet, dir_down, ip_broadcast}
use ns2_te_aomdv.Entry.{is_up, rtf_in_repair}
use ns2_te_aomdv.Queue.{ttl_expired, mac_callback}
use ns2_te_aomdv.Agent.State.{
  M, Env, pure, ◌>>=◌, ◌>>◌, get, assert, when, emit, dropped, repair_scheduled, entry, set_entry,
}
use ns2_te_aomdv.Agent.Forward.{transmit}
use ns2_te_aomdv.Agent.Request.{send_request}
use ns2_te_aomdv.Agent.Resolve.{buffer}

module _ {D : Type 0} where
  -- Without TEAOMDV_LINK_LAYER_DETECTION.
  unfoldable pub rt_ll_failed : Packet D → M D (Unit {0})
  rt_ll_failed p = emit (dropped p mac_callback)

module _ {D : Type 0} ⦃fl : Double D⦄ (env : Env D) where
  -- `p->copy()` comes after `enque` has stamped the packet. The delay is the time `rt_req_timeout`.
  unfoldable pub local_rt_repair : ℕ → Packet D → M D (Unit {0})
  local_rt_repair dst p = do
    s ← get
    buffer env p
    set_entry dst λ e. record e { flags = rtf_in_repair }
    send_request env dst
    e ← entry dst
    emit (repair_scheduled (record p { ts = env.now ⊕ s.rqueue.timeout }) e.req_timeout)

  -- The branches of `forwardReply` with a route and without one.
  unfoldable pub reply_on : Option ℕ → Packet D → M D (Packet D)
  reply_on none p = do
    assert (p.daddr == ip_broadcast)
    pure (record p { addr_type = af_none; direction = dir_down })
  reply_on (some dst) p = do
    e ← entry dst
    assert (is_up e.flags)
    s ← get
    when (not (p.saddr == s.index) && env.is_data p.ptype)
        (set_entry dst λ e. record e { error = true })
    pure (record p { addr_type = af_inet; direction = dir_down })

  -- The next hop of the packet stays as `recvReply` has set it.
  unfoldable pub forward_reply : Option ℕ → Packet D → D → M D (Unit {0})
  forward_reply rt p delay =
      if p.ttl == 0 then emit (dropped p ttl_expired) else (reply_on rt p >>= transmit env rt delay)
