-- ===== src/Agent/Resolve.antt =====
-- teaomdv/teaomdv.cc, "Route Handling Functions": `rt_resolve` for a data packet, and `rt_purge`, the
-- handler of the route cache timer.
pub mod Down
pub mod Fault
use ns2_te_aomdv.Base.{
  ℕ, suc, zero, ◌+◌, Bool, true, false, ◌&&◌, Option, none, some, List, [], ◌∷◌, length, is_some,
  map, ◌==◌, if◌then◌else◌, not, Double, ◌⊕◌, ◌≺◌, no_fuel,
}
use ns2_te_aomdv.Packet.{Packet, u32}
use ns2_te_aomdv.Entry.{
  Entry, Flags, rtf_in_repair, rtf_up, rtf_down, is_up, is_down, infinity2, path_purge, path_empty,
}
use ns2_te_aomdv.Table.{rt_lookup, rt_add}
use ns2_te_aomdv.Queue.{Reason, no_route, rtexpire, deque, enque, find_dst}
use ns2_te_aomdv.Agent.State.{
  M, Env, pure, ◌>>=◌, ◌>>◌, skip, fail, get, put, assert, when, lift, emit, dropped, entry,
  set_entry,
}
use ns2_te_aomdv.Agent.Send.{send_error}
use ns2_te_aomdv.Agent.Routes.{rt_down, is_even, max_seqno}
use ns2_te_aomdv.Agent.Forward.{forward, no_delay}
use ns2_te_aomdv.Agent.Request.{send_request, drop_all_waiting}

abbrev pub is_in_repair : Flags → Bool
is_in_repair rtf_in_repair = true
is_in_repair rtf_up = false
is_in_repair rtf_down = false

module _ {D : Type 0} ⦃fl : Double D⦄ (env : Env D) where
  -- `rt_lookup`, and `rt_add` if that finds nothing.
  unfoldable pub find_or_add : ℕ → M D (Unit {0})
  find_or_add dst = do
    s ← get
    if is_some (rt_lookup s.rtable dst) then skip else (do
      table ← lift (rt_add env.garbage_hops dst s.rtable)
      put (record s { rtable = table }))

  -- `rqueue.enque(p)`, with the report of the packet that it drops.
  abbrev pub report_drop : Option (Packet D × Reason) → M D (Unit {0})
  report_drop none = skip
  report_drop (some (p, why)) = emit (dropped p why)

  unfoldable pub buffer : Packet D → M D (Unit {0})
  buffer p = do
    s ← get
    r ← lift (enque env.now p s.rqueue)
    put (record s { rqueue = r.1 })
    report_drop r.0

  -- There is no route for somebody else's packet.
  unfoldable pub refuse : Packet D → Entry D → M D (Unit {0})
  refuse p e = do
    assert (is_down e.flags)
    send_error env ((e.dst, e.seqno) ∷ []) false
    emit (dropped p no_route)

  unfoldable pub rt_resolve : Packet D → M D (Unit {0})
  rt_resolve p0 = do
    let p = record p0 { callback = true }
    find_or_add p.daddr
    e ← entry p.daddr
    s ← get
    if is_up e.flags
        then (do assert (not (e.hops == infinity2)); forward env (some p.daddr) p no_delay)
        else if p.saddr == s.index
        then (do buffer p; send_request env e.dst)
        else if is_in_repair e.flags
        then buffer p
        else refuse p e

  -- `while ((p = rqueue.deque(dst))) { forward(rt, p, delay); delay += ARP_DELAY; }`, with the last
  -- delay.
  unfoldable pub forward_waiting : ℕ → ℕ → D → M D D
  forward_waiting zero dst delay = fail no_fuel
  forward_waiting (suc fuel) dst delay = do
    s ← get
    r ← lift (deque env.now dst s.rqueue)
    put (record s { rqueue = r.1 })
    elim r.0 [
      | none ↦ pure delay
      | some p ↦ (do
        forward env (some dst) p delay
        forward_waiting fuel dst (delay ⊕ fl.lit 1 100))
    ]

  -- The entry is expired: purge its paths, and bring it down, with an odd number, if none is left.
  unfoldable pub expire_entry : Entry D → M D (Unit {0})
  expire_entry e = do
    e1 ← lift (path_purge env.now e)
    set_entry e.dst (λ _. e1)
    empty ← lift (path_empty e1)
    when empty (do
      drop_all_waiting env e.dst rtexpire
      let seqno = max_seqno (u32 (e1.seqno + 1)) e1.highest_seqno_heard
      let odd = if is_even seqno then u32 (seqno + 1) else seqno
      set_entry e.dst (λ e. rt_down env (record e { seqno = odd })))

  -- The body of the loop of `rt_purge`. The delay goes on from one entry to the next.
  unfoldable pub purge_entry : ℕ → D → M D D
  purge_entry dst delay = do
    e ← entry dst
    s ← get
    if is_up e.flags && (e.expire ≺ env.now)
        then (do expire_entry e; pure delay)
        else if is_up e.flags
        then (do
          assert (not (e.hops == infinity2))
          forward_waiting (suc (length s.rqueue.items)) dst delay)
        else if find_dst dst s.rqueue
        then (do send_request env dst; pure delay)
        else pure delay

  unfoldable pub purge_entries : List ℕ → D → M D (Unit {0})
  purge_entries [] delay = skip
  purge_entries (dst ∷ dsts) delay = do delay' ← purge_entry dst delay; purge_entries dsts delay'

  -- The loop neither adds nor deletes an entry, so that it visits the entries that there are.
  unfoldable pub rt_purge : M D (Unit {0})
  rt_purge = do s ← get; purge_entries (map (λ e. e.dst) s.rtable) (fl.lit 0 1)
