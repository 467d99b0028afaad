-- ===== src/Tests/Runs.antt =====
-- Node 1 hears a request from two neighbours, one after the other.
use ns2_te_aomdv.Agent.Request.{emit_request, requested, send_request}
use ns2_te_aomdv.Agent.Forward.{forward, forward_broadcast, forward_on, transmit, transmit_some}
use ns2_te_aomdv.Entry.Choice.{
  max_hopcount_from, min_hopcount_from, path_find, path_get_max_hopcount, path_get_min_hopcount,
}
use ns2_te_aomdv.Queue.{deque, new_queue, purge, purge_rounds, enque}
use ns2_te_aomdv.Entry.{
  disjoint_path_lookup, new_disjoint_path, new_entry, path_delete_all, path_insert,
}
use ns2_te_aomdv.Agent.RecvRequest.{add_path, extend_reverse, learn_reverse, renew, update_reverse}
use ns2_te_aomdv.Table.{rt_add, rt_lookup}
use ns2_te_aomdv.Agent.Resolve.{buffer, find_or_add, rt_resolve}
use ns2_te_aomdv.Agent.RecvRequest.Answer.{
  answer, is_distrusted, process_request, propagate, recv_request, request_rpt, route_is_up,
  serve_waiting,
}
use ns2_te_aomdv.Agent.Receive.{dispatch, recv, recv_data, recv_teaomdv, route_packet}
use ns2_te_aomdv.Agent.Conserved.{packets_once, settles, is_packet}
use ns2_te_aomdv.Agent.Conserved
use ns2_te_aomdv.Base.{
  count, ℕ, All, ◌≢◌, arith, ◌+◌, ◌≤◌, ◌≡◌, refl, if◌then◌else◌, fixed_double, Outcome, done, crash,
  no_fuel,
}
use ns2_te_aomdv.Packet.{Packet, rreq}
use ns2_te_aomdv.Agent.State.{Agent, nb_lookup, new_agent}
use ns2_te_aomdv.Agent.Ids.{id_get, id_insert, id_lookup}
use ns2_te_aomdv.Agent.Run.{handle, received, fresh, next}
use ns2_te_aomdv.Agent.Flooding.{copies, IsPlain}
use ns2_te_aomdv.Agent.Flooding.Run.{IsRecent, Follows, here, on, requests_once}
use ns2_te_aomdv.Agent.Invariant.{IsValid}
use ns2_te_aomdv.Agent.Invariant.Run.{reaches_lem}
use ns2_te_aomdv.Tests.Data.{packet, request, request_packet_from_4, test_env}

-- Node 9 looks for node 8.
abbrev heard : ℕ → Packet ℕ
heard from = record request_packet_from_4 {
  prev_hop = from;
  saddr = from;
  header = rreq (record request { rq_dst = 8; rq_first_hop = from + 10 });
}

abbrev after : Outcome (Unit {0} × Agent ℕ) → Agent ℕ
after (done (a, s)) = s
after (crash e) = new_agent 0

abbrev first : Agent ℕ
first = after (handle test_env (received (heard 4)) (new_agent 1))

abbrev second : Agent ℕ
second = after (handle test_env (received (heard 5)) first)

-- The first copy is passed on, and remembered; the second is not passed on.
both_handled :
    (handle test_env (received (heard 4)) (new_agent 1) ≡ done (tt, first))
    × (handle test_env (received (heard 5)) first ≡ done (tt, second))
    × IsRecent test_env 9 3 first.bihead
    × (copies 9 3 first.effects ≡ 1)
    × (copies 9 3 second.effects ≡ 1)
unfolding handle recv recv_teaomdv dispatch recv_request new_agent is_distrusted request_rpt
    nb_lookup id_get process_request find_or_add rt_lookup id_insert rt_add learn_reverse new_entry
    route_is_up add_path path_insert renew path_delete_all serve_waiting deque purge purge_rounds
    new_queue answer propagate path_find forward forward_on forward_broadcast transmit_some transmit
    path_get_max_hopcount max_hopcount_from update_reverse disjoint_path_lookup new_disjoint_path
    extend_reverse path_get_min_hopcount min_hopcount_from
both_handled = (refl, refl, (λ _. refl, tt), refl, refl)

new_IsRecent : IsRecent test_env 9 3 (new_agent {D = ℕ} 1).bihead
unfolding new_agent
new_IsRecent = tt

new_waiting : All (IsPlain 9 3) (new_agent {D = ℕ} 1).rqueue.items
unfolding new_agent new_queue
new_waiting = tt

new_index : (new_agent {D = ℕ} 1).index ≢ 9
unfolding new_agent
new_index = λ e. omega arith

heard_twice : Follows 9 3 (new_agent 1) second
heard_twice =
    on test_env (received (heard 5))
      (on test_env (received (heard 4)) here (λ e. cc) (λ a. tt) new_IsRecent both_handled.0)
      (λ e. cc) (λ a. tt) both_handled.2 both_handled.1

requests_once_example :
    copies 9 3 second.effects
    ≤ copies 9 3 (new_agent {D = ℕ} 1).effects
      + (if id_lookup 9 3 (new_agent {D = ℕ} 1) then 0 else 1)
requests_once_example = requests_once 9 3 (new_agent 1) second new_index new_waiting heard_twice

reaches_example : IsValid first × (handle test_env (received (heard 5)) first ≢ crash no_fuel)
reaches_example =
    reaches_lem 1 first test_env (received (heard 5))
      (next test_env (received (heard 4)) fresh both_handled.0)

-- A packet of node 1 waits for a route.
abbrev kept : Agent ℕ
kept = after (handle test_env (received (packet 20 0)) (new_agent 1))

packet_kept : handle test_env (received (packet 20 0)) (new_agent 1) ≡ done (tt, kept)
unfolding handle enque recv recv_data new_agent route_packet rt_resolve find_or_add rt_lookup rt_add
    new_entry buffer purge purge_rounds new_queue send_request emit_request requested
packet_kept = refl

packets_once_example :
    count (settles 20) kept.effects + count (is_packet 20) kept.rqueue.items
    ≤ count (settles 20) (new_agent {D = ℕ} 1).effects
      + count (is_packet 20) (new_agent {D = ℕ} 1).rqueue.items
      + 1
packets_once_example =
    packets_once 20 1 (new_agent 1) kept
      (Conserved.on test_env (received (packet 20 0)) Conserved.here (λ a. tt) packet_kept)
