-- ===== src/Tests/Discovery.antt =====
-- The theorems on discoveries, and the report of distrust that stops the process.
use ns2_te_aomdv.Base.{
  ℕ, ◌≡◌, ◌<◌, refl, true, false, min_d, none, some, List, [], ◌∷◌, arith, crash, done,
  dangling_pointer, fixed_double,
}
use ns2_te_aomdv.Packet.{Packet, Request, Pta}
use ns2_te_aomdv.Entry.{Entry, new_entry, rtf_down, path_lookup}
use ns2_te_aomdv.Table.{rt_lookup}
use ns2_te_aomdv.Agent.State.{dropped, Agent, Env, nb_lookup}
use ns2_te_aomdv.Agent.Discovery.{Discovered, learn_forward-reply_own}
use ns2_te_aomdv.Agent.Discovery.Destination.{Answers, recv_request-Answers}
use ns2_te_aomdv.Agent.Discovery.Process.{known_or_new, prepared}
use ns2_te_aomdv.Agent.Discovery.Source.{Reached, recv_reply-Reached}
use ns2_te_aomdv.Agent.Ids.{id_get}
use ns2_te_aomdv.Agent.RecvRequest.Answer.{is_distrusted, serve_waiting}
use ns2_te_aomdv.Agent.Invariant.Waiting.Dropped.{left_over, serve_waiting_lost}
use ns2_te_aomdv.Agent.Resolve.{rt_resolve}
use ns2_te_aomdv.Agent.Resolve.Down.{complaint, queued, rt_resolve_own, rt_resolve_refused}
use ns2_te_aomdv.Queue.{no_route}
use ns2_te_aomdv.Agent.Pta.{recv_pta, is_meant}
use ns2_te_aomdv.Agent.Pta.Fault.{recv_pta-stops}
use ns2_te_aomdv.Agent.Request.{requested, next_ttl, per_hop_time, latencies, send_request}
use ns2_te_aomdv.Agent.Request.Ring.{GivesUp, IsPatient, send_request-GivesUp}
use ns2_te_aomdv.Agent.Request.Branches.{after_request, send_request_lem}
use ns2_te_aomdv.Tests.Data.{packet, request, reply, test_env, two_paths, neighbor_2, node_1}

-- Node 2 no longer trusts its path to node 9, which ends over node 7.
abbrev distrusted : Pta
distrusted = record { unreachable_dst = 9; unreachable_lasthop = 7; unreachable_dst_seqno = 4 }

abbrev from_2 : Packet ℕ
from_2 = record (packet 78 0) { saddr = 2 }

two_paths_found : rt_lookup node_1.rtable 9 ≡ some two_paths
unfolding rt_lookup
two_paths_found = refl

two_paths_meant : is_meant test_env 2 distrusted two_paths ≡ true
unfolding is_meant path_lookup
two_paths_meant = refl

-- Node 6 is a precursor.
recv_pta_example : recv_pta test_env from_2 distrusted node_1 ≡ crash dangling_pointer
recv_pta_example =
    recv_pta-stops test_env from_2 distrusted two_paths node_1 two_paths_found refl two_paths_meant
      refl refl

neighbor_2_found : nb_lookup 2 node_1 ≡ some neighbor_2
unfolding nb_lookup
neighbor_2_found = refl

-- Node 9 asks for a number that it knows.
abbrev asks : Request ℕ
asks = record request { rq_dst_seqno = 4 }

discovery_example : Discovered test_env test_env from_2 asks 3 1 none two_paths node_1
discovery_example =
    learn_forward-reply_own test_env test_env from_2 asks 3 1 neighbor_2 none two_paths node_1
      neighbor_2_found (omega arith) (omega arith) (omega arith)

-- The route is lost, and the node asks every two seconds.
abbrev lost : Entry ℕ
lost = record two_paths { flags = rtf_down; paths = []; num_paths = 0 }

abbrev asking : Agent ℕ
asking = record node_1 { rtable = lost ∷ [] }

abbrev at : ℕ → Env ℕ
at now = record test_env { now = now }

abbrev times : List (Env ℕ)
times =
    at 20_000
    ∷ at 40_000
    ∷ at 60_000
    ∷ at 80_000
    ∷ at 100_000
    ∷ at 120_000
    ∷ at 140_000
    ∷ at 160_000
    ∷ []

lost_found : rt_lookup asking.rtable 9 ≡ some lost
unfolding rt_lookup
lost_found = refl

times-IsPatient : IsPatient times lost
unfolding requested next_ttl per_hop_time latencies
times-IsPatient = (refl, (refl, (refl, (refl, (refl, (refl, (refl, (refl, tt))))))))

send_request_GivesUp_example : GivesUp 9 times asking
send_request_GivesUp_example =
    send_request-GivesUp 9 times lost asking lost_found refl refl refl times-IsPatient refl

-- The packets that waited are lost.
serve_waiting_example :
    serve_waiting test_env 4 9 asking
    ≡ done (tt, record asking { rqueue = left_over test_env 9 asking.rqueue })
serve_waiting_example =
    serve_waiting_lost test_env 9 4 lost asking lost_found refl refl (omega arith)

-- A packet of node 1 itself, at twenty seconds.
abbrev own : Packet ℕ
own = packet 20 0

own_entry : known_or_new test_env 9 (rt_lookup asking.rtable 9) ≡ lost
unfolding rt_lookup
own_entry = refl

rt_resolve_example :
    rt_resolve (at 20_000) own asking
    ≡ done (
      tt,
      after_request
          (at 20_000)
          9
          lost
          (queued (at 20_000) (record own { callback = true }) (prepared (at 20_000) 9 asking)),
    )
rt_resolve_example =
    rt_resolve_own (at 20_000) own lost asking refl own_entry refl refl
      (record { counted = refl; within = omega arith; positive = omega arith })

-- A packet of node 4.
abbrev foreign : Packet ℕ
foreign = record (packet 20 0) { saddr = 4 }

rt_resolve_refused_example :
    rt_resolve test_env foreign asking
    ≡ done (
      tt,
      record (prepared test_env 9 asking) {
        effects =
            dropped (record foreign { callback = true }) no_route
            ∷ complaint test_env 9 lost.seqno asking
            ∷ [];
      },
    )
rt_resolve_refused_example = rt_resolve_refused test_env foreign lost asking refl own_entry refl

send_request_example :
    send_request (at 20_000) 9 asking ≡ done (tt, after_request (at 20_000) 9 lost asking)
send_request_example = send_request_lem (at 20_000) 9 lost asking lost_found refl refl refl

-- Node 1 knows no route to node 9, and nothing waits.
abbrev idle : Agent ℕ
idle = record node_1 {
  rtable = [];
  rqueue = record { items = []; len = 0; limit = 64; timeout = 30_000 };
}

idle_knows : nb_lookup 2 idle ≡ some neighbor_2
unfolding nb_lookup
idle_knows = refl

idle_trusts :
    is_distrusted test_env from_2 (record request { rpt = min_d request.rpt neighbor_2.tv }) ≡ false
unfolding is_distrusted
idle_trusts = refl

idle_forgot : id_get 9 3 idle ≡ none
unfolding id_get
idle_forgot = refl

idle_has_none : (known_or_new test_env 9 (rt_lookup idle.rtable 9)).seqno < 8
unfolding rt_lookup new_entry
idle_has_none = omega arith

recv_request_example : Answers test_env from_2 request neighbor_2 idle
recv_request_example =
    recv_request-Answers test_env from_2 request neighbor_2 idle idle_knows refl idle_trusts
      idle_forgot idle_has_none refl refl refl

-- Node 2 passes a reply of node 9 on.
abbrev reply_packet : Packet ℕ
reply_packet = record (packet 78 0) { prev_hop = 2; daddr = 1 }

idle_accepts : (known_or_new test_env 9 (rt_lookup idle.rtable 9)).seqno < 4
unfolding rt_lookup new_entry
idle_accepts = omega arith

recv_reply_example : Reached test_env reply_packet reply neighbor_2 idle
recv_reply_example =
    recv_reply-Reached test_env reply_packet reply neighbor_2 idle idle_knows refl refl idle_accepts
      refl refl refl
