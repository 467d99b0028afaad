-- ===== src/Tests/Handlers.antt =====
-- The theorems on the agent's methods.
use ns2_te_aomdv.Agent.Seqno.{reply_seqno_lem}
use ns2_te_aomdv.Agent.Routes.{is_even}
use ns2_te_aomdv.Agent.RecvRequest.Answer.{reply_seqno}
use ns2_te_aomdv.Base.{◌≡◌, true, ◌^◌, ◌<◌, ◌≤◌, refl, none, some, All, arith, fixed_double, done}
use ns2_te_aomdv.Agent.Forward.{forward}
use ns2_te_aomdv.Agent.Resolve.{rt_purge}
use ns2_te_aomdv.Agent.RecvRequest.{learn_reverse}
use ns2_te_aomdv.Agent.RecvReply.{learn_forward}
use ns2_te_aomdv.Agent.Receive.{recv}
use ns2_te_aomdv.Agent.Routes.{handle_link_failure}
use ns2_te_aomdv.Agent.Invariant.{HasStored, IsGood, IsValid, Keeps, Post, Gives}
use ns2_te_aomdv.Agent.Invariant.Reception.{recv-Post}
use ns2_te_aomdv.Agent.Invariant.Forward.{forward-Post}
use ns2_te_aomdv.Agent.Invariant.Failure.{Avoids}
use ns2_te_aomdv.Agent.Invariant.RouteError.{handle_link_failure-Post}
use ns2_te_aomdv.Agent.Invariant.Learn.{learn_reverse-IsGood, learn_forward-IsGood}
use ns2_te_aomdv.Agent.Invariant.Waiting.Dropped.{all_dropped, drop_all_waiting_lem}
use ns2_te_aomdv.Agent.Request.{drop_all_waiting}
use ns2_te_aomdv.Queue.{no_route}
use ns2_te_aomdv.Agent.Invariant.Expiry.{rt_purge-Post}
use ns2_te_aomdv.Agent.Trust.{set_trust}
use ns2_te_aomdv.Agent.Trust.Batches.{Recommends, set_trust-Recommends}
use ns2_te_aomdv.Tests.Data.{
  packet, request, reply, request_packet_from_4, test_env, two_paths, three_packets, node_1,
}

two_paths-IsGood : IsGood two_paths
two_paths-IsGood = record {
  counted = refl;
  disjoint = ((((λ e. omega arith), (λ e. omega arith)), tt), (tt, tt));
  live = λ _. omega arith;
  few = omega arith;
}

node_1-HasStored : HasStored node_1
node_1-HasStored = record {
  entries = (two_paths-IsGood, tt);
  unique = (tt, tt);
  sound = (omega arith, tt);
  once = (tt, tt);
  limit = refl;
}

node_1-IsValid : IsValid node_1
node_1-IsValid = record {
  good = node_1-HasStored;
  bounded = record { counted = refl; within = omega arith; positive = omega arith };
}

node_1-Keeps : Keeps three_packets node_1
node_1-Keeps = record { good = node_1-HasStored; same = refl }

recv_example : Post (λ _. IsValid) (recv test_env request_packet_from_4 node_1)
recv_example = recv-Post test_env request_packet_from_4 node_1 node_1-IsValid

forward_example : Post (λ _. Keeps three_packets) (forward test_env (some 9) (packet 20 0) 0 node_1)
forward_example = forward-Post test_env three_packets (some 9) (packet 20 0) 0 node_1 node_1-Keeps

handle_link_failure_example :
    Post
      (λ _ s'. Keeps three_packets s' × All (Avoids 2) s'.rtable)
      (handle_link_failure test_env 2 node_1)
handle_link_failure_example = handle_link_failure-Post test_env three_packets 2 node_1 node_1-Keeps

learn_reverse_example :
    Gives
      (λ r. IsGood r.1 × (r.1.dst ≡ 9))
      (learn_reverse test_env 1 3 1 request_packet_from_4 request two_paths)
learn_reverse_example =
    learn_reverse-IsGood test_env 1 3 1 request_packet_from_4 request two_paths two_paths-IsGood
      (omega arith)

learn_forward_example :
    Gives (λ r. IsGood r.1 × (r.1.dst ≡ 9)) (learn_forward test_env 3 1 none reply two_paths)
learn_forward_example =
    learn_forward-IsGood test_env 3 1 none reply two_paths two_paths-IsGood (omega arith)

rt_purge_example : Post (λ _. IsValid) (rt_purge test_env node_1)
rt_purge_example = rt_purge-Post test_env node_1 node_1-IsValid

reply_seqno_example :
    let r = reply_seqno test_env 2 5 in (is_even r ≡ true) × (2 ≤ r) × (5 < r) × (r < 2 ^ 32)
reply_seqno_example = reply_seqno_lem test_env 2 5 (omega arith) (omega arith)

set_trust-Recommends_example : Recommends test_env node_1 (set_trust test_env node_1)
set_trust-Recommends_example = set_trust-Recommends test_env node_1

drop_all_waiting_example :
    drop_all_waiting test_env 9 no_route node_1 ≡ done (tt, all_dropped test_env 9 no_route node_1)
drop_all_waiting_example = drop_all_waiting_lem test_env 9 no_route node_1 refl
