-- ===== src/Tests/Gate.antt =====
-- The theorems on the check of trust.
use ns2_te_aomdv.Base.{ℕ, refl, some, [], ◌∷◌, fixed_double}
use ns2_te_aomdv.Entry.{Entry, RoutePath}
use ns2_te_aomdv.Entry.Choice.{path_find}
use ns2_te_aomdv.Table.{rt_lookup}
use ns2_te_aomdv.Queue.{no_route}
use ns2_te_aomdv.Neighbor.{Neighbor}
use ns2_te_aomdv.Agent.State.{Agent, nb_lookup, scheduled, dropped}
use ns2_te_aomdv.Agent.Forward.{forward}
use ns2_te_aomdv.Agent.Gate.{Routed, Ends, onward, forward_trusted}
use ns2_te_aomdv.Agent.Gate.Distrust.{report_of, listed, told, forward_distrusted}
use ns2_te_aomdv.Tests.Data.{packet, test_env, path, two_paths, neighbor_2, node_1}

abbrev first_path : RoutePath ℕ
first_path = path 2 7 2 5_000

-- The neighbour, not trusted any more.
abbrev doubted : Neighbor ℕ
doubted = record neighbor_2 { tv = 5_000 }

abbrev doubtful : Agent ℕ
doubtful = record node_1 { nbhead = doubted ∷ [] }

node_1-Routed : Routed test_env 9 (packet 20 0) first_path neighbor_2 two_paths node_1
unfolding rt_lookup nb_lookup path_find
node_1-Routed = record {
  entry_found = refl;
  up = refl;
  path_found = refl;
  neighbor_found = refl;
  is_data = refl;
  lives = refl;
  unicast = refl;
  elsewhere = refl;
}

doubtful-Routed : Routed test_env 9 (packet 20 0) first_path doubted two_paths doubtful
unfolding rt_lookup nb_lookup path_find
doubtful-Routed = record {
  entry_found = refl;
  up = refl;
  path_found = refl;
  neighbor_found = refl;
  is_data = refl;
  lives = refl;
  unicast = refl;
  elsewhere = refl;
}

forward_trusted_example :
    Ends
      (scheduled (onward test_env (packet 20 0) first_path node_1) 0 ∷ [])
      (forward test_env (some 9) (packet 20 0) 0 node_1)
forward_trusted_example =
    forward_trusted test_env 9 (packet 20 0) 0 first_path neighbor_2 two_paths node_1 node_1-Routed
      refl

forward_distrusted_example :
    Ends
      (dropped (onward test_env (packet 20 0) first_path doubtful) no_route
        ∷ told test_env
            (report_of test_env two_paths first_path)
            1
            (listed test_env 1 two_paths.pclist)
            [])
      (forward test_env (some 9) (packet 20 0) 0 doubtful)
forward_distrusted_example =
    forward_distrusted test_env 9 (packet 20 0) 0 first_path doubted two_paths doubtful
      doubtful-Routed refl refl

-- The route has but one path, and two packets that have not timed out wait for it.
abbrev one_path : Entry ℕ
one_path = record two_paths { paths = first_path ∷ []; num_paths = 1 }

abbrev hopeful : Agent ℕ
hopeful = record doubtful { rtable = one_path ∷ [] }
