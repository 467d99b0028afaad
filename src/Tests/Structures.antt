-- ===== src/Tests/Structures.antt =====
-- The theorems on the entry, the table, the queue, the neighbour and the broadcast ids.
use ns2_te_aomdv.Base.{
  ℕ, ◌+◌, ◌≡◌, refl, ◌↔◌, ◌≤◌, true, false, none, some, List, [], ◌∷◌, length, keep, All, arith,
  done, fixed_double,
}
use ns2_te_aomdv.Entry.{Entry, new_entry, path_purge, new_disjoint_path, path_insert}
use ns2_te_aomdv.Entry.Disjoint.{IsApart, IsDisjoint, new_disjoint_path_iff, path_insert-IsDisjoint}
use ns2_te_aomdv.Entry.Purge.{path_purge_lem}
use ns2_te_aomdv.Table.{rt_lookup, rt_add}
use ns2_te_aomdv.Table.Unique.{IsUnique, rt_add_lem}
use ns2_te_aomdv.Queue.{purge, enque, deque, deque_head, qfull}
use ns2_te_aomdv.Queue.Purge.{purge_lem}
use ns2_te_aomdv.Queue.Laws.{enqueued, enque_lem, deque_lem, deque_head_lem}
use ns2_te_aomdv.Neighbor.{set_direct_trust, tv_init}
use ns2_te_aomdv.Neighbor.Rating.{set_tv, count_data, count_control, mark}
use ns2_te_aomdv.Neighbor.Evidence.{
  IsSound, is_heard, is_pending, set_direct_trust_lem, neighbor-IsSound,
}
use ns2_te_aomdv.Tests.Data.{packet, path, two_paths, three_packets, neighbor_2}

-- One of the two paths has expired.
path_purge_example :
    path_purge 10_000 two_paths
    ≡ done (record two_paths { paths = path 3 8 3 90_000 ∷ []; num_paths = 1 })
path_purge_example = path_purge_lem 10_000 two_paths refl

new_disjoint_path_example :
    (new_disjoint_path two_paths 4 6 ≡ true) ↔ All (IsApart 4 6) two_paths.paths
new_disjoint_path_example = new_disjoint_path_iff two_paths 4 6

disjoint : IsDisjoint two_paths.paths
disjoint = ((((λ e. omega arith), (λ e. omega arith)), tt), (tt, tt))

is_new : new_disjoint_path two_paths 4 6 ≡ true
unfolding new_disjoint_path
is_new = refl

path_insert_example : IsDisjoint (path_insert 10_000 two_paths 4 3 90_000 6 9_000 9_000).paths
path_insert_example =
    path_insert-IsDisjoint 10_000 two_paths 4 3 90_000 6 9_000 9_000 disjoint is_new

not_there : rt_lookup (two_paths ∷ []) 5 ≡ none
unfolding rt_lookup
not_there = refl

rt_add_example :
    (new : List (Entry ℕ)) × (rt_add 0 5 (two_paths ∷ []) ≡ done new)
    × IsUnique new
    × (rt_lookup new 5 ≡ some (record (new_entry 0) { dst = 5 }))
rt_add_example = rt_add_lem 0 5 5 (two_paths ∷ []) (tt, tt) not_there

-- The first packet is dropped without a report.
purge_example :
    purge 10_000 three_packets
    ≡ done (record three_packets { items = packet 11 50_000 ∷ packet 12 60_000 ∷ []; len = 2 })
purge_example = purge_lem 10_000 three_packets refl

-- At half a second no packet has timed out, and the queue is full.
enque_example :
    (enque 5_000 (packet 13 0) three_packets
      ≡ done (
        some (packet 10 9_000, qfull),
        record three_packets {
          items = packet 11 50_000 ∷ packet 12 60_000 ∷ packet 13 305_000 ∷ [];
          len = 3;
        },
      ))
    × ((enqueued 5_000 (packet 13 0) three_packets).1.len ≤ 3)
enque_example = enque_lem 5_000 (packet 13 0) three_packets refl (omega arith) (omega arith)

deque_example :
    deque 10_000 9 three_packets
    ≡ done
        (some (packet 11 50_000), record three_packets { items = packet 12 60_000 ∷ []; len = 1 })
deque_example = deque_lem 10_000 9 three_packets refl

deque_head_example :
    deque_head 5_000 three_packets
    ≡ done (
      some (packet 10 9_000),
      record three_packets { items = packet 11 50_000 ∷ packet 12 60_000 ∷ []; len = 2 },
    )
deque_head_example = deque_head_lem 5_000 three_packets refl

set_direct_trust_example :
    let nb' = set_direct_trust 100_000 neighbor_2 in
    (nb'.data_forward_corrects ≡ 3 + length (keep is_heard neighbor_2.cbr_f))
    × (nb'.data_forward_alls + length nb'.cbr_f ≡ 5 + length neighbor_2.cbr_f)
    × (nb'.cbr_f ≡ keep (is_pending 100_000) neighbor_2.cbr_f)
    × (nb'.control_forward_corrects ≡ 0 + length (keep is_heard neighbor_2.ptteaomdv_f))
    × (nb'.control_forward_alls + length nb'.ptteaomdv_f ≡ 1 + length neighbor_2.ptteaomdv_f)
    × (nb'.ptteaomdv_f ≡ keep (is_pending 100_000) neighbor_2.ptteaomdv_f)
set_direct_trust_example = set_direct_trust_lem 100_000 neighbor_2

sound : IsSound neighbor_2
sound = record {
  data_le = omega arith;
  control_le = omega arith;
  cbr_bound = omega arith;
  ptteaomdv_bound = omega arith;
}

neighbor_example :
    IsSound (tv_init 100_000 (set_tv 100_000 neighbor_2))
    × IsSound (count_data 100_000 7 false neighbor_2)
    × IsSound (count_control 100_000 7 false neighbor_2)
    × IsSound (record neighbor_2 { cbr_f = mark 7 neighbor_2.cbr_f })
    × IsSound (record neighbor_2 { ptteaomdv_f = mark 7 neighbor_2.ptteaomdv_f })
neighbor_example = neighbor-IsSound 100_000 7 false neighbor_2 sound
