-- ===== src/Queue/Linked/Walk.antt =====
-- The walks along the links: what `find_packet` finds and `count_packets` counts on a chain.
use ns2_te_aomdv.Base.{ℕ, zero, suc, ◌+◌, ◌<◌, ◌≡◌, refl, Bool, [], ◌∷◌, length, arith, done}
use ns2_te_aomdv.Packet.{Packet}
use ns2_te_aomdv.Queue.Linked.{Heap, Store, find_packet, count_packets, verify_queue}
use ns2_te_aomdv.Queue.Linked.Chain.{Cells, Chain, first, last, hit, before, load_lem}

module _ {D : Type 0} where
  pub find_packet_lem :
      (test : Packet D → Bool) (fuel prev : ℕ) (h : Heap D) (xs : Cells D)
      → length xs < fuel
      → Chain h xs
      → find_packet test fuel (first xs) prev h ≡ done (hit test xs, before test prev xs)
  unfolding find_packet
  find_packet_lem test zero prev h xs l ch = elim l [ ]
  find_packet_lem test (suc fuel) prev h [] l ch = refl
  find_packet_lem test (suc fuel) prev h ((a, p) ∷ xs) l ch =
      ground (arith, load_lem h a _ ch.0 ch.1, find_packet_lem test fuel a h xs (omega arith) ch.3)

  pub count_packets_lem :
      (fuel prev cnt : ℕ) (h : Heap D) (xs : Cells D)
      → length xs < fuel
      → Chain h xs
      → count_packets fuel (first xs) prev cnt h ≡ done (cnt + length xs, last prev xs)
  unfolding count_packets
  count_packets_lem zero prev cnt h xs l ch = elim l [ ]
  count_packets_lem (suc fuel) prev cnt h [] l ch = ground arith
  count_packets_lem (suc fuel) prev cnt h ((a, p) ∷ xs) l ch =
      ground (
        arith,
        load_lem h a _ ch.0 ch.1,
        count_packets_lem fuel a (suc cnt) h xs (omega arith) ch.3,
      )

  -- A queue in memory: the cells from head to tail, as many as `len` says.
  abbrev pub store : Heap D → Cells D → ℕ → D → Store D
  store h xs limit timeout = record {
    heap = h;
    head = first xs;
    tail = last 0 xs;
    len = length xs;
    limit = limit;
    timeout = timeout;
  }

  pub verify_queue_lem :
      {A : Type 0} (h : Heap D) (xs : Cells D) (limit : ℕ) (timeout : D) (a : A)
      → Chain h xs
      → verify_queue (store h xs limit timeout) a ≡ done a
  unfolding verify_queue
  verify_queue_lem h xs limit timeout a ch =
      rw (count_packets_lem (suc (length xs)) 0 0 h xs (omega arith) ch) (ground arith)
