-- ===== src/Tests/Linked.antt =====
-- The queue of three packets in memory, and the theorems on the linked queue.
use ns2_te_aomdv.Base.{ℕ, ◌≡◌, refl, none, [], ◌∷◌, arith, fixed_double}
use ns2_te_aomdv.Queue
use ns2_te_aomdv.Queue.Linked
use ns2_te_aomdv.Queue.Linked.{Cell, Heap, Store, write}
use ns2_te_aomdv.Queue.Linked.Chain.{Cells}
use ns2_te_aomdv.Queue.Linked.Refines.{
  Represents, represents, Agree, SamePacket, deque-Agree, deque_head-Agree, enque-Agree,
}
use ns2_te_aomdv.Tests.Data.{packet, three_packets}

abbrev cells : Cells ℕ
cells = (7, packet 10 9_000) ∷ (5, packet 11 50_000) ∷ (6, packet 12 60_000) ∷ []

-- The packet at 8 is not in the queue.
abbrev heap : Heap ℕ
heap =
    write 7 (record { packet = packet 10 9_000; next = 5 })
      (write 5 (record { packet = packet 11 50_000; next = 6 })
        (write 6 (record { packet = packet 12 60_000; next = 0 })
          (write 8 (record { packet = packet 13 0; next = 7 }) (λ _. none))))

abbrev linked_packets : Store ℕ
linked_packets = record { heap = heap; head = 7; tail = 6; len = 3; limit = 3; timeout = 300_000 }

stands : Represents linked_packets cells three_packets
stands =
    represents heap cells _ 3 300_000 (refl, refl, refl, (refl, refl, refl, (refl, refl, refl, tt)))
      refl

linked_deque_example :
    Agree SamePacket (Linked.deque 10_000 9 linked_packets) (Queue.deque 10_000 9 three_packets)
linked_deque_example = deque-Agree 10_000 9 linked_packets cells three_packets stands

linked_deque_head_example :
    Agree SamePacket
      (Linked.deque_head 10_000 linked_packets)
      (Queue.deque_head 10_000 three_packets)
linked_deque_head_example = deque_head-Agree 10_000 linked_packets cells three_packets stands

linked_enque_example :
    Agree
      (λ _ a b. a ≡ b)
      (Linked.enque 5_000 8 linked_packets)
      (Queue.enque 5_000 (packet 13 0) three_packets)
linked_enque_example =
    enque-Agree 5_000 8 (record { packet = packet 13 0; next = 7 }) linked_packets cells
      three_packets stands (omega arith) (omega arith) refl refl refl
