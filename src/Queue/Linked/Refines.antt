-- ===== src/Queue/Linked/Refines.antt =====
-- The operations on the linked queue do what those of `Queue` do on the list of its packets.
use ns2_te_aomdv.Base.{
  ℕ, suc, ◌<◌, ◌≤◌, ◌⊕◌, ◌++◌, ◌≡◌, refl, sym, ap, ◌∙◌, true, false, Option, none, some, List, [],
  ◌∷◌, length, any, keep, find-any, find-none, remove_first-none, arith, ◌==◌, Double, Outcome,
  done, and_then, Bool-cases, ==_refl, inl, inr,
}
use ns2_te_aomdv.Packet.{Packet}
use ns2_te_aomdv.Queue.{Queue, is_aged, is_for}
use ns2_te_aomdv.Queue
use ns2_te_aomdv.Queue.Purge.{is_fresh}
use ns2_te_aomdv.Queue.Laws.{deque_lem, deque_head_lem, enque_lem, room, front}
use ns2_te_aomdv.Queue.Linked
use ns2_te_aomdv.Queue.Linked.{
  write, Cell, Heap, Store, find_packet, assert_found, unlink, verify_queue,
}
use ns2_te_aomdv.Queue.Linked.Chain.{
  Cells, Chain, Chain-rest, Chain-write, packets-append, packet_at, packet_at-hit, first, rest,
  packets, has, hit, before, erase, packets-erase, hit-some, hit-none,
}
use ns2_te_aomdv.Queue.Linked.Walk.{store, find_packet_lem, verify_queue_lem}
use ns2_te_aomdv.Queue.Linked.Unlink.{unlink_lem, remove_head_lem}
use ns2_te_aomdv.Queue.Linked.Unlink.Found.{assert_found_lem}
use ns2_te_aomdv.Queue.Linked.Append.{
  append_lem, stamp_lem, drop_front_lem, kept, packets-kept, Chain-kept, has-kept,
}
use ns2_te_aomdv.Queue.Linked.Purge.{purge_lem}

module _ {D : Type 0} where
  abbrev pub listed : List (Packet D) → ℕ → D → Queue D
  listed ps limit timeout = record { items = ps; len = length ps; limit = limit; timeout = timeout }

  -- The queue in memory has the cells from head to tail, and stands for the list of their packets.
  pub data Represents : Store D → Cells D → Queue D → Type 0 where
    represents :
        (h : Heap D) (xs : Cells D) (ps : List (Packet D)) (limit : ℕ) (timeout : D)
        → Chain h xs
        → packets xs ≡ ps
        → Represents (store h xs limit timeout) xs (listed ps limit timeout)

  -- Both operations return: results that agree, and queues of which one stands for the other.
  pub data Agree {A B : Type 0} (R : Heap D → A → B → Type 0)
      : Outcome (A × Store D) → Outcome (B × Queue D) → Type 0 where
    agree :
        {a : A} {b : B} {q : Store D} {xs : Cells D} {r : Queue D}
        → Represents q xs r
        → R q.heap a b
        → Agree R (done (a, q)) (done (b, r))

  abbrev pub SamePacket : Heap D → ℕ → Option (Packet D) → Type 0
  SamePacket h p o = packet_at h p ≡ o

module _ {D : Type 0} ⦃fl : Double D⦄ (limit : ℕ) (timeout : D) (now : D) (dst : ℕ) where
  abbrev deque_result : Heap D → Cells D → ℕ × Store D
  deque_result h xs = (hit (is_for dst) xs, store h (erase (is_for dst) xs) limit timeout)

  deque-hit :
      (q : Store D) (h h' : Heap D) (xs : Cells D)
      → Linked.purge now q ≡ done (store h xs limit timeout)
      → Chain h xs
      → any (is_for dst) (packets xs) ≡ true
      → unlink (hit (is_for dst) xs) (before (is_for dst) 0 xs) (store h xs limit timeout)
        ≡ done (store h' (erase (is_for dst) xs) limit timeout)
      → Chain h' (erase (is_for dst) xs)
      → Linked.deque now dst q ≡ done (deque_result h' xs)
  unfolding Linked.deque
  deque-hit q h h' xs p ch m e ch' =
      rw (p, and_then)
        (rw (find_packet_lem (is_for dst) (suc (length xs)) 0 h xs (omega arith) ch, and_then)
          (rw (assert_found_lem (is_for dst) limit timeout h xs _ ch) (
            ground (
              arith,
              hit-some (is_for dst) h xs ch m,
              verify_queue_lem h' (erase (is_for dst) xs) limit timeout (deque_result h' xs) ch',
            ))))

  deque_miss :
      (q : Store D) (h : Heap D) (xs : Cells D)
      → Linked.purge now q ≡ done (store h xs limit timeout)
      → Chain h xs
      → any (is_for dst) (packets xs) ≡ false
      → Linked.deque now dst q ≡ done (0, store h xs limit timeout)
  unfolding Linked.deque
  deque_miss q h xs p ch m =
      rw (p, and_then)
        (rw (find_packet_lem (is_for dst) (suc (length xs)) 0 h xs (omega arith) ch, and_then)
          (rw (assert_found_lem (is_for dst) limit timeout h xs _ ch)
            (ground (arith, hit-none (is_for dst) h xs ch m))))

module _ {D : Type 0} ⦃fl : Double D⦄ where
  head-Agree :
      (h : Heap D) (xs : Cells D) (ws : List (Packet D)) (limit : ℕ) (timeout : D)
      → Chain h xs
      → packets xs ≡ ws
      → Agree SamePacket (done (first xs, store h (rest xs) limit timeout)) (
          done (elim ws as (λ _. Option (Packet D) × Queue D) [
            | [] ↦ (none, listed ws limit timeout)
            | p ∷ ps ↦ (some p, listed ps limit timeout)
          ]))
  head-Agree h [] [] limit timeout ch e = agree (represents h [] [] limit timeout tt refl) refl
  head-Agree h [] (p ∷ ws) limit timeout ch e = cc
  head-Agree h (x ∷ xs) [] limit timeout ch e = cc
  head-Agree h ((a, x) ∷ xs) (p ∷ ws) limit timeout ch e =
      agree (represents h xs ws limit timeout ch.3 cc) (ground arith)

  -- `deque()` on a queue in memory that stands for a list does what it does on the list: no
  -- assertion fails, no pointer is null or dangling, the loops end, the pointer that it returns is
  -- to the packet taken, and the queue that it leaves stands for the list that is left.
  pub deque_head-Agree :
      (now : D) (q : Store D) (xs : Cells D) (r : Queue D)
      → Represents q xs r
      → Agree SamePacket (Linked.deque_head now q) (Queue.deque_head now r)
  unfolding Linked.deque_head
  deque_head-Agree now q cells r (represents h xs ps limit timeout ch e) =
      let p = purge_lem limit timeout now h xs ch in
      let left : packets p.1 ≡ keep (is_fresh now) ps = p.3 ∙ ap (keep (is_fresh now)) e in
      rw (deque_head_lem now (listed ps limit timeout) refl) (
        rw (p.2, and_then)
          (rw (remove_head_lem limit timeout p.0 p.1 p.4, and_then)
            (rw (verify_queue_lem p.0 (rest p.1) limit timeout _ (Chain-rest p.0 p.1 p.4))
              (head-Agree p.0 p.1 _ limit timeout p.4 left))))

  -- `deque(dst)` on a queue in memory that stands for a list does what it does on the list: no
  -- assertion fails, no pointer is null or dangling, the loops end, the pointer that it returns is
  -- to the packet taken, and the queue that it leaves stands for the list that is left.
  pub deque-Agree :
      (now : D) (dst : ℕ) (q : Store D) (xs : Cells D) (r : Queue D)
      → Represents q xs r
      → Agree SamePacket (Linked.deque now dst q) (Queue.deque now dst r)
  deque-Agree now dst q cells r (represents h xs ps limit timeout ch e) =
      let p = purge_lem limit timeout now h xs ch in
      let served_list : packets p.1 ≡ keep (is_fresh now) ps = p.3 ∙ ap (keep (is_fresh now)) e in
      rw (deque_lem now dst (listed ps limit timeout) refl, sym served_list)
        (elim (Bool-cases (any (is_for dst) (packets p.1))) [
          | inl found ↦
              let u = unlink_lem (is_for dst) limit timeout p.0 p.1 p.4 found in
              rw (deque-hit limit timeout now dst _ p.0 u.0 p.1 p.2 p.4 found u.1 u.2) (
                agree (represents u.0 _ _ limit timeout u.2 (packets-erase (is_for dst) p.1))
                  (ground (arith, u.4, packet_at-hit (is_for dst) p.0 p.1 p.4)))
          | inr missed ↦ rw (deque_miss limit timeout now dst _ p.0 p.1 p.2 p.4 missed) (
              agree
                (represents p.0 p.1 _ limit timeout p.4
                  (sym (remove_first-none (is_for dst) (packets p.1) missed)))
                (sym (find-none (is_for dst) (packets p.1) missed)))
        ])

  -- `enque(p)` on a queue in memory that stands for a list of packets within a limit that is not 0,
  -- for a packet at an address that is not null and not in the queue, does what it does on the
  -- list: no assertion fails, no pointer is null or dangling, the loops end, the same packet is
  -- dropped for the same reason, and the queue that it leaves stands for the list that is left.
  pub enque-Agree :
      (now : D) (p : ℕ) (c : Cell D) (q : Store D) (xs : Cells D) (r : Queue D)
      → Represents q xs r
      → r.len ≤ r.limit
      → 0 < r.limit
      → (p == 0) ≡ false
      → has p xs ≡ false
      → q.heap p ≡ some c
      → Agree (λ _ a b. a ≡ b) (Linked.enque now p q) (Queue.enque now c.packet r)
  unfolding Linked.enque
  enque-Agree now p c q cells r (represents h xs ps limit timeout ch e) l lim ne new at =
      let u = purge_lem limit timeout now h xs ch in
      let left : packets u.1 ≡ keep (is_fresh now) ps = u.3 ∙ ap (keep (is_fresh now)) e in
      let frame : (u.0 p ≡ h p) × (has p u.1 ≡ false) = u.5 p new in
      let x : Packet D = record c.packet { ts = now ⊕ timeout } in
      let h2 : Heap D = write p (record { packet = x; next = 0 }) u.0 in
      let ch2 : Chain h2 u.1 = Chain-write u.0 p _ u.1 frame.1 u.4 in
      let a =
        append_lem h2 p x ne (rw (==_refl p) refl) (kept limit u.1) limit timeout
          (Chain-kept limit h2 u.1 ch2) (has-kept limit p u.1 frame.1) in
      rw ((enque_lem now c.packet (listed ps limit timeout) refl l lim).0) (
        rw (u.2, and_then)
          (rw (stamp_lem limit timeout now u.0 u.1 p c ne (frame.0 ∙ at), and_then)
            (rw (drop_front_lem limit timeout now h2 u.1 lim ch2, and_then)
              (rw (a.1, and_then)
                (rw (verify_queue_lem a.0 _ limit timeout _ a.2) (
                  agree
                    (represents a.0 _ _ limit timeout a.2 (
                      packets-append (kept limit u.1) ((p, x) ∷ [])
                      ∙ ap (λ z. z ++ (x ∷ []))
                          (packets-kept limit u.1 lim ∙ ap (room limit) left)))
                    (ap (front now limit) left)))))))

  -- `find(dst)` on a queue in memory that stands for a list returns, and tells what it does of the
  -- list.
  pub find_dst_lem :
      (dst : ℕ) (q : Store D) (xs : Cells D) (r : Queue D)
      → Represents q xs r
      → Linked.find_dst dst q ≡ done (Queue.find_dst dst r)
  unfolding Linked.find_dst Queue.find_dst
  find_dst_lem dst q cells r (represents h xs ps limit timeout ch e) =
      rw (sym e, find_packet_lem (is_for dst) (suc (length xs)) 0 h xs (omega arith) ch, and_then)
        (elim (Bool-cases (any (is_for dst) (packets xs))) [
          | inl there ↦
              ground
                (arith, hit-some (is_for dst) h xs ch there, find-any (is_for dst) (packets xs))
          | inr absent ↦ ground (
            arith,
            hit-none (is_for dst) h xs ch absent,
            find-none (is_for dst) (packets xs) absent,
          )
        ])
