-- ===== src/Queue/Laws.antt =====
-- What `enque` and the two `deque` do to the list of waiting packets.
use ns2_te_aomdv.Base.{
  ℕ, suc, ◌<◌, ◌≤◌, ◌≡◌, Option, none, some, List, [], ◌∷◌, ◌++◌, length, length-append, keep,
  remove_first, length-remove_first, find, find-any, remove_first-none, if◌then◌else◌, ◌==◌, arith,
  Double, ◌⊕◌, ◌≺◌, done,
}
use ns2_te_aomdv.Packet.{Packet}
use ns2_te_aomdv.Queue.{
  Queue, Reason, qfull, qtimeout, is_for, drop_front, append, remove_head, enque, deque, deque_head,
  verify_queue,
}
use ns2_te_aomdv.Queue.Purge.{IsCounted, is_fresh, purged, purge_lem, purged-le}

module _ {D : Type 0} ⦃fl : Double D⦄ where
  -- The packets that wait and have not timed out.
  abbrev pub waiting : D → Queue D → List (Packet D)
  waiting now q = keep (is_fresh now) q.items

  abbrev pub stamped : D → Packet D → Queue D → Packet D
  stamped now p q = record p { ts = now ⊕ q.timeout }

  -- What a full queue drops, and what it keeps.
  abbrev pub front : D → ℕ → List (Packet D) → Option (Packet D × Reason)
  front now limit [] = none
  front now limit (p ∷ ps) =
      if suc (length ps) == limit then some (p, if now ≺ p.ts then qfull else qtimeout) else none

  abbrev pub room : ℕ → List (Packet D) → List (Packet D)
  room limit [] = []
  room limit (p ∷ ps) = if suc (length ps) == limit then ps else p ∷ ps

  room-lt :
      (limit : ℕ) (ps : List (Packet D))
      → length ps ≤ limit
      → 0 < limit
      → length (room limit ps) < limit
  room-lt limit [] h l = l
  room-lt limit (p ∷ ps) h l = ground arith

  drop_front_lem :
      (now : D) (ps : List (Packet D)) (q : Queue D)
      → 0 < q.limit
      → drop_front now (record q { items = ps; len = length ps })
        ≡ done (
          front now q.limit ps,
          record q { items = room q.limit ps; len = length (room q.limit ps) },
        )
  unfolding drop_front
  drop_front_lem now [] q l = ground arith
  drop_front_lem now (p ∷ ps) q l = ground arith

  abbrev pub enqueued : D → Packet D → Queue D → Option (Packet D × Reason) × Queue D
  enqueued now p q =
      let items = room q.limit (waiting now q) ++ (stamped now p q ∷ []) in
      (front now q.limit (waiting now q), record q { items = items; len = length items })

  -- `enque` on a queue whose length is right and within a limit that is not 0 meets every assertion.
  -- If the packets that have not timed out fill the queue, it drops the oldest of them, for the
  -- reason QFULL unless its time is just now; otherwise it drops none. It keeps the others in their
  -- order, with the new packet at the end, its time-out stamped. The length is right again and
  -- within the limit.
  pub enque_lem :
      (now : D) (p : Packet D) (q : Queue D)
      → IsCounted q
      → q.len ≤ q.limit
      → 0 < q.limit
      → (enque now p q ≡ done (enqueued now p q)) × ((enqueued now p q).1.len ≤ q.limit)
  unfolding enque append verify_queue
  enque_lem now p q c b l = (
    rw (purge_lem now q c, drop_front_lem now (waiting now q) q l)
        (ground (arith, length-append (room q.limit (waiting now q)) (stamped now p q ∷ []))),
    omega (
      arith,
      room-lt q.limit (waiting now q),
      purged-le now q c,
      length-append (room q.limit (waiting now q)) (stamped now p q ∷ []),
    ),
  )

  abbrev pub served : D → ℕ → Queue D → Option (Packet D) × Queue D
  served now dst q =
      let items = remove_first (is_for dst) (waiting now q) in
      (find (is_for dst) (waiting now q), record q { items = items; len = length items })

  -- `deque(dst)` on a queue whose length is right meets every assertion: it returns the first
  -- packet for `dst` that has not timed out, if there is one, and takes just that one out, besides
  -- the timed-out packets.
  pub deque_lem :
      (now : D) (dst : ℕ) (q : Queue D) → IsCounted q → deque now dst q ≡ done (served now dst q)
  unfolding deque verify_queue
  deque_lem now dst q c = rw (purge_lem now q c) (
      ground (
        arith,
        find-any (is_for dst) (waiting now q),
        length-remove_first (is_for dst) (waiting now q),
        remove_first-none (is_for dst) (waiting now q),
      ))

  abbrev pub headed : D → Queue D → Option (Packet D) × Queue D
  headed now q = elim (waiting now q) [
    | [] ↦ (none, purged now q)
    | p ∷ ps ↦ (some p, record q { items = ps; len = length ps })
  ]

  -- `deque()` on a queue whose length is right meets every assertion, and returns the oldest packet
  -- that has not timed out.
  pub deque_head_lem :
      (now : D) (q : Queue D) → IsCounted q → deque_head now q ≡ done (headed now q)
  unfolding deque_head verify_queue remove_head
  deque_head_lem now q c = rw (purge_lem now q c) (ground arith)
