-- ===== src/Queue/Linked.antt =====
-- teaomdv/teaomdv_rqueue.cc with the pointers of the code: packets at addresses, linked by `next_`
-- from `head_` to `tail_`, 0 the null pointer. A walk along the links has fuel, since links can run
-- in a circle: one more than `len_`. Each operation is one of `Queue` in this second form.
pub mod Chain
pub mod Walk
pub mod Unlink
pub mod Purge
pub mod Append
pub mod Refines
use ns2_te_aomdv.Base.{
  ℕ, zero, suc, ◌+◌, ◌-◌, Bool, true, false, ◌&&◌, ◌||◌, Option, none, some, ◌==◌, if◌then◌else◌,
  Double, ◌≺◌, ◌⊕◌, Outcome, done, crash, no_fuel, null_pointer, dangling_pointer, assert_failed,
  and_then, asserting,
}
use ns2_te_aomdv.Packet.{Packet}
use ns2_te_aomdv.Queue.{Reason, qfull, qtimeout, is_for, is_aged}

pub record Cell (D : Type 0) : Type 0 where
  pub packet : Packet D
  pub next : ℕ

abbrev pub Heap : Type 0 → Type 0
Heap D = ℕ → Option (Cell D)

pub record Store (D : Type 0) : Type 0 where
  pub heap : Heap D
  pub head : ℕ
  pub tail : ℕ
  pub len : ℕ
  pub limit : ℕ
  pub timeout : D

module _ {D : Type 0} where
  -- `*p`.
  pub load : ℕ → Heap D → Outcome (Cell D)
  load p h = elim (p == 0) [
    | true ↦ crash null_pointer
    | false ↦ elim (h p) [ none ↦ crash dangling_pointer | some c ↦ done c ]
  ]

  abbrev pub write : ℕ → Cell D → Heap D → Heap D
  write p c h = λ a. if a == p then some c else h a

  -- `p->next_ = n`.
  pub set_next : ℕ → ℕ → Heap D → Outcome (Heap D)
  set_next p n h = and_then (load p h) λ c. done (write p (record c { next = n }) h)

  unfoldable pub remove_head : Store D → Outcome (ℕ × Store D)
  remove_head q = elim (q.head == q.tail) [
    | true ↦
        done
          (q.head, record q { head = 0; tail = 0; len = if q.head == 0 then q.len else q.len - 1 })
    | false ↦ and_then (load q.head q.heap) λ c.
        done (q.head, record q { head = c.next; len = if q.head == 0 then q.len else q.len - 1 })
  ]

  -- The loop of `findPacketWithDst` and `findAgedPacket`: the first packet from `p` on that passes
  -- the test, or 0, and the one before it.
  pub find_packet : (Packet D → Bool) → ℕ → ℕ → ℕ → Heap D → Outcome (ℕ × ℕ)
  find_packet test zero p prev h = crash no_fuel
  find_packet test (suc fuel) p prev h = elim (p == 0) [
    | true ↦ done (p, prev)
    | false ↦ and_then (load p h) λ c. elim (test c.packet) [
      | true ↦ done (p, prev)
      | false ↦ find_packet test fuel c.next p h
    ]
  ]

  -- The loop of `verifyQueue`: `cnt` and `prev` at its end.
  pub count_packets : ℕ → ℕ → ℕ → ℕ → Heap D → Outcome (ℕ × ℕ)
  count_packets zero p prev cnt h = crash no_fuel
  count_packets (suc fuel) p prev cnt h = elim (p == 0) [
    | true ↦ done (cnt, prev)
    | false ↦ and_then (load p h) λ c. count_packets fuel c.next p (suc cnt) h
  ]

  unfoldable pub verify_queue : {A : Type 0} → Store D → A → Outcome A
  verify_queue q a =
      and_then (count_packets (suc q.len) q.head 0 0 q.heap)
        λ r. asserting ((r.0 == q.len) && (r.1 == q.tail)) a

  -- The assertion on what a search found.
  pub assert_found : {A : Type 0} → ℕ → ℕ → Store D → Outcome A → Outcome A
  assert_found p prev q rest = elim ((p == 0) || ((p == q.head) && (prev == 0))) [
    | true ↦ rest
    | false ↦ and_then (load prev q.heap) λ c. and_then (asserting (c.next == p) tt) λ _. rest
  ]

  -- The three cases that take `p`, with `prev` before it, out of the list.
  pub unlink : ℕ → ℕ → Store D → Outcome (Store D)
  unlink p prev q = elim (p == q.head) [
    | true ↦ and_then (remove_head q) λ r. done r.1
    | false ↦ elim (p == q.tail) [
      | true ↦
          and_then (set_next prev 0 q.heap)
            λ h. done (record q { heap = h; tail = prev; len = q.len - 1 })
      | false ↦ and_then (load p q.heap) λ c.
          and_then (set_next prev c.next q.heap) λ h. done (record q { heap = h; len = q.len - 1 })
    ]
  ]

  unfoldable pub append : ℕ → Store D → Outcome (Store D)
  append p q = elim (q.head == 0) [
    | true ↦ done (record q { head = p; tail = p; len = q.len + 1 })
    | false ↦
        and_then (set_next q.tail p q.heap)
          λ h. done (record q { heap = h; tail = p; len = q.len + 1 })
  ]

  pub find_dst : ℕ → Store D → Outcome Bool
  find_dst dst q =
      and_then (find_packet (is_for dst) (suc q.len) q.head 0 q.heap)
        λ r. done (if r.0 == 0 then false else true)

module _ {D : Type 0} ⦃fl : Double D⦄ where
  unfoldable pub purge_rounds : ℕ → D → Store D → Outcome (Store D)
  purge_rounds zero now q = crash no_fuel
  purge_rounds (suc fuel) now q =
      and_then (find_packet (is_aged now) (suc q.len) q.head 0 q.heap) λ r. elim (r.0 == 0) [
        | true ↦ done q
        | false ↦ assert_found r.0 r.1 q (
            and_then (unlink r.0 r.1 q)
              λ q'. and_then (verify_queue q' tt) λ _. purge_rounds fuel now q')
      ]

  unfoldable pub purge : D → Store D → Outcome (Store D)
  purge now q = purge_rounds (suc q.len) now q

  -- `p->next_ = 0` and the new time of the packet.
  pub stamp : D → ℕ → Store D → Outcome (Store D)
  stamp now p q = and_then (load p q.heap) λ c.
      let packet : Packet D = record c.packet { ts = now ⊕ q.timeout } in
      done (record q { heap = write p (record { packet = packet; next = 0 }) q.heap })

  -- The packet that a full queue drops, with the reason that is reported.
  unfoldable pub drop_front : D → Store D → Outcome (Option (Packet D × Reason) × Store D)
  drop_front now q = elim (q.len == q.limit) [
    | true ↦ and_then (remove_head q) λ r. elim (r.0 == 0) [
      | true ↦ crash assert_failed
      | false ↦
          and_then (load r.0 r.1.heap)
            λ c. done (some (c.packet, if now ≺ c.packet.ts then qfull else qtimeout), r.1)
    ]
    | false ↦ done (none, q)
  ]

  unfoldable pub enque : D → ℕ → Store D → Outcome (Option (Packet D × Reason) × Store D)
  enque now p q = and_then (purge now q) λ q1. and_then (stamp now p q1) λ q2.
      and_then (drop_front now q2) λ r. and_then (append p r.1) λ q3. verify_queue q3 (r.0, q3)

  -- `deque()`.
  unfoldable pub deque_head : D → Store D → Outcome (ℕ × Store D)
  deque_head now q = and_then (purge now q) λ q1. and_then (remove_head q1) λ r. verify_queue r.1 r

  -- `deque(dst)`.
  unfoldable pub deque : D → ℕ → Store D → Outcome (ℕ × Store D)
  deque now dst q = and_then (purge now q) λ q1.
      and_then (find_packet (is_for dst) (suc q1.len) q1.head 0 q1.heap) λ r.
        assert_found r.0 r.1 q1 (elim (r.0 == 0) [
          | true ↦ done (0, q1)
          | false ↦ and_then (unlink r.0 r.1 q1) λ q2. verify_queue q2 (r.0, q2)
        ])
