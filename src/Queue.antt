-- ===== src/Queue.antt =====
-- teaomdv/teaomdv_rqueue.h and teaomdv_rqueue.cc: the "drop-front" queue of packets that wait for a
-- route. The list linked by `next_` from `head_` to `tail_` is a `List`, the head first; `len_` is
-- kept apart from it, as in the code, and `verifyQueue` compares the two. `now` is the clock.
pub mod Purge
pub mod Kept
pub mod Laws
pub mod Linked
use ns2_te_aomdv.Base.{
  ℕ, zero, suc, ◌+◌, ◌-◌, Bool, true, false, Option, none, some, List, [], ◌∷◌, ◌++◌, length, find,
  remove_first, any, is_some, ◌==◌, if◌then◌else◌, Double, ◌≺◌, ◌⊕◌, Outcome, done, crash, no_fuel,
  assert_failed, and_then, on_done, asserting,
}
use ns2_te_aomdv.Packet.{Packet}

abbrev pub rtq_max_len : ℕ
rtq_max_len = 64

pub data Reason : Type 0 where
  qfull qtimeout no_route ttl_expired route_loop rtexpire mac_callback hello_loss : Reason

pub record Queue (D : Type 0) : Type 0 where
  pub items : List (Packet D)
  pub len : ℕ
  pub limit : ℕ
  pub timeout : D

module _ {D : Type 0} where
  pub verify_queue : {A : Type 0} → Queue D → A → Outcome A
  verify_queue q a = asserting (length q.items == q.len) a

  abbrev pub is_for : ℕ → Packet D → Bool
  is_for dst p = p.daddr == dst

  pub remove_head : Queue D → Option (Packet D) × Queue D
  remove_head q = elim q.items [
    | [] ↦ (none, q)
    | p ∷ ps ↦ (some p, record q { items = ps; len = q.len - 1 })
  ]

  -- `find(dst)`.
  pub find_dst : ℕ → Queue D → Bool
  find_dst dst q = is_some (find (is_for dst) q.items)

module _ {D : Type 0} ⦃fl : Double D⦄ where
  unfoldable pub new_queue : Queue D
  new_queue = record { items = []; len = 0; limit = rtq_max_len; timeout = fl.lit 30 1 }

  -- `HDR_CMN(p)->ts_ < CURRENT_TIME`.
  abbrev pub is_aged : D → Packet D → Bool
  is_aged now p = p.ts ≺ now

  -- The loop of `purge`: a round unlinks the first aged packet, which nobody frees or reports.
  unfoldable pub purge_rounds : ℕ → D → Queue D → Outcome (Queue D)
  unfolding verify_queue
  purge_rounds zero now q = crash no_fuel
  purge_rounds (suc fuel) now q = elim (any (is_aged now) q.items) [
    | true ↦
        let q' : Queue D = record q {
          items = remove_first (is_aged now) q.items;
          len = q.len - 1;
        } in
        elim (length q'.items == q'.len) [
          | true ↦ purge_rounds fuel now q'
          | false ↦ crash assert_failed
        ]
    | false ↦ done q
  ]

  unfoldable pub purge : D → Queue D → Outcome (Queue D)
  purge now q = purge_rounds (suc (length q.items)) now q

  -- The packet that `enque` throws out of a full queue, with the reason that it reports.
  drop_front : D → Queue D → Outcome (Option (Packet D × Reason) × Queue D)
  unfolding remove_head
  drop_front now q =
      if q.len == q.limit
      then elim q.items [
        | [] ↦ crash assert_failed
        | p0 ∷ ps ↦ done (some (p0, if now ≺ p0.ts then qfull else qtimeout), (remove_head q).1)
      ]
      else done (none, q)

  append : Packet D → Queue D → Queue D
  append p q = record q { items = q.items ++ (p ∷ []); len = q.len + 1 }

  unfoldable pub enque : D → Packet D → Queue D → Outcome (Option (Packet D × Reason) × Queue D)
  unfolding drop_front append verify_queue
  enque now p q = and_then (purge now q) λ q1. and_then (drop_front now q1) λ r.
      let q2 : Queue D = append (record p { ts = now ⊕ q.timeout }) r.1 in verify_queue q2 (r.0, q2)

  -- `deque()`.
  pub deque_head : D → Queue D → Outcome (Option (Packet D) × Queue D)
  unfolding remove_head verify_queue
  deque_head now q = and_then (purge now q) λ q1. let r = remove_head q1 in verify_queue r.1 r

  -- `deque(dst)`.
  unfoldable pub deque : D → ℕ → Queue D → Outcome (Option (Packet D) × Queue D)
  unfolding verify_queue
  deque now dst q = and_then (purge now q) λ q1. elim (find (is_for dst) q1.items) [
    | none ↦ done (none, q1)
    | some p ↦
        let q2 : Queue D = record q1 {
          items = remove_first (is_for dst) q1.items;
          len = q1.len - 1;
        } in
        verify_queue q2 (some p, q2)
  ]
