-- ===== src/Queue/Kept.antt =====
-- How many of the waiting packets are of a kind: the operations of the queue return a packet that
-- waited, and add none but the one that is given.
use ns2_te_aomdv.Base.{
  ℕ, zero, suc, ◌+◌, ◌-◌, ◌≤◌, ◌≡◌, refl, Bool, Option, none, some, List, [], ◌∷◌, length, find,
  remove_first, count, count-append, count-remove_first, count-find, if◌then◌else◌, arith, Double,
  ◌⊕◌, done, Yields, and_then-Yields, asserting-Yields,
}
use ns2_te_aomdv.Packet.{Packet}
use ns2_te_aomdv.Queue.{
  Queue, Reason, is_aged, is_for, purge_rounds, purge, drop_front, append, remove_head, enque,
  deque, verify_queue,
}

module _ {D : Type 0} ⦃fl : Double D⦄ (c : Packet D → Bool) (n : ℕ) where
  -- At most `n` packets of the kind wait.
  abbrev Holds : Queue D → Type 0
  Holds q = count c q.items ≤ n

  abbrev pub taken : Option (Packet D) → ℕ
  taken none = 0
  taken (some p) = if c p then 1 else 0

  abbrev pub dropped_front : Option (Packet D × Reason) → ℕ
  dropped_front none = 0
  dropped_front (some r) = if c r.0 then 1 else 0

  abbrev pub Taken : Option (Packet D) × Queue D → Type 0
  Taken r = count c r.1.items + taken r.0 ≤ n

  abbrev pub Added : Option (Packet D × Reason) × Queue D → Type 0
  Added r = count c r.1.items + dropped_front r.0 ≤ n

  purge_rounds-Yields :
      (fuel : ℕ) (now : D) (q : Queue D) → Holds q → Yields Holds (purge_rounds fuel now q)
  unfolding purge_rounds
  purge_rounds-Yields zero now q h = tt
  purge_rounds-Yields (suc fuel) now q h =
      let l : count c (remove_first (is_aged now) q.items) ≤ count c q.items =
        count-remove_first c (is_aged now) q.items in
      ground (
        arith,
        purge_rounds-Yields fuel now
            (record q { items = remove_first (is_aged now) q.items; len = q.len - 1 })
            (omega arith),
      )

  purge-Yields : (now : D) (q : Queue D) → Holds q → Yields Holds (purge now q)
  unfolding purge
  purge-Yields now q h = purge_rounds-Yields (suc (length q.items)) now q h

  pub deque-Yields : (now : D) (dst : ℕ) (q : Queue D) → Holds q → Yields Taken (deque now dst q)
  unfolding deque verify_queue
  deque-Yields now dst q h =
      and_then-Yields Holds _ (purge now q) _ (purge-Yields now q h)
        λ q1 h1. go q1 h1 (find (is_for dst) q1.items) refl
    where
      go :
          (q1 : Queue D)
          → Holds q1
          → (o : Option (Packet D)) → find (is_for dst) q1.items ≡ o
          → Yields Taken (elim o [
            | none ↦ done (none, q1)
            | some p ↦
                verify_queue
                  (record q1 { items = remove_first (is_for dst) q1.items; len = q1.len - 1 })
                  (
                    some p,
                    record q1 { items = remove_first (is_for dst) q1.items; len = q1.len - 1 },
                  )
          ])
      go q1 h1 none e = omega arith
      go q1 h1 (some p) e =
          asserting-Yields Taken _ _ (rw (count-find c (is_for dst) q1.items p e) h1)

  drop_front-Yields : (now : D) (q : Queue D) → Holds q → Yields Added (drop_front now q)
  unfolding drop_front remove_head
  drop_front-Yields now q h = go q.items h
    where
      go :
          (ps : List (Packet D))
          → count c ps ≤ n
          → Yields Added (drop_front now (record q { items = ps }))
      go [] h = ground arith
      go (p ∷ ps) h = ground arith

module _ {D : Type 0} ⦃fl : Double D⦄ (c : Packet D → Bool) (m n : ℕ) where
  pub enque-Yields :
      (now : D) (p : Packet D) (q : Queue D)
      → ((t : D) → c (record p { ts = t }) ≡ c p)
      → m + (if c p then 1 else 0) ≤ n
      → count c q.items ≤ m
      → Yields (Added c n) (enque now p q)
  unfolding enque append verify_queue
  enque-Yields now p q k l h =
      and_then-Yields (Holds c m) _ (purge now q) _ (purge-Yields c m now q h) λ q1 h1.
        and_then-Yields (Added c m) _ (drop_front now q1) _ (drop_front-Yields c m now q1 h1)
          λ r h2.
            let e = count-append c r.1.items (record p { ts = now ⊕ q.timeout } ∷ []) in
            let e2 = k (now ⊕ q.timeout) in
            asserting-Yields (Added c n) _ _ (rw e (rw e2 (omega arith)))
