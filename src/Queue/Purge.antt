-- ===== src/Queue/Purge.antt =====
-- `purge` ends, keeps the length right, and has filtered the queue.
use ns2_te_aomdv.Base.{
  ℕ, zero, suc, ◌-◌, ◌<◌, ◌≤◌, ◌≡◌, Bool, not, length, keep, length-keep-le, remove_first,
  length-remove_first, keep-all, keep-remove_first, arith, Double, done,
}
use ns2_te_aomdv.Packet.{Packet}
use ns2_te_aomdv.Queue.{Queue, is_aged, purge_rounds, purge}

module _ {D : Type 0} where
  -- What `verifyQueue` asserts.
  abbrev pub IsCounted : Queue D → Type 0
  IsCounted q = q.len ≡ length q.items

module _ {D : Type 0} ⦃fl : Double D⦄ where
  abbrev pub is_fresh : D → Packet D → Bool
  is_fresh now p = not (is_aged now p)

  abbrev pub purged : D → Queue D → Queue D
  purged now q = record q {
    items = keep (is_fresh now) q.items;
    len = length (keep (is_fresh now) q.items);
  }

  purge_rounds_lem :
      (fuel : ℕ) (now : D) (q : Queue D)
      → length q.items < fuel
      → IsCounted q
      → purge_rounds fuel now q ≡ done (purged now q)
  unfolding purge_rounds
  purge_rounds_lem zero now q h c = elim h [ ]
  purge_rounds_lem (suc fuel) now q h c = ground (
    arith,
    purge_rounds_lem fuel now
        (record q { items = remove_first (is_aged now) q.items; len = q.len - 1 }),
    keep-remove_first (is_aged now) q.items,
    keep-all (is_aged now) q.items,
    length-remove_first (is_aged now) q.items,
  )

  -- If the length is right, `purge` ends with every assertion met, and leaves the packets that have
  -- not timed out, in their order, with the length right again.
  pub purge_lem : (now : D) (q : Queue D) → IsCounted q → purge now q ≡ done (purged now q)
  unfolding purge
  purge_lem now q c = purge_rounds_lem _ now q (omega arith) c

  pub purged-le : (now : D) (q : Queue D) → IsCounted q → (purged now q).len ≤ q.len
  purged-le now q c = omega (arith, length-keep-le (is_fresh now) q.items)
