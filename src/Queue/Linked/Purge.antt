-- ===== src/Queue/Linked/Purge.antt =====
-- `purge` on the linked queue takes the aged packets out of the chain.
use ns2_te_aomdv.Base.{
  ℕ, zero, suc, ◌<◌, ◌≡◌, refl, sym, ap, ◌∙◌, true, length, any, keep, keep-all, keep-remove_first,
  arith, Double, Outcome, and_then, done, Bool-cases, inl, inr,
}
use ns2_te_aomdv.Queue.{is_aged}
use ns2_te_aomdv.Queue.Purge.{is_fresh}
use ns2_te_aomdv.Queue.Linked.{verify_queue, unlink, Heap, Store, purge_rounds, purge}
use ns2_te_aomdv.Queue.Linked.Chain.{
  Cells, Chain, Framed, packets, hit, before, erase, packets-erase, length-erase, hit-some,
  hit-none,
}
use ns2_te_aomdv.Queue.Linked.Walk.{store, find_packet_lem, verify_queue_lem}
use ns2_te_aomdv.Queue.Linked.Unlink.{unlink_lem}
use ns2_te_aomdv.Queue.Linked.Unlink.Found.{assert_found_lem}

module _ {D : Type 0} ⦃fl : Double D⦄ (limit : ℕ) (timeout : D) (now : D) where
  -- What `purge` leaves of the cells.
  abbrev pub Purged : Heap D → Cells D → Outcome (Store D) → Type 0
  Purged h xs run =
      (h' : Heap D) × (ys : Cells D) × (run ≡ done (store h' ys limit timeout))
      × (packets ys ≡ keep (is_fresh now) (packets xs))
      × Chain h' ys
      × Framed h xs h' ys

  purge_step :
      (fuel : ℕ) (h' h : Heap D) (xs : Cells D)
      → Chain h xs
      → any (is_aged now) (packets xs) ≡ true
      → unlink (hit (is_aged now) xs) (before (is_aged now) 0 xs) (store h xs limit timeout)
        ≡ done (store h' (erase (is_aged now) xs) limit timeout)
      → Chain h' (erase (is_aged now) xs)
      → purge_rounds (suc fuel) now (store h xs limit timeout)
        ≡ purge_rounds fuel now (store h' (erase (is_aged now) xs) limit timeout)
  unfolding purge_rounds
  purge_step fuel h' h xs ch aged e ch' =
      rw (find_packet_lem (is_aged now) (suc (length xs)) 0 h xs (omega arith) ch, and_then)
        (ground (
          arith,
          hit-some (is_aged now) h xs ch aged,
          assert_found_lem (is_aged now) limit timeout h xs
              (and_then
                (unlink (hit (is_aged now) xs) (before (is_aged now) 0 xs)
                  (store h xs limit timeout))
                (λ q'. and_then (verify_queue q' tt) (λ _. purge_rounds fuel now q')))
              ch,
          verify_queue_lem h' (erase (is_aged now) xs) limit timeout tt ch',
        ))

  purge_rounds_lem :
      (fuel : ℕ) (h : Heap D) (xs : Cells D)
      → length xs < fuel
      → Chain h xs
      → Purged h xs (purge_rounds fuel now (store h xs limit timeout))
  unfolding purge_rounds
  purge_rounds_lem zero h xs l ch = elim l [ ]
  purge_rounds_lem (suc fuel) h xs l ch = elim (Bool-cases (any (is_aged now) (packets xs))) [
    | inl aged ↦
        let u = unlink_lem (is_aged now) limit timeout h xs ch aged in
        let r =
          purge_rounds_lem fuel u.0 (erase (is_aged now) xs)
            (omega (arith, length-erase (is_aged now) xs aged)) u.2 in
        (
          r.0,
          r.1,
          purge_step fuel u.0 h xs ch aged u.1 u.2 ∙ r.2,
          r.3
              ∙ ap (keep (is_fresh now)) (packets-erase (is_aged now) xs)
              ∙ keep-remove_first (is_aged now) (packets xs),
          r.4,
          λ b o. ground (arith, u.3 b o, r.5 b),
        )
    | inr fresh ↦ (
      h,
      xs,
      rw (find_packet_lem (is_aged now) (suc (length xs)) 0 h xs (omega arith) ch)
          (rw (hit-none (is_aged now) h xs ch fresh) refl),
      sym (keep-all (is_aged now) (packets xs) fresh),
      ch,
      λ b o. (refl, o),
    )
  ]

  pub purge_lem :
      (h : Heap D) (xs : Cells D) → Chain h xs → Purged h xs (purge now (store h xs limit timeout))
  unfolding purge
  purge_lem h xs ch = purge_rounds_lem (suc (length xs)) h xs (omega arith) ch
