-- ===== src/Queue/Linked/Unlink/Found.antt =====
-- What `findPacket` finds meets the assertion on it.
use ns2_te_aomdv.Base.{
  ℕ, ◌≡◌, refl, Bool, false, [], ◌∷◌, any, arith, ◌==◌, Bool-cases, inl, inr, Outcome,
}
use ns2_te_aomdv.Packet.{Packet}
use ns2_te_aomdv.Queue.Linked.{Heap, assert_found}
use ns2_te_aomdv.Queue.Linked.Chain.{
  Cells, Chain, packets, hit, before, load_lem, hit-some, hit-none,
}
use ns2_te_aomdv.Queue.Linked.Walk.{store}
use ns2_te_aomdv.Queue.Linked.Unlink.{Cut, cut}

module _ {D : Type 0} (test : Packet D → Bool) (limit : ℕ) (timeout : D) where
  assert_behind :
      {A : Type 0} {h : Heap D} {a : ℕ} {x : Packet D} {xs : Cells D} {prev b n : ℕ} {ys : Cells D}
      (r : Outcome A)
      → Cut h a x xs prev b n ys
      → (b == 0) ≡ false
      → assert_found b prev (store h ((a, x) ∷ xs) limit timeout) r ≡ r
  unfolding assert_found
  assert_behind {h = h} {prev = prev} r c ne =
      ground (arith, load_lem h prev _ c.not_null c.holds_before)

  -- The assertion on what a search found is met.
  pub assert_found_lem :
      {A : Type 0} (h : Heap D) (xs : Cells D) (r : Outcome A)
      → Chain h xs
      → assert_found (hit test xs) (before test 0 xs) (store h xs limit timeout) r ≡ r
  unfolding assert_found
  assert_found_lem h [] r ch = refl
  assert_found_lem h ((a, x) ∷ xs) r ch = elim (Bool-cases (test x)) [
    | inl found ↦ rw found (ground arith)
    | inr missed ↦ elim (Bool-cases (any test (packets xs))) [
      | inl some_hit ↦
          rw missed
            (assert_behind r (cut test h a x xs ch some_hit) (hit-some test h xs ch.3 some_hit).1)
      | inr none_hit ↦ rw missed (rw (hit-none test h xs ch.3 none_hit) refl)
    ]
  ]
