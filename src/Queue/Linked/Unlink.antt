-- ===== src/Queue/Linked/Unlink.antt =====
-- A search followed by `unlink` takes one cell out of a chain.
pub mod Found
use ns2_te_aomdv.Base.{
  ℕ, ◌≡◌, refl, Bool, true, false, [], ◌∷◌, some, any, arith, ◌==◌, done, Bool-cases, inl, inr,
  ==_refl, sym, subst, Outcome,
}
use ns2_te_aomdv.Packet.{Packet}
use ns2_te_aomdv.Queue.Linked.{Heap, write, unlink, remove_head, assert_found}
use ns2_te_aomdv.Queue.Linked.Chain.{
  Cells, Chain, Framed, Chain-write, packets, first, rest, last, has, hit, before, after, erase,
  has-erase, load_lem, set_next_lem, hit-some, length-erase, hit-none,
}
use ns2_te_aomdv.Queue.Linked.Walk.{store}

module _ {D : Type 0} where
  pub apart : (a b : ℕ) (xs : Cells D) → has a xs ≡ false → has b xs ≡ true → (a == b) ≡ false
  apart a b xs o i = ground arith

  pub has-last :
      (a : ℕ) (xs : Cells D) (b : ℕ) (p : Packet D)
      → has (last a ((b, p) ∷ xs)) ((b, p) ∷ xs) ≡ true
  has-last a [] b p = rw (==_refl b) refl
  has-last a ((c, r) ∷ xs) b p = ground (arith, has-last b xs c r)

  -- The hit `b` behind the cells that start with `a`, with `prev` before it and `n` behind it, and
  -- the chain `ys` with the hit jumped over.
  pub record Cut (h : Heap D) (a : ℕ) (x : Packet D) (xs : Cells D) (prev b n : ℕ) (ys : Cells D)
      : Type 0 where
    packet_before : Packet D
    packet_hit : Packet D
    among : has prev ((a, x) ∷ xs) ≡ true
    not_null : (prev == 0) ≡ false
    other : (b == prev) ≡ false
    holds_before : h prev ≡ some (record { packet = packet_before; next = b })
    holds_hit : h b ≡ some (record { packet = packet_hit; next = n })
    jumped : Chain (write prev (record { packet = packet_before; next = n }) h) ((a, x) ∷ ys)

  Cut-here :
      (h : Heap D) (a : ℕ) (x : Packet D) (b : ℕ) (y : Packet D) (xs : Cells D)
      → Chain h ((a, x) ∷ (b, y) ∷ xs)
      → Cut h a x ((b, y) ∷ xs) a b (first xs) xs
  Cut-here h a x b y xs ch = record {
    packet_before = x;
    packet_hit = y;
    among = ground arith;
    not_null = ch.0;
    other = ground arith;
    holds_before = ch.1;
    holds_hit = ch.3.1;
    jumped = (ch.0, rw (==_refl a) refl, ground arith, Chain-write h a _ xs (ground arith) ch.3.3);
  }

  Cut-behind :
      (h : Heap D) (a : ℕ) (x : Packet D) (b : ℕ) (y : Packet D) (xs ys : Cells D) (prev hit n : ℕ)
      → Chain h ((a, x) ∷ (b, y) ∷ xs)
      → has a ys ≡ false
      → Cut h b y xs prev hit n ys
      → Cut h a x ((b, y) ∷ xs) prev hit n ((b, y) ∷ ys)
  Cut-behind h a x b y xs ys prev hit n ch o rest = record {
    packet_before = packet_before;
    packet_hit = packet_hit;
    among = ground arith;
    not_null = not_null;
    other = other;
    holds_before = holds_before;
    holds_hit = holds_hit;
    jumped = (ch.0, rw (apart a prev ((b, y) ∷ xs) ch.2 among) ch.1, ground arith, jumped);
  }
    where
      open rest use {
        packet_before, packet_hit, among, not_null, other, holds_before, holds_hit, jumped,
      }

module _ {D : Type 0} (test : Packet D → Bool) where
  pub cut :
      (h : Heap D) (a : ℕ) (x : Packet D) (xs : Cells D)
      → Chain h ((a, x) ∷ xs)
      → any test (packets xs) ≡ true
      → Cut h a x xs (before test a xs) (hit test xs) (after test xs) (erase test xs)
  cut h a x [] ch m = cc
  cut h a x ((b, y) ∷ xs) ch m = elim (Bool-cases (test y)) [
    | inl found ↦ rw found (Cut-here h a x b y xs ch)
    | inr missed ↦ rw missed (
        Cut-behind h a x b y xs (erase test xs) _ _ _ ch (has-erase test a xs (ground arith))
          (cut h b y xs ch.3 (ground arith)))
  ]

  end :
      (h : Heap D) (a : ℕ) (x : Packet D) (xs : Cells D)
      → Chain h ((a, x) ∷ xs)
      → any test (packets xs) ≡ true
      → (hit test xs == last a xs) ≡ true
      → (after test xs ≡ 0) × (last a (erase test xs) ≡ before test a xs)
  end h a x [] ch m e = cc
  end h a x ((b, y) ∷ []) ch m e = elim (Bool-cases (test y)) [
    | inl found ↦ rw found (refl, refl)
    | inr missed ↦ ground arith
  ]
  end h a x ((b, y) ∷ (c, z) ∷ xs) ch m e = elim (Bool-cases (test y)) [
    | inl found ↦ ground (arith, apart b (last c xs) ((c, z) ∷ xs) ch.3.2 (has-last b xs c z))
    | inr missed ↦ rw missed (end h b y ((c, z) ∷ xs) ch.3 (ground arith) (ground arith))
  ]

  not_end :
      (h : Heap D) (a : ℕ) (x : Packet D) (xs : Cells D)
      → Chain h ((a, x) ∷ xs)
      → any test (packets xs) ≡ true
      → (hit test xs == last a xs) ≡ false
      → last a (erase test xs) ≡ last a xs
  not_end h a x [] ch m e = cc
  not_end h a x ((b, y) ∷ []) ch m e = elim (Bool-cases (test y)) [
    | inl found ↦ ground arith
    | inr missed ↦ rw missed refl
  ]
  not_end h a x ((b, y) ∷ (c, z) ∷ xs) ch m e = elim (Bool-cases (test y)) [
    | inl found ↦ rw found refl
    | inr missed ↦ rw missed (not_end h b y ((c, z) ∷ xs) ch.3 (ground arith) (ground arith))
  ]

module _ {D : Type 0} (limit : ℕ) (timeout : D) where
  pub remove_head_lem :
      (h : Heap D) (xs : Cells D)
      → Chain h xs
      → remove_head (store h xs limit timeout) ≡ done (first xs, store h (rest xs) limit timeout)
  unfolding remove_head
  remove_head_lem h [] ch = refl
  remove_head_lem h ((a, x) ∷ []) ch = ground arith
  remove_head_lem h ((a, x) ∷ (b, y) ∷ xs) ch =
      ground (
        arith,
        load_lem h a _ ch.0 ch.1,
        apart a (last b xs) ((b, y) ∷ xs) ch.2 (has-last a xs b y),
      )

module _ {D : Type 0} (test : Packet D → Bool) (limit : ℕ) (timeout : D) where
  -- The cell behind the first one that passes the test is unlinked.
  unlink_behind :
      (h : Heap D) (a : ℕ) (x : Packet D) (xs : Cells D) (prev b n : ℕ)
      → Chain h ((a, x) ∷ xs)
      → any test (packets xs) ≡ true
      → prev ≡ before test a xs
      → b ≡ hit test xs
      → n ≡ after test xs
      → Cut h a x xs prev b n (erase test xs)
      → (h' : Heap D) × (unlink b prev (store h ((a, x) ∷ xs) limit timeout)
          ≡ done (store h' ((a, x) ∷ erase test xs) limit timeout))
        × Chain h' ((a, x) ∷ erase test xs)
        × Framed h ((a, x) ∷ xs) h' ((a, x) ∷ erase test xs)
        × (h' b ≡ h b)
  unfolding unlink
  unlink_behind h a x xs prev b n ch m ep eb en c = (
    write prev (record { packet = packet_before; next = n }) h,
    elim (Bool-cases (b == last a xs)) [
      | inl final ↦
          let ends : (after test xs ≡ 0) × (last a (erase test xs) ≡ before test a xs) =
            end test h a x xs ch m (ground arith) in
          ground
            (arith, ne_head, set_next_lem h prev 0 _ not_null holds_before, length-erase test xs m)
      | inr inner ↦ ground (
        arith,
        ne_head,
        load_lem h b _ hit_not_null holds_hit,
        set_next_lem h prev n _ not_null holds_before,
        length-erase test xs m,
        not_end test h a x xs ch m,
      )
    ],
    jumped,
    λ d o. (rw (apart d prev ((a, x) ∷ xs) o among) refl, ground (arith, has-erase test d xs)),
    rw other refl,
  )
    where
      open c use {
        packet_before, packet_hit, among, not_null, other, holds_before, holds_hit, jumped,
      }

      ne_head : (b == a) ≡ false
      ne_head = ground (
        arith,
        apart a b xs ch.2 (subst (λ z. has z xs ≡ true) (sym eb) (hit-some test h xs ch.3 m).0),
      )

      hit_not_null : (b == 0) ≡ false
      hit_not_null = subst (λ z. (z == 0) ≡ false) (sym eb) (hit-some test h xs ch.3 m).1

  unlink_head :
      (h : Heap D) (a : ℕ) (x : Packet D) (xs : Cells D)
      → Chain h ((a, x) ∷ xs)
      → unlink a 0 (store h ((a, x) ∷ xs) limit timeout) ≡ done (store h xs limit timeout)
  unfolding unlink
  unlink_head h a x xs ch = ground (arith, remove_head_lem limit timeout h ((a, x) ∷ xs) ch)

  pub unlink_lem :
      (h : Heap D) (xs : Cells D)
      → Chain h xs
      → any test (packets xs) ≡ true
      → (h' : Heap D) × (unlink (hit test xs) (before test 0 xs) (store h xs limit timeout)
          ≡ done (store h' (erase test xs) limit timeout))
        × Chain h' (erase test xs)
        × Framed h xs h' (erase test xs)
        × (h' (hit test xs) ≡ h (hit test xs))
  unlink_lem h [] ch m = cc
  unlink_lem h ((a, x) ∷ xs) ch m = elim (Bool-cases (test x)) [
    | inl found ↦ rw found (h, unlink_head h a x xs ch, ch.3, λ d o. (refl, ground arith), refl)
    | inr missed ↦
        let m' : any test (packets xs) ≡ true = ground arith in
        rw missed (unlink_behind h a x xs _ _ _ ch m' refl refl refl (cut test h a x xs ch m'))
  ]
