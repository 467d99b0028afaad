-- ===== src/Queue/Linked/Append.antt =====
-- The steps of `enque` behind `purge`: the new packet's stamp, the drop of the front, the append.
use ns2_te_aomdv.Base.{
  ℕ, suc, ◌<◌, ◌≡◌, refl, true, false, some, [], ◌∷◌, ◌++◌, length, length-append, arith, ◌==◌,
  if◌then◌else◌, Double, ◌⊕◌, done, ==_refl, Bool-cases, inl, inr,
}
use ns2_te_aomdv.Packet.{Packet}
use ns2_te_aomdv.Queue.Laws.{front, room}
use ns2_te_aomdv.Queue.Linked.{Cell, Heap, write, stamp, drop_front, append}
use ns2_te_aomdv.Queue.Linked.Chain.{
  Cells, Chain, packets, rest, last, has, load_lem, set_next_lem, length-packets,
}
use ns2_te_aomdv.Queue.Linked.Walk.{store}
use ns2_te_aomdv.Queue.Linked.Unlink.{remove_head_lem, apart}

module _ {D : Type 0} where
  -- The cell `prev` at the end of a chain, and the chain with the cell `p` behind it.
  record End (h : Heap D) (p : ℕ) (x : Packet D) (xs : Cells D) (prev : ℕ) : Type 0 where
    packet_end : Packet D
    among : has prev xs ≡ true
    not_null : (prev == 0) ≡ false
    holds : h prev ≡ some (record { packet = packet_end; next = 0 })
    linked : Chain (write prev (record { packet = packet_end; next = p }) h) (xs ++ ((p, x) ∷ []))

  has-append :
      (a p : ℕ) (x : Packet D) (xs : Cells D)
      → has a xs ≡ false
      → (a == p) ≡ false
      → has a (xs ++ ((p, x) ∷ [])) ≡ false
  has-append a p x [] o ne = rw ne refl
  has-append a p x ((b, y) ∷ xs) o ne = ground (arith, has-append a p x xs)

  last-append : (a p : ℕ) (x : Packet D) (xs : Cells D) → last a (xs ++ ((p, x) ∷ [])) ≡ p
  last-append a p x [] = refl
  last-append a p x ((b, y) ∷ xs) = last-append b p x xs

  module _ (h : Heap D) (p : ℕ) (x : Packet D) (ne : (p == 0) ≡ false)
      (new : h p ≡ some (record { packet = x; next = 0 })) where
    end :
        (a : ℕ) (y : Packet D) (xs : Cells D)
        → Chain h ((a, y) ∷ xs)
        → has p ((a, y) ∷ xs) ≡ false
        → End h p x ((a, y) ∷ xs) (last a xs)
    end a y [] ch o = record {
      packet_end = y;
      among = ground arith;
      not_null = ch.0;
      holds = ch.1;
      linked = (ch.0, rw (==_refl a) refl, ground arith, (ne, ground arith, refl, tt));
    }
    end a y ((b, z) ∷ xs) ch o =
        let rest : End h p x ((b, z) ∷ xs) (last b xs) = end b z xs ch.3 (ground arith) in
        record {
          packet_end = rest.packet_end;
          among = ground (arith, rest.among);
          not_null = rest.not_null;
          holds = rest.holds;
          linked = (
            ch.0,
            rw (apart a (last b xs) ((b, z) ∷ xs) ch.2 rest.among) ch.1,
            has-append a p x ((b, z) ∷ xs) ch.2 (ground arith),
            rest.linked,
          );
        }

    pub append_lem :
        (xs : Cells D) (limit : ℕ) (timeout : D)
        → Chain h xs
        → has p xs ≡ false
        → (h' : Heap D) × (append p (store h xs limit timeout)
            ≡ done (store h' (xs ++ ((p, x) ∷ [])) limit timeout))
          × Chain h' (xs ++ ((p, x) ∷ []))
    unfolding append
    append_lem [] limit timeout ch o = (h, refl, (ne, new, refl, tt))
    append_lem ((a, y) ∷ xs) limit timeout ch o =
        let e : End h p x ((a, y) ∷ xs) (last a xs) = end a y xs ch o in
        (
          write (last a xs) (record { packet = e.packet_end; next = p }) h,
          ground (
            arith,
            set_next_lem h (last a xs) p _ e.not_null e.holds,
            last-append a p x xs,
            length-append xs ((p, x) ∷ []),
          ),
          e.linked,
        )

module _ {D : Type 0} (limit : ℕ) where
  -- What a full queue keeps.
  abbrev pub kept : Cells D → Cells D
  kept xs = if length xs == limit then rest xs else xs

  pub packets-kept :
      ⦃fl : Double D⦄ (xs : Cells D) → 0 < limit → packets (kept xs) ≡ room limit (packets xs)
  packets-kept ⦃fl⦄ [] l = ground arith
  packets-kept ⦃fl⦄ ((a, x) ∷ xs) l = ground (arith, length-packets xs)

  pub Chain-kept : (h : Heap D) (xs : Cells D) → Chain h xs → Chain h (kept xs)
  Chain-kept h [] ch = ground arith
  Chain-kept h ((a, x) ∷ xs) ch = elim (Bool-cases (suc (length xs) == limit)) [
    | inl full ↦ rw full ch.3
    | inr fits ↦ rw fits ch
  ]

  pub has-kept : (b : ℕ) (xs : Cells D) → has b xs ≡ false → has b (kept xs) ≡ false
  has-kept b [] o = ground arith
  has-kept b ((a, x) ∷ xs) o = ground arith

module _ {D : Type 0} ⦃fl : Double D⦄ (limit : ℕ) (timeout : D) (now : D) where
  pub stamp_lem :
      (h : Heap D) (xs : Cells D) (p : ℕ) (c : Cell D)
      → (p == 0) ≡ false
      → h p ≡ some c
      → stamp now p (store h xs limit timeout)
        ≡ done (
            store
              (write p (record { packet = record c.packet { ts = now ⊕ timeout }; next = 0 }) h)
              xs
              limit
              timeout)
  unfolding stamp
  stamp_lem h xs p c ne e = rw (load_lem h p c ne e) refl

  pub drop_front_lem :
      (h : Heap D) (xs : Cells D)
      → 0 < limit
      → Chain h xs
      → drop_front now (store h xs limit timeout)
        ≡ done (front now limit (packets xs), store h (kept limit xs) limit timeout)
  unfolding drop_front
  drop_front_lem h [] l ch = ground arith
  drop_front_lem h ((a, x) ∷ xs) l ch = ground (
    arith,
    remove_head_lem limit timeout h ((a, x) ∷ xs) ch,
    load_lem h a _ ch.0 ch.1,
    length-packets xs,
  )
