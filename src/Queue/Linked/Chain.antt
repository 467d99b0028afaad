-- ===== src/Queue/Linked/Chain.antt =====
-- The cells of the linked queue: addresses with packets, each cell's link the next address.
use ns2_te_aomdv.Base.{
  ℕ, suc, ◌≡◌, refl, Bool, true, false, some, none, List, [], ◌∷◌, ◌++◌, remove_first, any, find,
  Option, arith, ◌==◌, if◌then◌else◌, done, length, ==_refl, Bool-cases, inl, inr,
}
use ns2_te_aomdv.Packet.{Packet}
use ns2_te_aomdv.Queue.Linked.{Cell, Heap, write, load, set_next}

abbrev pub Cells : Type 0 → Type 0
Cells D = List (ℕ × Packet D)

module _ {D : Type 0} where
  abbrev pub packets : Cells D → List (Packet D)
  packets [] = []
  packets ((a, p) ∷ xs) = p ∷ packets xs

  abbrev pub first : Cells D → ℕ
  first [] = 0
  first ((a, p) ∷ xs) = a

  abbrev pub rest : Cells D → Cells D
  rest [] = []
  rest (x ∷ xs) = xs

  -- The last address, or the one before the cells.
  abbrev pub last : ℕ → Cells D → ℕ
  last prev [] = prev
  last prev ((a, p) ∷ xs) = last a xs

  abbrev pub has : ℕ → Cells D → Bool
  has a [] = false
  has a ((b, p) ∷ xs) = if a == b then true else has a xs

  -- The heap holds the cells, at distinct addresses that are not null, the last with no next.
  abbrev pub Chain : Heap D → Cells D → Type 0
  Chain h [] = Unit
  Chain h ((a, p) ∷ xs) =
      ((a == 0) ≡ false)
      × (h a ≡ some (record { packet = p; next = first xs }))
      × (has a xs ≡ false)
      × Chain h xs

  pub packets-append : (xs ys : Cells D) → packets (xs ++ ys) ≡ packets xs ++ packets ys
  packets-append [] ys = refl
  packets-append ((a, p) ∷ xs) ys = ground (arith, packets-append xs ys)

  pub Chain-rest : (h : Heap D) (xs : Cells D) → Chain h xs → Chain h (rest xs)
  Chain-rest h [] ch = tt
  Chain-rest h ((a, p) ∷ xs) ch = ch.3

  -- A change to the cells leaves the other addresses alone, and queues none of them.
  abbrev pub Framed : Heap D → Cells D → Heap D → Cells D → Type 0
  Framed h xs h' ys = (b : ℕ) → has b xs ≡ false → (h' b ≡ h b) × (has b ys ≡ false)

  -- A write elsewhere spares the cells.
  pub Chain-write :
      (h : Heap D) (a : ℕ) (c : Cell D) (xs : Cells D)
      → has a xs ≡ false
      → Chain h xs
      → Chain (write a c h) xs
  Chain-write h a c [] o ch = tt
  Chain-write h a c ((b, p) ∷ xs) o ch =
      (ch.0, ground arith, ch.2, Chain-write h a c xs (ground arith) ch.3)

  -- The packet at an address, none at null.
  abbrev pub packet_at : Heap D → ℕ → Option (Packet D)
  packet_at h p = if p == 0 then none else elim (h p) [ none ↦ none | some c ↦ some c.packet ]

  pub load_lem :
      (h : Heap D) (a : ℕ) (c : Cell D) → (a == 0) ≡ false → h a ≡ some c → load a h ≡ done c
  unfolding load
  load_lem h a c ne e = ground arith

  pub set_next_lem :
      (h : Heap D) (a n : ℕ) (c : Cell D)
      → (a == 0) ≡ false
      → h a ≡ some c
      → set_next a n h ≡ done (write a (record c { next = n }) h)
  unfolding set_next
  set_next_lem h a n c ne e = rw (load_lem h a c ne e) refl

module _ {D : Type 0} (test : Packet D → Bool) where
  -- The address of the first packet that passes the test, or 0; the address before it; the address
  -- behind it; and the cells without it.
  abbrev pub hit : Cells D → ℕ
  hit [] = 0
  hit ((a, p) ∷ xs) = if test p then a else hit xs

  abbrev pub before : ℕ → Cells D → ℕ
  before prev [] = prev
  before prev ((a, p) ∷ xs) = if test p then prev else before a xs

  abbrev pub after : Cells D → ℕ
  after [] = 0
  after ((a, p) ∷ xs) = if test p then first xs else after xs

  abbrev pub erase : Cells D → Cells D
  erase [] = []
  erase ((a, p) ∷ xs) = if test p then xs else (a, p) ∷ erase xs

  pub packets-erase : (xs : Cells D) → packets (erase xs) ≡ remove_first test (packets xs)
  packets-erase [] = refl
  packets-erase ((a, p) ∷ xs) = ground (arith, packets-erase xs)

  pub has-erase : (b : ℕ) (xs : Cells D) → has b xs ≡ false → has b (erase xs) ≡ false
  has-erase b [] o = refl
  has-erase b ((a, p) ∷ xs) o = ground (arith, has-erase b xs)

  pub length-erase :
      (xs : Cells D) → any test (packets xs) ≡ true → suc (length (erase xs)) ≡ length xs
  length-erase [] m = cc
  length-erase ((a, p) ∷ xs) m = ground (arith, length-erase xs)

  pub packet_at-hit :
      (h : Heap D) (xs : Cells D) → Chain h xs → packet_at h (hit xs) ≡ find test (packets xs)
  packet_at-hit h [] ch = refl
  packet_at-hit h ((a, p) ∷ xs) ch = elim (Bool-cases (test p)) [
    | inl found ↦ rw found (ground arith)
    | inr missed ↦ rw missed (packet_at-hit h xs ch.3)
  ]

  -- A search hits one of the cells, or none passes the test.
  pub hit-none :
      (h : Heap D) (xs : Cells D) → Chain h xs → any test (packets xs) ≡ false → hit xs ≡ 0
  hit-none h [] ch m = refl
  hit-none h ((a, p) ∷ xs) ch m = ground (arith, hit-none h xs ch.3)

  pub hit-some :
      (h : Heap D) (xs : Cells D)
      → Chain h xs
      → any test (packets xs) ≡ true
      → (has (hit xs) xs ≡ true) × ((hit xs == 0) ≡ false)
  hit-some h [] ch m = cc
  hit-some h ((a, p) ∷ xs) ch m = elim (Bool-cases (test p)) [
    | inl y ↦ rw y (rw (==_refl a) refl, ch.0)
    | inr n ↦
        let rest : (has (hit xs) xs ≡ true) × ((hit xs == 0) ≡ false) =
          hit-some h xs ch.3 (ground arith) in
        ground arith
  ]

module _ {D : Type 0} where
  pub length-packets : (xs : Cells D) → length (packets xs) ≡ length xs
  length-packets [] = refl
  length-packets ((a, p) ∷ xs) = ground (arith, length-packets xs)
