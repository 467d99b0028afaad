-- ===== src/Agent/Seqno.antt =====
-- The sequence number with which a node answers a request for itself.
use ns2_te_aomdv.Base.{ℕ, ◌+◌, ◌^◌, ◌<◌, ◌≤◌, ◌≡◌, true, arith, Double}
use ns2_te_aomdv.Agent.State.{Env}
use ns2_te_aomdv.Agent.Routes.{is_even}
use ns2_te_aomdv.Agent.RecvRequest.Answer.{reply_seqno}

module _ {D : Type 0} ⦃fl : Double D⦄ (env : Env D) where
  -- If neither the own number nor the one asked for is within 3 of the end of 32 bits, the number of the
  -- reply is even, not below the own one, above the one asked for, and within 32 bits.
  pub reply_seqno_lem :
      (seqno asked : ℕ)
      → seqno + 3 < 2 ^ 32
      → asked + 3 < 2 ^ 32
      → let r = reply_seqno env seqno asked in
        (is_even r ≡ true) × (seqno ≤ r) × (asked < r) × (r < 2 ^ 32)
  unfolding reply_seqno
  reply_seqno_lem seqno asked h k = ground arith
