-- ===== src/Agent/Request/Branches.antt =====
-- teaomdv/teaomdv.cc: what `sendRequest` does, on every branch.
use ns2_te_aomdv.Base.{
  ℕ, ◌+◌, ◌≡◌, refl, ◌∙◌, subst, true, false, ◌&&◌, ◌||◌, some, ◌∷◌, ltb, leb, ◌==◌, if◌then◌else◌,
  Bool-cases, inl, inr, arith, Double, ◌≺◌, done,
}
use ns2_te_aomdv.Packet.{u32}
use ns2_te_aomdv.Entry.{Entry, is_up, infinity2}
use ns2_te_aomdv.Table.{rt_lookup}
use ns2_te_aomdv.Queue.Purge.{IsCounted}
use ns2_te_aomdv.Agent.State.{Env, Agent, ◌>>=◌, ◌>>◌, entry, freed}
use ns2_te_aomdv.Agent.Routes.{is_even}
use ns2_te_aomdv.Agent.Request.{send_request}
use ns2_te_aomdv.Agent.Request.Ring.{
  asked, given_up, give_up_lem, emit_request_lem, send_request-asks,
}

module _ {D : Type 0} ⦃fl : Double D⦄ where
  -- The agent after `sendRequest`, of which the entry for the destination is `e`.
  abbrev pub after_request : Env D → ℕ → Entry D → Agent D → Agent D
  after_request env dst e s =
      if is_up e.flags || (env.now ≺ e.req_timeout)
      then record s { effects = freed env.blank ∷ s.effects }
      else if leb e.req_cnt 3
      then asked env dst e s
      else given_up env dst s

  -- For a destination that the table has, of which `rt_hops` is not infinity if it is up, a node whose
  -- number is even and a queue whose length is right, `sendRequest` returns. It only frees its packet if
  -- the route is up, or the time-out of the last request is not over. Otherwise, if at most
  -- RREQ_RETRIES = 3 requests are counted, it changes the entry as `requested` says, raises the number
  -- of this node by 2 and its broadcast id by 1, and sends one packet, which `request_packet` makes
  -- from the entry, the raised number and the id before; and if more are counted, it gives up: each packet for the destination that has not
  -- timed out is reported as dropped, in order, just the packets for other destinations that have not
  -- timed out are left in the queue, and the count is 0 and the time-out one second from now.
  pub send_request_lem :
      (env : Env D) (dst : ℕ) (e : Entry D) (s : Agent D)
      → rt_lookup s.rtable dst ≡ some e
      → (is_up e.flags && (e.hops == infinity2)) ≡ false
      → is_even s.seqno ≡ true
      → IsCounted s.rqueue
      → send_request env dst s ≡ done (tt, after_request env dst e s)
  unfolding send_request
  send_request_lem env dst e s h finite even c = elim (Bool-cases (is_up e.flags)) [
    | inl up ↦
        rw (◌>>=◌, ◌>>◌, h)
          (rw (◌>>=◌, entry, h)
            (rw up (rw (subst (λ t. (t && (e.hops == infinity2)) ≡ false) up finite) refl)))
    | inr down ↦ elim (Bool-cases (env.now ≺ e.req_timeout)) [
      | inl early ↦ rw (◌>>=◌, ◌>>◌, h) (rw (◌>>=◌, entry, h) (rw (down, early) refl))
      | inr past ↦ elim (Bool-cases (ltb 3 e.req_cnt)) [
        | inl wide ↦
            let more : leb e.req_cnt 3 ≡ false = ground arith in
            send_request-asks env dst e s h down past
            ∙ rw (down, past, wide, more) (give_up_lem env dst s c)
        | inr narrow ↦
            let few : leb e.req_cnt 3 ≡ true = ground arith in
            let even' : is_even (u32 (s.seqno + 2)) ≡ true = ground arith in
            send_request-asks env dst e s h down past
            ∙ rw (down, past, narrow, few) (emit_request_lem env dst e s h even')
      ]
    ]
  ]
