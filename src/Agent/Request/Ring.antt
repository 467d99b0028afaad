-- ===== src/Agent/Request/Ring.antt =====
-- The expanding ring: a discovery that nobody answers ends.
use ns2_te_aomdv.Base.{
  ℕ, suc, ◌+◌, ◌-◌, ◌<◌, ◌≤◌, ◌≡◌, refl, ◌∙◌, true, false, some, List, [], ◌∷◌, length, ltb, ◌==◌,
  if◌then◌else◌, find-update_first, update_first, arith, Bool-cases, inl, inr, Double, ◌≺◌, ◌⊕◌,
  done,
}
use ns2_te_aomdv.Packet.{Packet, u32}
use ns2_te_aomdv.Entry.{Entry, is_up}
use ns2_te_aomdv.Table.{rt_lookup, has_dst}
use ns2_te_aomdv.Queue.{no_route}
use ns2_te_aomdv.Queue.Purge.{IsCounted}
use ns2_te_aomdv.Agent.State.{Env, Agent, ◌>>=◌, ◌>>◌, entry, scheduled, freed}
use ns2_te_aomdv.Agent.Routes.{is_even}
use ns2_te_aomdv.Agent.Request.{
  ring, next_ttl, requested, emit_request, give_up, send_request, request_packet,
}
use ns2_te_aomdv.Agent.Invariant.Waiting.{mine}
use ns2_te_aomdv.Agent.Invariant.Waiting.Dropped.{left_over, reports, drop_all_waiting_lem}

-- How many requests come before the first one through the whole network.
phase : ℕ → ℕ
phase last =
    if last == 0
    then 2
    else if ltb last 3
    then 3
    else if ltb last 5
    then 2
    else if ltb last 7
    then 1
    else 0

module _ {D : Type 0} where
  -- How many requests come before the node gives up.
  left : Entry D → ℕ
  unfolding phase
  left e = phase (ring e.req_last_ttl e.last_hop_count) + (4 - e.req_cnt)

  left-le : (e : Entry D) → left e ≤ 7
  unfolding left phase
  left-le e = ground arith

module _ {D : Type 0} ⦃fl : Double D⦄ where
  left-requested :
      (env : Env D) (e : Entry D) → e.req_cnt ≤ 3 → suc (left (requested env e)) ≤ left e
  unfolding left phase requested next_ttl
  left-requested env e c = ground arith

  -- The entry after a discovery that nobody answered: the counting begins anew.
  abbrev pub forsaken : Env D → Entry D → Entry D
  forsaken env e = record e { req_timeout = env.now ⊕ fl.lit 1 1; req_cnt = 0 }

  -- The agent that has given the destination up: the packets for it are dropped.
  abbrev pub given_up : Env D → ℕ → Agent D → Agent D
  given_up env dst s = record s {
    rtable = update_first (has_dst dst) (forsaken env) s.rtable;
    rqueue = left_over env dst s.rqueue;
    effects = freed env.blank ∷ reports env dst no_route (mine env dst s.rqueue) s.effects;
  }

  pub give_up_lem :
      (env : Env D) (dst : ℕ) (s : Agent D)
      → IsCounted s.rqueue
      → give_up env dst s ≡ done (tt, given_up env dst s)
  unfolding give_up
  give_up_lem env dst s c =
      rw
        (
          ◌>>=◌,
          ◌>>◌,
          drop_all_waiting_lem env dst no_route
              (record s { rtable = update_first (has_dst dst) (forsaken env) s.rtable }) c,
        )
        refl

  -- Calls of `sendRequest` at the given times, of which the last gives up, and each one before it sends
  -- one request.
  pub data GivesUp (dst : ℕ) : List (Env D) → Agent D → Type 0 where
    at_once :
        {env : Env D} {envs : List (Env D)} {s : Agent D}
        → send_request env dst s ≡ done (tt, given_up env dst s)
        → GivesUp dst (env ∷ envs) s
    later :
        {env : Env D} {envs : List (Env D)} {s s' : Agent D} {p : Packet D}
        → send_request env dst s ≡ done (tt, s')
        → s'.effects ≡ scheduled p (fl.lit 0 1) ∷ s.effects
        → GivesUp dst envs s'
        → GivesUp dst (env ∷ envs) s

  -- Each time is past the time-out that the entry has then.
  abbrev pub IsPatient : List (Env D) → Entry D → Type 0
  IsPatient [] e = Unit
  IsPatient (env ∷ envs) e = ((env.now ≺ e.req_timeout) ≡ false) × IsPatient envs (requested env e)

  -- A call past the time-out, for an entry that is not up.
  pub send_request-asks :
      (env : Env D) (dst : ℕ) (e : Entry D) (s : Agent D)
      → rt_lookup s.rtable dst ≡ some e
      → is_up e.flags ≡ false
      → (env.now ≺ e.req_timeout) ≡ false
      → send_request env dst s
        ≡ (if ltb 3 e.req_cnt then give_up env dst s else emit_request env dst s)
  unfolding send_request
  send_request-asks env dst e s h down past =
      rw (◌>>=◌, ◌>>◌, h) (rw (◌>>=◌, entry, h) (rw (down, past) (ground arith)))

  -- What `emit_request` leaves.
  abbrev pub asked : Env D → ℕ → Entry D → Agent D → Agent D
  asked env dst e s =
      let e' = requested env e in
      let seqno = u32 (s.seqno + 2) in
      record s {
        bid = u32 (s.bid + 1);
        seqno = seqno;
        rtable = update_first (has_dst dst) (requested env) s.rtable;
        effects =
            scheduled
              (request_packet env
                (record s { rtable = update_first (has_dst dst) (requested env) s.rtable }) dst
                e'.seqno seqno e'.req_last_ttl)
              (fl.lit 0 1)
            ∷ s.effects;
      }

  requested-dst :
      (env : Env D) (dst : ℕ) (e : Entry D)
      → has_dst dst e ≡ true
      → has_dst dst (requested env e) ≡ true
  unfolding requested
  requested-dst env dst e h = ground arith

  pub emit_request_lem :
      (env : Env D) (dst : ℕ) (e : Entry D) (s : Agent D)
      → rt_lookup s.rtable dst ≡ some e
      → is_even (u32 (s.seqno + 2)) ≡ true
      → emit_request env dst s ≡ done (tt, asked env dst e s)
  unfolding emit_request rt_lookup
  emit_request_lem env dst e s h even =
      rw
        (
          ◌>>=◌,
          ◌>>◌,
          entry,
          find-update_first (has_dst dst) (requested env) s.rtable e (requested-dst env dst) h,
        )
        (rw even refl)

  asked-found :
      (env : Env D) (dst : ℕ) (e : Entry D) (s : Agent D)
      → rt_lookup s.rtable dst ≡ some e
      → rt_lookup (asked env dst e s).rtable dst ≡ some (requested env e)
  unfolding rt_lookup
  asked-found env dst e s h =
      find-update_first (has_dst dst) (requested env) s.rtable e (requested-dst env dst) h

  requested-down : (env : Env D) (e : Entry D) → is_up (requested env e).flags ≡ is_up e.flags
  unfolding requested
  requested-down env e = refl

  -- For an entry that is not up, a node whose number is even, and a queue whose length is right: of 8
  -- calls of `sendRequest`, one after the other with nothing in between, each past the time-out that
  -- the entry has then, one gives up, and each before it sends one request. The one that gives up
  -- reports each packet for the destination that has not timed out as dropped, in order, leaves in the
  -- queue just the packets for other destinations that have not timed out, and sets the entry's count
  -- of requests to 0 and its time-out to one second from then.
  pub send_request-GivesUp :
      (dst : ℕ) (envs : List (Env D)) (e : Entry D) (s : Agent D)
      → rt_lookup s.rtable dst ≡ some e
      → is_up e.flags ≡ false
      → is_even s.seqno ≡ true
      → IsCounted s.rqueue
      → IsPatient envs e
      → length envs ≡ 8
      → GivesUp dst envs s
  send_request-GivesUp dst envs e s h down even c wait l =
      go envs e s h down even c wait (omega (arith, left-le e))
    where
      go :
          (envs : List (Env D)) (e : Entry D) (s : Agent D)
          → rt_lookup s.rtable dst ≡ some e
          → is_up e.flags ≡ false
          → is_even s.seqno ≡ true
          → IsCounted s.rqueue
          → IsPatient envs e
          → left e < length envs
          → GivesUp dst envs s
      go [] e s h down even c wait l = elim l [ ]
      go (env ∷ envs) e s h down even c wait l = elim (Bool-cases (ltb 3 e.req_cnt)) [
        | inl wide ↦
            at_once
              (send_request-asks env dst e s h down wait.0 ∙ rw wide (give_up_lem env dst s c))
        | inr narrow ↦
            let even' : is_even (u32 (s.seqno + 2)) ≡ true = ground arith in
            later
              (send_request-asks env dst e s h down wait.0
                ∙ rw narrow (emit_request_lem env dst e s h even'))
              refl
              (go envs (requested env e) (asked env dst e s) (asked-found env dst e s h)
                (requested-down env e ∙ down) even' c wait.1
                (omega (arith, left-requested env e (ground arith))))
      ]
