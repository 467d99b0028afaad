-- ===== src/Agent/Invariant/Waiting/Dropped.antt =====
-- The loops over the packets that wait for a route which is given up, or which is down.
use ns2_te_aomdv.Base.{
  ◌∙◌, ap, List, [], ℕ, zero, suc, ◌<◌, ◌≡◌, refl, sym, subst, Bool, true, false, not, Option, none,
  some, ◌∷◌, length, length-keep-le, arith, Double, done,
}
use ns2_te_aomdv.Packet.{Packet}
use ns2_te_aomdv.Entry.{Entry, is_up}
use ns2_te_aomdv.Table.{rt_lookup}
use ns2_te_aomdv.Queue.{Queue, Reason, is_for}
use ns2_te_aomdv.Queue.Purge.{IsCounted, is_fresh}
use ns2_te_aomdv.Queue.Laws.{served, waiting, deque_lem}
use ns2_te_aomdv.Agent.State.{
  M, Env, Agent, ◌>>=◌, ◌>>◌, Effect, skip, entry, set_entry, when, emit, dropped,
}
use ns2_te_aomdv.Agent.Forward.{forward, no_delay}
use ns2_te_aomdv.Agent.Request.{drop_waiting, drop_all_waiting}
use ns2_te_aomdv.Agent.RecvRequest.Answer.{serve_waiting, route_is_up, reset_soft_state}
use ns2_te_aomdv.Agent.Invariant.{
  IsGood, IsBounded, IsValid, Post, returns, then-Post, weaken-Post, entry-Post,
}
use ns2_te_aomdv.Agent.Invariant.Deletion.{set_entry-Keeps}
use ns2_te_aomdv.Agent.Invariant.Waiting.{
  valid-Keeps, others, mine, served-none, served-some, served-others, served-lt, rest,
  serve_waiting-Post,
}

module _ {D : Type 0} ⦃fl : Double D⦄ (env : Env D) (dst : ℕ) where
  -- The reports of dropped packets, the first packet's first.
  abbrev pub reports : Reason → List (Packet D) → List (Effect D) → List (Effect D)
  reports why [] es = es
  reports why (p ∷ ps) es = reports why ps (dropped p why ∷ es)

  -- What the invariant needs of the state after `drop_all_waiting`.
  pub record Dropped (why : Reason) (s s' : Agent D) : Type 0 where
    pub bounded : IsBounded s'.rqueue
    pub same : s'.rtable ≡ s.rtable
    pub others : s'.nbhead ≡ s.nbhead
    pub limit : s'.max_paths ≡ s.max_paths

  -- The queue with just the packets for other destinations that have not timed out.
  abbrev pub left_over : Queue D → Queue D
  left_over q = record q { items = others env dst q; len = length (others env dst q) }

  -- The agent with these, when the packets for the destination were dropped for the reason given.
  abbrev pub all_dropped : Reason → Agent D → Agent D
  all_dropped why s = record s {
    rqueue = left_over s.rqueue;
    effects = reports why (mine env dst s.rqueue) s.effects;
  }

  left_over-none :
      (q : Queue D) → (served env.now dst q).0 ≡ none → (served env.now dst q).1 ≡ left_over q
  left_over-none q h =
      ap (λ ps. record q { items = ps; len = length ps }) (served-none env dst q h).0

  left_over-served : (q : Queue D) → left_over (served env.now dst q).1 ≡ left_over q
  left_over-served q = ap (λ ps. record q { items = ps; len = length ps }) (served-others env dst q)

  -- With more fuel than packets in the queue, the loop that drops the waiting packets ends.
  drop_waiting_lem :
      (fuel : ℕ) (why : Reason) (s : Agent D)
      → IsCounted s.rqueue
      → length s.rqueue.items < fuel
      → drop_waiting env fuel dst why s ≡ done (tt, all_dropped why s)
  unfolding drop_waiting
  drop_waiting_lem zero why s c h = elim h [ ]
  drop_waiting_lem (suc fuel) why s c h =
      rw (deque_lem env.now dst s.rqueue c)
        (go _ refl λ s' c' l. drop_waiting_lem fuel why s' c' (omega (arith, l)))
    where
      go :
          (o : Option (Packet D))
          → (served env.now dst s.rqueue).0 ≡ o
          → ((s' : Agent D)
              → IsCounted s'.rqueue
              → length s'.rqueue.items < length s.rqueue.items
              → drop_waiting env fuel dst why s' ≡ done (tt, all_dropped why s'))
          → (elim o as (λ _. M D (Unit {0})) [
            | none ↦ skip
            | some p ↦ (do emit (dropped p why); drop_waiting env fuel dst why)
          ])
              (rest env dst s)
            ≡ done (tt, all_dropped why s)
      go none q next =
          ap (λ r. done (tt, r))
            (ap (λ r. record s { rqueue = r }) (left_over-none s.rqueue q)
              ∙ sym (
                  ap
                    (λ ps. record s {
                      rqueue = left_over s.rqueue;
                      effects = reports why ps s.effects;
                    })
                    (served-none env dst s.rqueue q).1))
      go (some p) q next =
          next (record (rest env dst s) { effects = dropped p why ∷ s.effects }) refl
            (served-lt env dst s.rqueue p q)
          ∙ ap (λ r. done (tt, r))
              (ap
                  (λ r. record s {
                    rqueue = r;
                    effects =
                        reports why (mine env dst (served env.now dst s.rqueue).1)
                          (dropped p why ∷ s.effects);
                  })
                  (left_over-served s.rqueue)
                ∙ sym (
                    ap
                      (λ ps. record s {
                        rqueue = left_over s.rqueue;
                        effects = reports why ps s.effects;
                      })
                      (served-some env dst s.rqueue p q)))

  -- When a destination is given up, on a queue whose length is right, the code returns: every packet
  -- for the destination that has not timed out is dropped for the reason given, in order, the queue has
  -- just the packets for other destinations that have not timed out, and nothing else has changed.
  pub drop_all_waiting_lem :
      (why : Reason) (s : Agent D)
      → IsCounted s.rqueue
      → drop_all_waiting env dst why s ≡ done (tt, all_dropped why s)
  unfolding drop_all_waiting
  drop_all_waiting_lem why s c = drop_waiting_lem _ why s c (omega arith)

  -- The queue stays within its limit, and the routing table and the neighbours are as they were.
  pub drop_all_waiting-Post :
      (why : Reason) (s : Agent D)
      → IsBounded s.rqueue
      → Post (λ _. Dropped why s) (drop_all_waiting env dst why s)
  drop_all_waiting-Post why s b = rw (drop_all_waiting_lem why s b.counted) (
      returns (record {
        bounded = record {
          counted = refl;
          within = ground (
            arith,
            b,
            length-keep-le (λ p. not (is_for dst p)) (waiting env.now s.rqueue),
            length-keep-le (is_fresh env.now) s.rqueue.items,
          );
          positive = b.positive;
        };
        same = refl;
        others = refl;
        limit = refl;
      }))

  -- The entry for the destination is not up: the loop over the packets that wait for it takes each of
  -- them out of the queue, and none is sent or reported as dropped.
  pub serve_waiting_lost :
      (fuel : ℕ) (e : Entry D) (s : Agent D)
      → rt_lookup s.rtable dst ≡ some e
      → is_up e.flags ≡ false
      → IsCounted s.rqueue
      → length s.rqueue.items < fuel
      → serve_waiting env fuel dst s ≡ done (tt, record s { rqueue = left_over s.rqueue })
  unfolding serve_waiting
  serve_waiting_lost zero e s at down c h = elim h [ ]
  serve_waiting_lost (suc fuel) e s at down c h =
      rw (deque_lem env.now dst s.rqueue c)
        (go _ refl λ s' at' c' l. serve_waiting_lost fuel e s' at' down c' (omega (arith, l)))
    where
      go :
          (o : Option (Packet D))
          → (served env.now dst s.rqueue).0 ≡ o
          → ((s' : Agent D)
              → rt_lookup s'.rtable dst ≡ some e
              → IsCounted s'.rqueue
              → length s'.rqueue.items < length s.rqueue.items
              → serve_waiting env fuel dst s'
                ≡ done (tt, record s' { rqueue = left_over s'.rqueue }))
          → (elim o as (λ _. M D (Unit {0})) [
            | none ↦ skip
            | some p ↦ (do
              e ← entry dst
              when (is_up e.flags) (forward env (some dst) p no_delay)
              serve_waiting env fuel dst)
          ])
              (rest env dst s)
            ≡ done (tt, record s { rqueue = left_over s.rqueue })
      go none q next = ap (λ r. done (tt, record s { rqueue = r })) (left_over-none s.rqueue q)
      go (some p) q next =
          rw (◌>>=◌, ◌>>◌, entry, at)
            (rw down (
              next (rest env dst s) at refl (served-lt env dst s.rqueue p q)
              ∙ ap (λ r. done (tt, record s { rqueue = r })) (left_over-served s.rqueue)))

  reset-IsGood : (e : Entry D) → IsGood e → IsGood (reset_soft_state env e)
  reset-IsGood e g = record {
    counted = g.counted;
    disjoint = g.disjoint;
    live = g.live;
    few = g.few;
  }

  -- `route_is_up` keeps the agent valid.
  pub route_is_up-Post : (s : Agent D) → IsValid s → Post (λ _. IsValid) (route_is_up env dst s)
  unfolding route_is_up
  route_is_up-Post s v =
      then-Post (entry dst) _ s (entry-Post dst s v.good)
        λ e s1 h1. go (is_up e.flags) s1 (subst IsValid (sym h1.0) v)
    where
      go :
          (b : Bool) (s1 : Agent D)
          → IsValid s1
          → Post
              (λ _. IsValid)
              (when b
                (do
                  set_entry dst (reset_soft_state env)
                  serve_waiting env (suc (length s1.rqueue.items)) dst)
                s1)
      go true s1 v1 =
          weaken-Post (λ _ _ d. d.0)
            (serve_waiting-Post env dst _ _
              (record {
                good =
                    (set_entry-Keeps env s1.rqueue dst _ s1 reset-IsGood (λ _ d. d)
                      (valid-Keeps s1 v1)).good;
                bounded = v1.bounded;
              })
              (omega arith))
      go false s1 v1 = returns v1
