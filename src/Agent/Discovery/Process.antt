-- ===== src/Agent/Discovery/Process.antt =====
-- A request that comes to its destination: how `recvRequest` goes on with it, once it is not refused.
use ns2_te_aomdv.Base.{
  ℕ, ◌<◌, ◌≡◌, refl, ap, ◌∙◌, Bool, true, Option, none, some, List, ◌∷◌, find-update_first,
  find-passes, update_first, ltb, ◌==◌, ==_refl, Option-cases, inl, inr, arith, Double, done,
}
use ns2_te_aomdv.Packet.{Packet, Request}
use ns2_te_aomdv.Entry.{Entry, new_entry, is_up, path_insert, path_delete_all}
use ns2_te_aomdv.Neighbor.{Neighbor}
use ns2_te_aomdv.Table.{rt_lookup, rt_add, has_dst}
use ns2_te_aomdv.Queue.Purge.{IsCounted}
use ns2_te_aomdv.Queue.Laws.{served, deque_lem}
use ns2_te_aomdv.Agent.State.{Env, Agent, ◌>>=◌, ◌>>◌, nb_lookup}
use ns2_te_aomdv.Agent.Resolve.{find_or_add}
use ns2_te_aomdv.Agent.RecvRequest.{renew, add_path, reverse_expire, learn_reverse}
use ns2_te_aomdv.Agent.RecvRequest.Answer.{
  reset_soft_state, serve_waiting, route_is_up, answer, process_request,
}
use ns2_te_aomdv.Agent.Discovery.{answered, reply_own_lem}

module _ {D : Type 0} ⦃fl : Double D⦄ (env : Env D) where
  -- The route to the source is set up anew.
  abbrev pub back : Packet D → Request D → Entry D → Entry D
  back p rq e =
      add_path env (renew env e rq.rq_src_seqno) p.saddr rq.rq_hop_count (reverse_expire env)
        rq.rq_first_hop rq.fpt rq.rpt

  abbrev pub flushed : ℕ → Agent D → Agent D
  flushed dst s = record s {
    rtable = update_first (has_dst dst) (reset_soft_state env) s.rtable;
    rqueue = (served env.now dst s.rqueue).1;
  }

  -- The entry for the source, given what the table has of it; it is added if there is none.
  abbrev pub known_or_new : ℕ → Option (Entry D) → Entry D
  known_or_new src none = record (new_entry env.garbage_hops) { dst = src }
  known_or_new src (some e) = e

  abbrev pub extended : ℕ → Option (Entry D) → List (Entry D) → List (Entry D)
  extended src none t = known_or_new src none ∷ t
  extended src (some e) t = t

  abbrev pub prepared : ℕ → Agent D → Agent D
  prepared src s = record s { rtable = extended src (rt_lookup s.rtable src) s.rtable }

  pub find_or_add-prepared :
      (src : ℕ) (s : Agent D) → find_or_add env src s ≡ done (tt, prepared src s)
  unfolding find_or_add rt_add
  find_or_add-prepared src s = elim (Option-cases (rt_lookup s.rtable src)) [
    | inl absent ↦ rw (◌>>=◌, absent) refl
    | inr there ↦ rw (◌>>=◌, there.1) refl
  ]

  pub lookup-extended :
      (src : ℕ) (o : Option (Entry D)) (t : List (Entry D))
      → rt_lookup t src ≡ o
      → rt_lookup (extended src o t) src ≡ some (known_or_new src o)
  unfolding rt_lookup
  lookup-extended src none t h = rw (==_refl src) refl
  lookup-extended src (some e) t h = h

  pub route_is_up-idle :
      (dst : ℕ) (e : Entry D) (s : Agent D)
      → rt_lookup s.rtable dst ≡ some e
      → is_up e.flags ≡ true
      → IsCounted s.rqueue
      → (served env.now dst s.rqueue).0 ≡ none
      → route_is_up env dst s ≡ done (tt, flushed dst s)
  unfolding route_is_up serve_waiting
  route_is_up-idle dst e s there up counted idle =
      rw (◌>>=◌, there) (rw up (rw (deque_lem env.now dst s.rqueue counted) (rw idle refl)))

  abbrev pub learnt : Packet D → Request D → Entry D → Agent D → Agent D
  learnt p rq e s = record s {
    rtable = update_first (has_dst rq.rq_src) (λ _. back p rq e) s.rtable;
  }

  pub back-found :
      (p : Packet D) (rq : Request D) (e : Entry D) (s : Agent D)
      → rt_lookup s.rtable rq.rq_src ≡ some e
      → rt_lookup (learnt p rq e s).rtable rq.rq_src ≡ some (back p rq e)
  unfolding rt_lookup renew add_path path_insert path_delete_all
  back-found p rq e s there =
      find-update_first (has_dst rq.rq_src) (λ _. back p rq e) s.rtable e
        (λ _ _. find-passes (has_dst rq.rq_src) s.rtable e there) there

  pub process_request-reply :
      (kill : Bool) (p : Packet D) (rq : Request D) (nb : Neighbor D) (e : Entry D) (s : Agent D)
      → nb_lookup p.saddr s ≡ some nb
      → known_or_new rq.rq_src (rt_lookup s.rtable rq.rq_src) ≡ e
      → e.seqno < rq.rq_src_seqno
      → rq.rq_dst ≡ s.index
      → IsCounted s.rqueue
      → (served env.now rq.rq_src s.rqueue).0 ≡ none
      → process_request env kill p rq s
        ≡ done (
          tt,
          answered env env p rq nb (flushed rq.rq_src (learnt p rq e (prepared rq.rq_src s))),
        )
  unfolding process_request learn_reverse answer renew add_path path_insert path_delete_all
      nb_lookup
  process_request-reply kill p rq nb e s known is_entry newer mine counted idle =
      let s1 : Agent D = prepared rq.rq_src s in
      let there : rt_lookup s1.rtable rq.rq_src ≡ some e =
        lookup-extended rq.rq_src _ s.rtable refl ∙ ap some is_entry in
      let news : ltb e.seqno rq.rq_src_seqno ≡ true = ground arith in
      let me : (rq.rq_dst == s.index) ≡ true = rw mine (==_refl s.index) in
      rw (◌>>=◌, ◌>>◌, find_or_add-prepared rq.rq_src s)
        (rw (◌>>=◌, there)
          (rw news (
            rw
              (
                ◌>>=◌,
                ◌>>◌,
                route_is_up-idle rq.rq_src (back p rq e) (learnt p rq e s1)
                    (back-found p rq e s1 there) refl counted idle,
              )
              (rw me
                (reply_own_lem env env p rq nb (flushed rq.rq_src (learnt p rq e s1)) known)))))
