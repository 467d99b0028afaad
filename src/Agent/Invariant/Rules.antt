-- ===== src/Agent/Invariant/Rules.antt =====
-- The rules by which the handlers are shown to keep the agent valid, one for each kind of step.
use ns2_te_aomdv.Base.{
  ℕ, sym, subst, Bool, true, false, Option, none, some, if◌then◌else◌, update_first, Double,
  Outcome, Option-cases, List, ◌≡◌, find-key, KeepsKey, ne_of_none, inl, inr,
}
use ns2_te_aomdv.Entry.{Entry}
use ns2_te_aomdv.Table.{rt_lookup, rt_add, has_dst}
use ns2_te_aomdv.Table.Unique.{key}
use ns2_te_aomdv.Neighbor.{Neighbor}
use ns2_te_aomdv.Neighbor.Evidence.{IsSound}
use ns2_te_aomdv.Agent.State.{M, Env, Agent, entry, when, assert, has_addr}
use ns2_te_aomdv.Agent.Neighbors.{nb_insert}
use ns2_te_aomdv.Agent.Forward.{deref}
use ns2_te_aomdv.Agent.Resolve.{find_or_add}
use ns2_te_aomdv.Agent.RecvRequest.Answer.{advertise}
use ns2_te_aomdv.Agent.Invariant.{
  IsGood, IsStored-set, IsStored-neighbor, addr_of, IsValid, Keeps, Post, returns, stops,
  weaken-Post, entry-Post,
}
use ns2_te_aomdv.Agent.Invariant.Entries.{new_entry-IsGood}
use ns2_te_aomdv.Agent.Invariant.Forward.{nb_insert-Post}
use ns2_te_aomdv.Agent.Invariant.Waiting.{valid-Keeps, Keeps-IsValid}

module _ {D : Type 0} where
  abbrev pub Valid : {A : Type 0} → A → Agent D → Type 0
  Valid _ = IsValid

  -- A method that keeps the table good and leaves the queue alone.
  pub stay :
      {A : Type 0} (s : Agent D) {o : Outcome (A × Agent D)}
      → IsValid s
      → Post (λ _. Keeps s.rqueue) o
      → Post Valid o
  stay s v h = weaken-Post (λ _ s' k. Keeps-IsValid s.rqueue s' v.bounded k) h

  pub if-Post :
      {A : Type 0} (P : A → Agent D → Type 0) (b : Bool) (m k : M D A) (s : Agent D)
      → Post P (m s)
      → Post P (k s)
      → Post P ((if b then m else k) s)
  if-Post P true m k s h i = h
  if-Post P false m k s h i = i

  pub when-Post :
      (b : Bool) (m : M D (Unit {0})) (s : Agent D)
      → IsValid s
      → Post Valid (m s)
      → Post Valid (when b m s)
  when-Post true m s v h = h
  when-Post false m s v h = returns v

  pub deref-Valid : {A : Type 0} (o : Option A) (s : Agent D) → IsValid s → Post Valid (deref o s)
  deref-Valid none s v = stops (λ e. cc)
  deref-Valid (some a) s v = returns v

  pub assert-Valid : (b : Bool) (s : Agent D) → IsValid s → Post Valid (assert b s)
  assert-Valid true s v = returns v
  assert-Valid false s v = stops (λ e. cc)

  pub set_entry-IsValid :
      (dst : ℕ) (f : Entry D → Entry D) (s : Agent D)
      → ((e : Entry D) → IsGood e → IsGood (f e))
      → KeepsKey key dst f
      → IsValid s
      → IsValid (record s { rtable = update_first (has_dst dst) f s.rtable })
  set_entry-IsValid dst f s h k v = record {
    good = IsStored-set dst f s.rtable s.nbhead s.max_paths h k v.good;
    bounded = v.bounded;
  }

  pub set_neighbor-IsValid :
      (id : ℕ) (f : Neighbor D → Neighbor D) (s : Agent D)
      → ((nb : Neighbor D) → IsSound nb → IsSound (f nb))
      → KeepsKey addr_of id f
      → IsValid s
      → IsValid (record s { nbhead = update_first (has_addr id) f s.nbhead })
  set_neighbor-IsValid id f s h k v = record {
    good = IsStored-neighbor id f s.rtable s.nbhead s.max_paths h k v.good;
    bounded = v.bounded;
  }

  pub mark_error-IsGood : (e : Entry D) → IsGood e → IsGood (record e { error = true })
  mark_error-IsGood e g = record {
    counted = g.counted;
    disjoint = g.disjoint;
    live = g.live;
    few = g.few;
  }

module _ {D : Type 0} ⦃fl : Double D⦄ (env : Env D) where
  pub advertise-IsGood : (e : Entry D) → IsGood e → IsGood (advertise env e)
  advertise-IsGood e g = record {
    counted = g.counted;
    disjoint = g.disjoint;
    live = g.live;
    few = g.few;
  }

  rt_lookup-key :
      (dst : ℕ) (table : List (Entry D)) (e : Entry D) → rt_lookup table dst ≡ some e → e.dst ≡ dst
  unfolding rt_lookup
  rt_lookup-key dst table e h = find-key key dst table e h

  pub entry-Valid :
      (dst : ℕ) (s : Agent D)
      → IsValid s
      → Post (λ e s'. IsGood e × IsValid s' × (e.dst ≡ dst)) (entry dst s)
  entry-Valid dst s v =
      weaken-Post (λ e s' h. (h.1, subst IsValid (sym h.0) v, rt_lookup-key dst s.rtable e h.2))
        (entry-Post dst s v.good)

  pub find_or_add-Post : (dst : ℕ) (s : Agent D) → IsValid s → Post Valid (find_or_add env dst s)
  unfolding find_or_add rt_add rt_lookup
  find_or_add-Post dst s v = elim (Option-cases (rt_lookup s.rtable dst)) [
    | inr known ↦ rw (known.1, find_or_add) (returns v)
    | inl new ↦
        rw (new, find_or_add)
          (returns (record {
            good = record {
              entries = (new_entry-IsGood env env.garbage_hops dst, v.good.entries);
              unique = (ne_of_none key dst s.rtable new, v.good.unique);
              sound = v.good.sound;
              once = v.good.once;
              limit = v.good.limit;
            };
            bounded = v.bounded;
          }))
  ]

  pub when-nb_insert-Valid :
      (b : Bool) (id : ℕ) (s : Agent D) → IsValid s → Post Valid (when b (nb_insert env id) s)
  when-nb_insert-Valid true id s v = stay s v (nb_insert-Post env s.rqueue id s (valid-Keeps s v))
  when-nb_insert-Valid false id s v = returns v
