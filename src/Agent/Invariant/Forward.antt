-- ===== src/Agent/Invariant/Forward.antt =====
-- `forward` keeps what is stored good, and does not touch the queue.
use ns2_te_aomdv.Base.{
  KeepsKey, ◌∙◌, ℕ, sym, subst, Bool, true, false, Option, none, some, is_some, update_first,
  if◌then◌else◌, Double, Bool-cases, inl, inr, not, ◌==◌, ◌⊕◌, ◌⊗◌, ◌≺◌, min_d, ◌&&◌,
}
use ns2_te_aomdv.Packet.{Packet, ip_broadcast}
use ns2_te_aomdv.Entry.{Entry, RoutePath, is_up}
use ns2_te_aomdv.Entry.Choice.{path_find}
use ns2_te_aomdv.Entry.Precursors.{pc_insert}
use ns2_te_aomdv.Table.{has_dst}
use ns2_te_aomdv.Table.Unique.{key}
use ns2_te_aomdv.Queue.{Queue}
use ns2_te_aomdv.Neighbor.{trust_threshold}
use ns2_te_aomdv.Agent.State.{
  Env, Agent, ◌>>=◌, ◌>>◌, entry, set_entry, emit, when, nb_lookup, set_head_path, assert, pure,
  draw, scheduled, delivered,
}
use ns2_te_aomdv.Agent.Neighbors.{nb_insert}
use ns2_te_aomdv.Agent.Forward.{
  send_ptas, delete_path, distrust, use_path, check_trust, forward_route, forward_broadcast,
  forward_on, transmit, transmit_some, forward, deref, count_sent, is_cbr, set_fpt,
}
use ns2_te_aomdv.Agent.Invariant.{
  IsGood, IsStored-neighbor, Keeps, Post, returns, stops, then-Post, entry-Post, assert-Post,
}
use ns2_te_aomdv.Agent.Invariant.Evidence.{count_sent-IsSound, count_sent-addr, nb_insert-HasStored}
use ns2_te_aomdv.Agent.Invariant.Entries.{pc_insert-IsGood, pc_insert-dst, set_head_path-IsGood}
use ns2_te_aomdv.Agent.Invariant.Deletion.{Kept, send_ptas-Post, set_entry-Keeps, delete_path-Post}

module _ {D : Type 0} ⦃fl : Double D⦄ (env : Env D) (q : Queue D) where
  mark_error-IsGood : (e : Entry D) → IsGood e → IsGood (record e { error = true })
  mark_error-IsGood e g = record {
    counted = g.counted;
    disjoint = g.disjoint;
    live = g.live;
    few = g.few;
  }

  when-set_entry-Post :
      (b : Bool) (dst : ℕ) (f : Entry D → Entry D) (s : Agent D)
      → ((e : Entry D) → IsGood e → IsGood (f e))
      → KeepsKey key dst f
      → Keeps q s
      → Post (Kept env q) (when b (set_entry dst f) s)
  when-set_entry-Post true dst f s h d k = returns (set_entry-Keeps env q dst f s h d k)
  when-set_entry-Post false dst f s h d k = returns k

  use_path-Post :
      (dst : ℕ) (p : Packet D) (s : Agent D) → Keeps q s → Post (Kept env q) (use_path env dst p s)
  unfolding use_path
  use_path-Post dst p s k =
      then-Post
        (when (not (p.saddr == s.index) && env.is_data p.ptype)
          (set_entry dst λ e. record e { error = true }))
        _ _
        (when-set_entry-Post _ dst _ _ mark_error-IsGood (λ _ d. d)
          (set_entry-Keeps env q dst _ _
            (λ e g. (set_head_path-IsGood (env.now ⊕ fl.lit 10 1) e g).1) (λ _ d. d)
            (record {
              good =
                  IsStored-neighbor p.next_hop (count_sent env p) s.rtable s.nbhead s.max_paths
                    (count_sent-IsSound env p) (λ nb d. count_sent-addr env p nb ∙ d) k.good;
              same = k.same;
            })))
        λ _ s' k'. returns k'

  distrust-Post :
      (dst : ℕ) (p : Packet D) (path : RoutePath D) (s : Agent D)
      → Keeps q s
      → Post (Kept env q) (distrust env dst p path s)
  unfolding distrust
  distrust-Post dst p path s k = then-Post (entry dst) _ s (entry-Post dst s k.good) λ e s1 h1.
      let k1 : Keeps q s1 = subst (Keeps q) (sym h1.0) k in
      then-Post (send_ptas env _ e.pclist) _ s1 (send_ptas-Post env q _ e.pclist s1 k1) λ _ s2 k2.
        then-Post (delete_path env dst path.nexthop) _ s2
          (delete_path-Post env q dst path.nexthop s2 k2)
          λ _ s3 k3. returns (record { good = k3.good; same = k3.same })

  deref-Post : {A : Type 0} (o : Option A) (s : Agent D) → Keeps q s → Post (Kept env q) (deref o s)
  deref-Post none s k = stops (λ e. cc)
  deref-Post (some a) s k = returns k

  check_trust-Post :
      (dst : ℕ) (p : Packet D) (path : RoutePath D) (s : Agent D)
      → Keeps q s
      → Post (Kept env q) (check_trust env dst p path s)
  unfolding check_trust
  check_trust-Post dst p path s k =
      then-Post (deref (nb_lookup path.nexthop s)) _ s (deref-Post _ s k) λ nb s1 k1.
        then-Post
          (when (is_cbr p.ptype) (set_entry dst (set_head_path (set_fpt (min_d path.fpt nb.tv))))) _
          s1 (when-set_entry-Post _ dst _ s1 (λ e g. (set_head_path-IsGood _ e g).0) (λ _ d. d) k1)
          λ _ s2 k2. branch (is_cbr p.ptype && (min_d path.fpt nb.tv ≺ trust_threshold)) s2 k2
    where
      branch :
          (b : Bool) (s2 : Agent D)
          → Keeps q s2
          → Post (Kept env q) (
              (if b
                  then (distrust env dst p path >>= λ _. pure none)
                  else (use_path env dst p >>= λ p'. pure (some p')))
                s2)
      branch true s2 k2 =
          then-Post (distrust env dst p path) _ s2 (distrust-Post dst p path s2 k2)
            λ _ s3 k3. returns k3
      branch false s2 k2 =
          then-Post (use_path env dst p) _ s2 (use_path-Post dst p s2 k2) λ _ s3 k3. returns k3

  pub nb_insert-Post : (id : ℕ) (s : Agent D) → Keeps q s → Post (Kept env q) (nb_insert env id s)
  nb_insert-Post id s k =
      let (nbs, ran, st) = nb_insert-HasStored env id s k.good in
      rw ran (returns (record { good = st; same = k.same }))

  when-nb_insert-Post :
      (b : Bool) (id : ℕ) (s : Agent D)
      → Keeps q s
      → Post (Kept env q) (when b (nb_insert env id) s)
  when-nb_insert-Post true id s k = nb_insert-Post id s k
  when-nb_insert-Post false id s k = returns k

  forward_route-Post :
      (dst : ℕ) (p : Packet D) (s : Agent D)
      → Keeps q s
      → Post (Kept env q) (forward_route env dst p s)
  unfolding forward_route
  forward_route-Post dst p s k = then-Post (entry dst) _ s (entry-Post dst s k.good) λ e s1 h1.
      let k1 : Keeps q s1 = subst (Keeps q) (sym h1.0) k in
      then-Post (assert (is_up e.flags)) _ s1 (assert-Post _ s1) λ _ s2 h2.
        let k2 : Keeps q s2 = subst (Keeps q) (sym h2.0) k1 in
        then-Post (deref (path_find e)) _ s2 (deref-Post _ s2 k2) λ path s3 k3.
          let s4 : Agent D = record s3 {
            rtable = update_first (has_dst dst) (pc_insert p.prev_hop) s3.rtable;
          } in
          then-Post (when (not (is_some (nb_lookup path.nexthop s4))) (nb_insert env path.nexthop))
            _ s4
            (when-nb_insert-Post _ path.nexthop s4 (
              set_entry-Keeps env q dst _ s3 (pc_insert-IsGood p.prev_hop)
                (λ e d. pc_insert-dst p.prev_hop e ∙ d) k3))
            λ _ s5 k5. check_trust-Post dst _ path s5 k5

  forward_on-Post :
      (rt : Option ℕ) (p : Packet D) (s : Agent D)
      → Keeps q s
      → Post (Kept env q) (forward_on env rt p s)
  unfolding forward_on forward_broadcast
  forward_on-Post none p s k =
      then-Post (assert (p.daddr == ip_broadcast)) _ s (assert-Post _ s)
        λ _ s1 h. returns (subst (Keeps q) (sym h.0) k)
  forward_on-Post (some dst) p s k = forward_route-Post dst p s k

  pub transmit-Post :
      (rt : Option ℕ) (delay : D) (p : Packet D) (s : Agent D)
      → Keeps q s
      → Post (Kept env q) (transmit env rt delay p s)
  unfolding transmit
  transmit-Post rt delay p s k = go (p.daddr == ip_broadcast) (is_some rt)
    where
      go :
          (b c : Bool)
          → Post (Kept env q) (
              (if b
                  then (do assert (not c); u ← draw env; emit (scheduled p (fl.lit 1 100 ⊗ u)))
                  else emit (scheduled p (if fl.lit 0 1 ≺ delay then delay else fl.lit 0 1)))
                s)
      go true true = stops (λ e. cc)
      go true false = returns (record { good = k.good; same = k.same })
      go false c = returns (record { good = k.good; same = k.same })

  transmit_some-Post :
      (rt : Option ℕ) (delay : D) (o : Option (Packet D)) (s : Agent D)
      → Keeps q s
      → Post (Kept env q) (transmit_some env rt delay o s)
  unfolding transmit_some
  transmit_some-Post rt delay none s k = returns k
  transmit_some-Post rt delay (some p) s k = transmit-Post rt delay p s k

  -- `forward` keeps what is stored good and does not touch the queue, whatever packet and
  -- entry it is given: it returns, or stops at an assertion or a bad pointer of the code.
  pub forward-Post :
      (rt : Option ℕ) (p : Packet D) (delay : D) (s : Agent D)
      → Keeps q s
      → Post (Kept env q) (forward env rt p delay s)
  unfolding forward
  forward-Post rt p delay s k = elim (Bool-cases (p.ttl == 0)) [
    | inl expired ↦ rw expired (returns (record { good = k.good; same = k.same }))
    | inr live ↦ rw live (go _)
  ]
    where
      go :
          (b : Bool)
          → Post (Kept env q) (
              (if b
                  then emit (delivered p)
                  else (forward_on env rt p >>= transmit_some env rt delay))
                s)
      go true = returns (record { good = k.good; same = k.same })
      go false =
          then-Post (forward_on env rt p) _ s (forward_on-Post rt p s k)
            λ o s1 k1. transmit_some-Post rt delay o s1 k1
