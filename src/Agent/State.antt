-- ===== src/Agent/State.antt =====
-- The state of `class TEAOMDV`, its effects, and the monad of its methods. A pointer to a table
-- entry is the entry's destination, a pointer to a neighbour its address, one to a broadcast id its
-- source and number; the object is looked up when the code reads or writes through the pointer.
use ns2_te_aomdv.Base.{
  ℕ, ◌+◌, Bool, true, false, ◌&&◌, Option, none, some, List, [], ◌∷◌, find, update_first,
  update_head, ◌==◌, if◌then◌else◌, Double, Outcome, done, crash, Fault, assert_failed,
  null_pointer,
}
use ns2_te_aomdv.Packet.{Packet, Ptype, Reply, Request}
use ns2_te_aomdv.Entry.{Entry, RoutePath}
use ns2_te_aomdv.Table.{rt_lookup, has_dst}
use ns2_te_aomdv.Queue.{Queue, Reason, new_queue}
use ns2_te_aomdv.Neighbor.{Neighbor}

-- `class TEAOMDV_Route`.
pub record Route : Type 0 where
  pub nh_addr : ℕ
  pub lh_addr : ℕ

-- `class TEAOMDVBroadcastID`. Its two lists of routes serve link-disjoint paths, which this build
-- leaves out (`TEAOMDV_NODE_DISJOINT_PATHS`).
pub record BroadcastId (D : Type 0) : Type 0 where
  pub src : ℕ
  pub id : ℕ
  pub expire : D
  pub count : ℕ
  pub reverse_path_list : List Route
  pub forward_path_list : List Route

-- The timers, by the agent's fields.
pub data Timer : Type 0 where
  btimer htimer ntimer rtimer t_timer prob_timer : Timer

-- What the agent hands to the simulator. `scheduled` is a packet for the lower layer after a delay,
-- `delivered` one for the port classifier, `resched` sets a timer, and `repair_scheduled` the one of the
-- local repair, with its packet.
pub data Effect (D : Type 0) : Type 0 where
  scheduled : Packet D → D → Effect D
  dropped : Packet D → Reason → Effect D
  delivered : Packet D → Effect D
  freed : Packet D → Effect D
  resched : Timer → D → Effect D
  repair_scheduled : Packet D → D → Effect D

-- What the sources do not define: the clock, constant while one event is handled; the stream of
-- `Random::uniform`; a packet fresh from `Packet::alloc`; the macro INFINITY as a `u_int16_t` and
-- the comparison with it; the agent's own address; what uninitialised fields hold; DATA_PACKET,
-- IP_HDR_LEN and RT_PORT; the conversion of a `double` to `int`; the request and the reply header of a fresh packet; the packets that the interface
-- queue's `filter` takes out one by one for a next hop; and whether the base class's `target_`, to which
-- the packets go down, is set, which is what `initialized()` answers.
pub record Env (D : Type 0) : Type 0 where
  pub now : D
  pub uniform : ℕ → D
  pub blank : Packet D
  pub infinity : ℕ
  pub is_infinity : ℕ → Bool
  pub here_addr : ℕ
  pub garbage : D
  pub garbage_hops : ℕ
  pub is_data : Ptype → Bool
  pub ip_hdr_len : ℕ
  pub rt_port : ℕ
  pub blank_request : Request D
  pub blank_reply : Reply D
  pub to_int : D → ℕ
  pub ifq_filter : ℕ → List (Packet D)
  pub has_target : Bool

-- The fields of the agent; `draws` counts the random numbers taken, and `effects` has the newest
-- first.
pub record Agent (D : Type 0) : Type 0 where
  pub index : ℕ
  pub seqno : ℕ
  pub bid : ℕ
  pub rtable : List (Entry D)
  pub nbhead : List (Neighbor D)
  pub bihead : List (BroadcastId D)
  pub rqueue : Queue D
  pub max_paths : ℕ
  pub len_diff : ℕ
  pub draws : ℕ
  pub effects : List (Effect D)

abbrev pub M : Type 0 → Type 0 → Type 0
M D A = Agent D → Outcome (A × Agent D)

module _ {D : Type 0} where
  infixl 5 ◌>>=◌ ◌>>◌
  abbrev pub pure : {A : Type 0} → A → M D A
  pure a s = done (a, s)

  abbrev pub ◌>>=◌ : {A B : Type 0} → M D A → (A → M D B) → M D B
  ◌>>=◌ m f s = elim (m s) [ crash e ↦ crash e | done (a, s') ↦ f a s' ]

  abbrev pub ◌>>◌ : {B : Type 0} → M D (Unit {0}) → M D B → M D B
  m >> k = m >>= λ _. k

  abbrev pub skip : M D (Unit {0})
  skip = pure tt

  abbrev pub fail : {A : Type 0} → Fault → M D A
  fail e s = crash e

  abbrev pub get : M D (Agent D)
  get s = done (s, s)

  abbrev pub put : Agent D → M D (Unit {0})
  put s' s = done (tt, s')

  abbrev pub modify : (Agent D → Agent D) → M D (Unit {0})
  modify f s = done (tt, f s)

  abbrev pub assert : Bool → M D (Unit {0})
  assert true s = done (tt, s)
  assert false s = crash assert_failed

  abbrev pub when : Bool → M D (Unit {0}) → M D (Unit {0})
  when b m = if b then m else skip

  -- A value that the model computes with a possible stop.
  abbrev pub lift : {A : Type 0} → Outcome A → M D A
  lift (done a) s = done (a, s)
  lift (crash e) s = crash e

  abbrev pub emit : Effect D → M D (Unit {0})
  emit e = modify λ s. record s { effects = e ∷ s.effects }

  -- A read and a write through a pointer to the entry for `dst`.
  abbrev pub entry : ℕ → M D (Entry D)
  entry dst s = elim (rt_lookup s.rtable dst) [ none ↦ crash null_pointer | some e ↦ done (e, s) ]

  abbrev pub set_entry : ℕ → (Entry D → Entry D) → M D (Unit {0})
  set_entry dst f = modify λ s. record s { rtable = update_first (has_dst dst) f s.rtable }

  abbrev pub has_addr : ℕ → Neighbor D → Bool
  has_addr id nb = nb.addr == id

  unfoldable pub nb_lookup : ℕ → Agent D → Option (Neighbor D)
  nb_lookup id s = find (has_addr id) s.nbhead

  abbrev pub set_neighbor : ℕ → (Neighbor D → Neighbor D) → M D (Unit {0})
  set_neighbor id f = modify λ s. record s { nbhead = update_first (has_addr id) f s.nbhead }

  abbrev pub has_id : ℕ → ℕ → BroadcastId D → Bool
  has_id id bid b = b.src == id && b.id == bid

  -- A write to the first path of an entry.
  abbrev pub set_head_path : (RoutePath D → RoutePath D) → Entry D → Entry D
  set_head_path f e = record e { paths = update_head f e.paths }

module _ {D : Type 0} ⦃fl : Double D⦄ where
  -- The constructor `TEAOMDV(id)`.
  unfoldable pub new_agent : ℕ → Agent D
  new_agent id = record {
    index = id;
    seqno = 2;
    bid = 1;
    rtable = [];
    nbhead = [];
    bihead = [];
    rqueue = new_queue;
    max_paths = 3;
    len_diff = 1;
    draws = 0;
    effects = [];
  }

module _ {D : Type 0} (env : Env D) where
  -- The next `Random::uniform()`.
  abbrev pub draw : M D D
  draw s = done (env.uniform s.draws, record s { draws = s.draws + 1 })
