-- ===== src/Agent/Invariant.antt =====
-- The invariant of an agent's routing table, neighbours and queue, and the rules by which the child modules show
-- that a method keeps it. A method may stop at an assertion, but not for want of fuel.
pub mod Entries
pub mod Deletion
pub mod Expiry
pub mod Failure
pub mod Forward
pub mod Learn
pub mod Reception
pub mod Reply
pub mod Request
pub mod Resolve
pub mod Repair
pub mod RouteError
pub mod Rules
pub mod Trust
pub mod Run
pub mod Command
pub mod Evidence
pub mod Timers
pub mod Waiting
use ns2_te_aomdv.Base.{
  ℕ, ◌<◌, ◌≤◌, ◌≡◌, refl, ◌≢◌, Bool, true, false, Option, none, some, List, [], length, find,
  update_first, All, IsDistinct, KeepsKey, update_first-IsDistinct, All-find, All-update_first,
  All-update_found, arith, Double, Outcome, done, crash, asserting, and_then, on_done, Fault,
  no_fuel, assert_failed, null_pointer,
}
use ns2_te_aomdv.Entry.{Entry, is_up}
use ns2_te_aomdv.Entry.Counted.{IsCounted}
use ns2_te_aomdv.Entry.Disjoint.{IsDisjoint}
use ns2_te_aomdv.Neighbor.{Neighbor}
use ns2_te_aomdv.Neighbor.Evidence.{IsSound}
use ns2_te_aomdv.Table.{rt_lookup, has_dst}
use ns2_te_aomdv.Table.Unique.{IsUnique, key}
use ns2_te_aomdv.Queue.{Queue}
use ns2_te_aomdv.Agent.State.{M, Env, Agent, ◌>>=◌, entry, set_entry, lift, assert, has_addr}

-- An entry whose count of paths is right, whose paths are node-disjoint, and which has a path if it
-- is up, and never more than three.
pub record IsGood {D : Type 0} (e : Entry D) : Type 0 where
  pub counted : IsCounted e
  pub disjoint : IsDisjoint e.paths
  pub live : is_up e.flags ≡ true → 0 < length e.paths
  pub few : length e.paths ≤ 3

-- A queue whose length is right and within its limit.
pub record IsBounded {D : Type 0} (q : Queue D) : Type 0 where
  pub counted : q.len ≡ length q.items
  pub within : q.len ≤ q.limit
  pub positive : 0 < q.limit

abbrev pub addr_of : {D : Type 0} → Neighbor D → ℕ
addr_of nb = nb.addr

-- What an agent stores of the routes and its neighbours: good entries, no destination and no
-- neighbour twice, and evidence on the neighbours that adds up.
pub record IsStored {D : Type 0} (table : List (Entry D)) (nbs : List (Neighbor D)) (max_paths : ℕ)
    : Type 0 where
  pub entries : All IsGood table
  pub unique : IsUnique table
  pub sound : All IsSound nbs
  pub once : IsDistinct addr_of nbs
  pub limit : max_paths ≡ 3

abbrev pub HasStored : {D : Type 0} → Agent D → Type 0
HasStored s = IsStored s.rtable s.nbhead s.max_paths

pub record IsValid {D : Type 0} (s : Agent D) : Type 0 where
  pub good : HasStored s
  pub bounded : IsBounded s.rqueue

-- The result of a method: it returns with the postcondition, or stops at an assertion or a bad
-- pointer of the code.
pub data Post {D A : Type 0} (P : A → Agent D → Type 0) : Outcome (A × Agent D) → Type 0 where
  returns : {a : A} {s : Agent D} → P a s → Post P (done (a, s))
  stops : {e : Fault} → e ≢ no_fuel → Post P (crash e)

-- What a part of a handler gives is `P`, unless it stops.
abbrev pub Gives : {A : Type 0} → (A → Type 0) → Outcome A → Type 0
Gives P (done a) = P a
Gives P (crash e) = e ≢ no_fuel

pub asserting-Gives :
    {A : Type 0} (P : A → Type 0) (b : Bool) (a : A) → P a → Gives P (asserting b a)
asserting-Gives P true a h = h
asserting-Gives P false a h = λ e. cc

pub weaken-Gives :
    {A : Type 0} (Q P : A → Type 0) (o : Outcome A) → Gives Q o → ((a : A) → Q a → P a) → Gives P o
weaken-Gives Q P (done a) h k = k a h
weaken-Gives Q P (crash e) h k = h

pub and_then-Gives :
    {A B : Type 0} (Q : A → Type 0) (P : B → Type 0) (o : Outcome A) (f : A → Outcome B)
    → Gives Q o
    → ((a : A) → Q a → Gives P (f a))
    → Gives P (and_then o f)
and_then-Gives Q P (done a) f h k = k a h
and_then-Gives Q P (crash e) f h k = h

pub on_done-Gives :
    {A B : Type 0} (Q : A → Type 0) (P : B → Type 0) (f : A → B) (o : Outcome A)
    → Gives Q o
    → ((a : A) → Q a → P (f a))
    → Gives P (on_done f o)
on_done-Gives Q P f (done a) h k = k a h
on_done-Gives Q P f (crash e) h k = h

module _ {D : Type 0} where
  -- A part that is lifted into the methods.
  pub lift-Post :
      {A : Type 0} (P : A → Type 0) (o : Outcome A) (s : Agent D)
      → Gives P o
      → Post (λ a s'. (s' ≡ s) × P a) (lift o s)
  lift-Post P (done a) s h = returns (refl, h)
  lift-Post P (crash e) s h = stops h

  -- What is stored is good, and the queue is `q`.
  pub record Keeps (q : Queue D) (s : Agent D) : Type 0 where
    pub good : HasStored s
    pub same : s.rqueue ≡ q

  -- A write to an entry that keeps its destination.
  pub IsStored-set :
      (dst : ℕ) (f : Entry D → Entry D) (table : List (Entry D)) (nbs : List (Neighbor D)) (m : ℕ)
      → ((e : Entry D) → IsGood e → IsGood (f e))
      → KeepsKey key dst f
      → IsStored table nbs m
      → IsStored (update_first (has_dst dst) f table) nbs m
  IsStored-set dst f table nbs m h k st = record {
    entries = All-update_first IsGood (has_dst dst) f table h st.entries;
    unique = update_first-IsDistinct key dst f table k st.unique;
    sound = st.sound;
    once = st.once;
    limit = st.limit;
  }

  -- The same, where only the entry that is found has to be kept good.
  pub IsStored-found :
      (dst : ℕ) (f : Entry D → Entry D) (table : List (Entry D)) (nbs : List (Neighbor D)) (m : ℕ)
      → ((e : Entry D) → find (has_dst dst) table ≡ some e → IsGood e → IsGood (f e))
      → KeepsKey key dst f
      → IsStored table nbs m
      → IsStored (update_first (has_dst dst) f table) nbs m
  IsStored-found dst f table nbs m h k st = record {
    entries = All-update_found IsGood (has_dst dst) f table h st.entries;
    unique = update_first-IsDistinct key dst f table k st.unique;
    sound = st.sound;
    once = st.once;
    limit = st.limit;
  }

  -- A write to a neighbour that keeps its address.
  pub IsStored-neighbor :
      (id : ℕ) (f : Neighbor D → Neighbor D) (table : List (Entry D)) (nbs : List (Neighbor D))
      (m : ℕ)
      → ((nb : Neighbor D) → IsSound nb → IsSound (f nb))
      → KeepsKey addr_of id f
      → IsStored table nbs m
      → IsStored table (update_first (has_addr id) f nbs) m
  IsStored-neighbor id f table nbs m h k st = record {
    entries = st.entries;
    unique = st.unique;
    sound = All-update_first IsSound (has_addr id) f nbs h st.sound;
    once = update_first-IsDistinct addr_of id f nbs k st.once;
    limit = st.limit;
  }

  pub then-Post :
      {A B : Type 0} {Q : A → Agent D → Type 0} {P : B → Agent D → Type 0} (m : M D A)
      (f : A → M D B) (s : Agent D)
      → Post Q (m s)
      → ((a : A) (s' : Agent D) → Q a s' → Post P (f a s'))
      → Post P ((m >>= f) s)
  then-Post {A} {B} {Q} {P} m f s h k = go (m s) h
    where
      go :
          (o : Outcome (A × Agent D))
          → Post Q o
          → Post P (elim o [ crash e ↦ crash e | done (a, s') ↦ f a s' ])
      go o (returns {a = a} {s = s'} q) = k a s' q
      go o (stops n) = stops n

  pub weaken-Post :
      {A : Type 0} {Q P : A → Agent D → Type 0} {o : Outcome (A × Agent D)}
      → ((a : A) (s : Agent D) → Q a s → P a s)
      → Post Q o
      → Post P o
  weaken-Post f (returns {a = a} {s = s} h) = returns (f a s h)
  weaken-Post f (stops n) = stops n

  pub assert-Post : (b : Bool) (s : Agent D) → Post (λ _ s'. (s' ≡ s) × (b ≡ true)) (assert b s)
  assert-Post true s = returns (refl, refl)
  assert-Post false s = stops (λ e. cc)

  -- A read through a pointer to an entry.
  pub entry-Post :
      (dst : ℕ) (s : Agent D)
      → HasStored s
      → Post (λ e s'. (s' ≡ s) × IsGood e × (rt_lookup s.rtable dst ≡ some e)) (entry dst s)
  unfolding rt_lookup
  entry-Post dst s g = go (rt_lookup s.rtable dst) refl
    where
      go :
          (o : Option (Entry D))
          → rt_lookup s.rtable dst ≡ o
          → Post
              (λ e s'. (s' ≡ s) × IsGood e × (rt_lookup s.rtable dst ≡ some e))
              (elim o [ none ↦ crash null_pointer | some e ↦ done (e, s) ])
      go none q = stops (λ e. cc)
      go (some e) q = returns (refl, All-find IsGood (has_dst dst) s.rtable e g.entries q, q)
