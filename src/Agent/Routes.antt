-- ===== src/Agent/Routes.antt =====
-- teaomdv/teaomdv.cc, "Link Failure Management Functions": `rt_down`, `handle_link_failure`, and the
-- reception of route errors, `recvError`.
use ns2_te_aomdv.Base.{
  ℕ, ◌+◌, ◌%◌, Bool, true, false, ◌&&◌, none, some, List, [], ◌∷◌, ◌++◌, length, is_some, ltb, leb,
  ◌==◌, if◌then◌else◌, update_first, Double, Outcome, done, crash, out_of_bounds, and_then, on_done,
  asserting,
}
use ns2_te_aomdv.Packet.{Packet, u32, teaomdv_max_errors}
use ns2_te_aomdv.Entry.{
  Entry, rtf_down, is_up, is_down, path_lookup, path_delete, path_delete_all, path_empty,
}
use ns2_te_aomdv.Table.{rt_lookup, has_dst}
use ns2_te_aomdv.Agent.State.{M, Env, ◌>>=◌, ◌>>◌, get, put, lift, emit, freed}
use ns2_te_aomdv.Agent.Send.{send_error}

-- The macro `max` on `u_int32_t`.
abbrev pub max_seqno : ℕ → ℕ → ℕ
max_seqno a b = if ltb b a then a else b

abbrev pub is_even : ℕ → Bool
is_even n = n % 2 == 0

-- One more unreachable destination; the packet has room for TEAOMDV_MAX_ERRORS.
unfoldable pub report : ℕ × ℕ → List (ℕ × ℕ) → Outcome (List (ℕ × ℕ))
report d dests =
    if ltb (length dests) teaomdv_max_errors then done (dests ++ (d ∷ [])) else crash out_of_bounds

module _ {D : Type 0} ⦃fl : Double D⦄ (env : Env D) where
  unfoldable pub rt_down : Entry D → Entry D
  rt_down e = if is_down e.flags then e else record (path_delete_all e) {
    flags = rtf_down;
    advertised_hops = env.infinity;
    expire = fl.lit 0 1;
  }

  -- The last path of an entry is gone with the link `id`.
  unfoldable pub fail_route : Entry D → List (ℕ × ℕ) → Outcome (Entry D × List (ℕ × ℕ))
  fail_route e dests =
      let seqno = max_seqno (u32 (e.seqno + 1)) e.highest_seqno_heard in
      let e1 : Entry D = record e { seqno = seqno } in
      if e1.error
      then on_done (λ ds. (rt_down (record e1 { error = false }), ds))
          (report (e1.dst, e1.seqno) dests)
      else done (rt_down e1, dests)

  -- The body of the loop of `handle_link_failure`, for one entry.
  unfoldable pub fail_link : ℕ → Entry D → List (ℕ × ℕ) → Outcome (Entry D × List (ℕ × ℕ))
  fail_link id e dests =
      if is_up e.flags && is_some (path_lookup e id)
      then (and_then (asserting (is_even e.seqno) (path_delete id e)) λ e1.
          and_then (path_empty e1) λ empty. if empty then fail_route e1 dests else done (e1, dests))
      else done (e, dests)

  unfoldable pub fail_links :
      ℕ → List (Entry D) → List (ℕ × ℕ) → Outcome (List (Entry D) × List (ℕ × ℕ))
  fail_links id [] dests = done ([], dests)
  fail_links id (e ∷ es) dests =
      and_then (fail_link id e dests)
        λ r. on_done (λ rest. (r.0 ∷ rest.0, rest.1)) (fail_links id es r.1)

  unfoldable pub handle_link_failure : ℕ → M D (Unit {0})
  handle_link_failure id = do
    s ← get
    r ← lift (fail_links id s.rtable [])
    put (record s { rtable = r.0 })
    if ltb 0 (length r.1) then send_error env r.1 false else emit (freed env.blank)

  -- `recvError` has deleted the last path of an entry.
  unfoldable pub lose_last : Entry D → List (ℕ × ℕ) → Outcome (Entry D × List (ℕ × ℕ))
  lose_last e dests =
      let e1 : Entry D = rt_down (record e { seqno = e.highest_seqno_heard }) in
      if e1.error
      then on_done (λ ds. (record e1 { error = false }, ds)) (report (e1.dst, e1.seqno) dests)
      else done (e1, dests)

  -- The body of the loop of `recvError`, for the entry of one unreachable destination; `saddr` is
  -- the neighbour that sent the error.
  unfoldable pub lose_path : ℕ → ℕ → Entry D → List (ℕ × ℕ) → Outcome (Entry D × List (ℕ × ℕ))
  lose_path saddr seqno e dests =
      if is_up e.flags && is_some (path_lookup e saddr) && leb e.seqno seqno
      then (and_then (asserting (is_even e.seqno) (path_delete saddr e)) λ e1.
          let e2 : Entry D = record e1 {
            highest_seqno_heard = max_seqno e1.highest_seqno_heard seqno;
          } in
          and_then (path_empty e2) λ empty. if empty then lose_last e2 dests else done (e2, dests))
      else done (e, dests)

  unfoldable pub lose_at :
      ℕ → ℕ → ℕ → List (Entry D) → List (ℕ × ℕ) → Outcome (List (Entry D) × List (ℕ × ℕ))
  lose_at saddr dst seqno table dests = elim (rt_lookup table dst) [
    | none ↦ done (table, dests)
    | some e ↦
        on_done (λ r. (update_first (has_dst dst) (λ _. r.0) table, r.1))
          (lose_path saddr seqno e dests)
  ]

  unfoldable pub lose_routes :
      ℕ → List (ℕ × ℕ) → List (Entry D) → List (ℕ × ℕ) → Outcome (List (Entry D) × List (ℕ × ℕ))
  lose_routes saddr [] table dests = done (table, dests)
  lose_routes saddr ((dst, seqno) ∷ more) table dests =
      and_then (lose_at saddr dst seqno table dests) λ r. lose_routes saddr more r.0 r.1

  unfoldable pub recv_error : Packet D → List (ℕ × ℕ) → M D (Unit {0})
  recv_error p unreachable = do
    s ← get
    r ← lift (lose_routes p.saddr unreachable s.rtable [])
    put (record s { rtable = r.0 })
    if ltb 0 (length r.1) then send_error env r.1 true else emit (freed env.blank)
    emit (freed p)
