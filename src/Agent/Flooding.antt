-- ===== src/Agent/Flooding.antt =====
-- How often an agent passes a request on: the copies of one request, known by its source and number,
-- among what the agent has scheduled, watched under a budget.
pub mod Once
pub mod Run
use ns2_te_aomdv.Base.{
  ℕ, ◌+◌, ◌≡◌, refl, ap, sym, Bool, true, false, ◌&&◌, not, List, [], ◌∷◌, any, count, update_first,
  ◌==◌, if◌then◌else◌, arith,
}
use ns2_te_aomdv.Packet.{Packet, Header, Request, hello, rreq, rrep, rerr, rcom, prob, pta, other}
use ns2_te_aomdv.Agent.State.{
  Effect, scheduled, dropped, delivered, freed, resched, repair_scheduled, BroadcastId, has_id,
}
use ns2_te_aomdv.Agent.Budget.{Watch, is_request}

module _ {D : Type 0} (src id : ℕ) where
  -- The header of the request `id` of the node `src`.
  abbrev pub is_copy : Header D → Bool
  is_copy (rreq rq) = rq.rq_src == src && rq.rq_bcast_id == id
  is_copy (hello rp) = false
  is_copy (rrep rp) = false
  is_copy (rerr unreachable) = false
  is_copy (rcom rc) = false
  is_copy prob = false
  is_copy (pta re) = false
  is_copy (other t) = false

  -- A packet that carries no copy of the request.
  abbrev pub IsPlain : Packet D → Type 0
  IsPlain p = is_copy p.header ≡ false

  abbrev pub sends_copy : Effect D → Bool
  sends_copy (scheduled p t) = is_copy p.header
  sends_copy (dropped p why) = false
  sends_copy (delivered p) = false
  sends_copy (freed p) = false
  sends_copy (resched timer t) = false
  sends_copy (repair_scheduled p t) = false

  -- How many copies have been scheduled.
  abbrev pub copies : List (Effect D) → ℕ
  copies es = count sends_copy es

  -- How many may still be: one, as long as the request is not known.
  abbrev pub allowance : List (BroadcastId D) → ℕ
  allowance bs = if any (has_id src id) bs then 0 else 1

  pub copy-request : (h : Header D) → is_request h ≡ false → is_copy h ≡ false
  copy-request (rreq rq) e = cc
  copy-request (hello rp) e = refl
  copy-request (rrep rp) e = refl
  copy-request (rerr unreachable) e = refl
  copy-request (rcom rc) e = refl
  copy-request prob e = refl
  copy-request (pta re) e = refl
  copy-request (other t) e = refl

  -- The request of another node is no copy.
  pub copy-own :
      (h : Header D) (rq : Request D) (index : ℕ)
      → not (index == src) ≡ true
      → h ≡ rreq rq
      → rq.rq_src ≡ index
      → is_copy h ≡ false
  copy-own h rq index f e k = rw e (rw k (ground arith))

  pub any-noted :
      (test : BroadcastId D → Bool) (f : BroadcastId D → BroadcastId D) (bs : List (BroadcastId D))
      → ((i : BroadcastId D) → ((f i).src ≡ i.src) × ((f i).id ≡ i.id))
      → any (has_id src id) (update_first test f bs) ≡ any (has_id src id) bs
  any-noted test f [] k = refl
  any-noted test f (i ∷ bs) k =
      let k0 = (k i).0 in let k1 = (k i).1 in ground (arith, any-noted test f bs k)

  abbrev pub request_watch : Watch D
  request_watch = record {
    carries = λ p. is_copy p.header;
    counts = sends_copy;
    reserve = allowance;
    is_foreign = λ index. not (index == src);
    sent = λ p t h. h;
    lost = λ p why h. refl;
    given = λ p h. refl;
    released = λ p. refl;
    timed = λ i t. refl;
    same = λ p q t u h. ap is_copy h;
    control = λ p t h. copy-request p.header h;
    own = λ p rq index f t h e. copy-own p.header rq index f h e;
    noted = λ test f bs k. rw (any-noted test f bs k) refl;
  }
