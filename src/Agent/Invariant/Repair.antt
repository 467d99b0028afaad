-- ===== src/Agent/Invariant/Repair.antt =====
-- The local repair and `forwardReply` keep the agent valid.
use ns2_te_aomdv.Base.{ℕ, true, Option, none, some, ◌&&◌, not, ◌==◌, update_first, Double}
use ns2_te_aomdv.Packet.{Packet, ip_broadcast}
use ns2_te_aomdv.Entry.{Entry, is_up, rtf_in_repair}
use ns2_te_aomdv.Table.{has_dst}
use ns2_te_aomdv.Agent.State.{Env, Agent, M, entry, assert, when, set_entry}
use ns2_te_aomdv.Agent.Request.{send_request}
use ns2_te_aomdv.Agent.Resolve.{buffer}
use ns2_te_aomdv.Agent.Repair.{local_rt_repair, reply_on, forward_reply}
use ns2_te_aomdv.Agent.Invariant.{IsGood, IsValid, Post, returns, then-Post}
use ns2_te_aomdv.Agent.Invariant.Forward.{transmit-Post}
use ns2_te_aomdv.Agent.Invariant.Resolve.{buffer-Post, send_request-Post}
use ns2_te_aomdv.Agent.Invariant.Waiting.{valid-Keeps}
use ns2_te_aomdv.Agent.Invariant.Rules.{
  Valid, stay, if-Post, when-Post, assert-Valid, entry-Valid, set_entry-IsValid, mark_error-IsGood,
}

module _ {D : Type 0} ⦃fl : Double D⦄ (env : Env D) where
  in_repair-IsGood : (e : Entry D) → IsGood e → IsGood (record e { flags = rtf_in_repair })
  in_repair-IsGood e g = record {
    counted = g.counted;
    disjoint = g.disjoint;
    few = g.few;
    live = λ up. cc;
  }

  -- `local_rt_repair` keeps the agent valid: it buffers the packet, asks for a route, and sets the
  -- timer, or stops at an assertion or a bad pointer of the code.
  pub local_rt_repair-Post :
      (dst : ℕ) (p : Packet D) (s : Agent D) → IsValid s → Post Valid (local_rt_repair env dst p s)
  unfolding local_rt_repair
  local_rt_repair-Post dst p s v = then-Post (buffer env p) _ s (buffer-Post env p s v) λ _ s1 v1.
      let s2 : Agent D = record s1 {
        rtable = update_first (has_dst dst) (λ e. record e { flags = rtf_in_repair }) s1.rtable;
      } in
      then-Post (send_request env dst) _ s2
        (send_request-Post env dst s2 (set_entry-IsValid dst _ s1 in_repair-IsGood (λ _ d. d) v1))
        λ _ s3 v3.
          then-Post (entry dst) _ s3 (entry-Valid env dst s3 v3)
            λ e s4 h4. returns (record { good = h4.1.good; bounded = h4.1.bounded })

  reply_on-Post :
      (rt : Option ℕ) (p : Packet D) (s : Agent D) → IsValid s → Post Valid (reply_on env rt p s)
  unfolding reply_on
  reply_on-Post none p s v =
      then-Post (assert (p.daddr == ip_broadcast)) _ s (assert-Valid _ s v) λ _ s1 v1. returns v1
  reply_on-Post (some dst) p s v = then-Post (entry dst) _ s (entry-Valid env dst s v) λ e s1 h1.
      then-Post (assert (is_up e.flags)) _ s1 (assert-Valid _ s1 h1.1) λ _ s2 v2.
        let mark : M D (Unit {0}) = set_entry dst λ e. record e { error = true } in
        then-Post (when (not (p.saddr == s2.index) && env.is_data p.ptype) mark) _ s2
          (when-Post _ mark s2 v2
            (returns (set_entry-IsValid dst _ s2 mark_error-IsGood (λ _ d. d) v2)))
          λ _ s3 v3. returns v3

  -- `forwardReply` keeps the agent valid, on every branch.
  pub forward_reply-Post :
      (rt : Option ℕ) (p : Packet D) (delay : D) (s : Agent D)
      → IsValid s
      → Post Valid (forward_reply env rt p delay s)
  unfolding forward_reply
  forward_reply-Post rt p delay s v =
      if-Post Valid (p.ttl == 0) _ _ s (returns (record { good = v.good; bounded = v.bounded })) (
        then-Post (reply_on env rt p) _ s (reply_on-Post rt p s v)
          λ p1 s1 v1. stay s1 v1 (transmit-Post env s1.rqueue rt delay p1 s1 (valid-Keeps s1 v1)))
