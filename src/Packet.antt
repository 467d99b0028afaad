-- ===== src/Packet.antt =====
-- teaomdv/teaomdv_packet.h: the formats of the control packets; and the fields of the simulator's
-- common and IP headers that the agent reads or writes. A packet of the simulator holds all its
-- headers; the TEAOMDV header is a union whose first byte, the type, is the constructor here.
-- Addresses are the 32-bit patterns of `nsaddr_t`.
use ns2_te_aomdv.Base.{ℕ, ◌+◌, ◌-◌, ◌*◌, ◌%◌, ◌^◌, List, Bool, false, true, if◌then◌else◌, length}

abbrev pub ip_broadcast : ℕ
ip_broadcast = 0xffffffff

abbrev pub max_nb : ℕ
max_nb = 50

abbrev pub teaomdv_max_errors : ℕ
teaomdv_max_errors = 100

-- Unsigned arithmetic of the widths that the headers use.
abbrev pub u8 : ℕ → ℕ
u8 n = n % 2 ^ 8

abbrev pub u16 : ℕ → ℕ
u16 n = n % 2 ^ 16

abbrev pub u32 : ℕ → ℕ
u32 n = n % 2 ^ 32

-- `n - 1` on the bit pattern of an `int`.
abbrev pub dec_int : ℕ → ℕ
dec_int n = (n + (2 ^ 32 - 1)) % 2 ^ 32

pub record Request (D : Type 0) : Type 0 where
  pub rq_hop_count : ℕ
  pub rq_bcast_id : ℕ
  pub rq_dst : ℕ
  pub rq_dst_seqno : ℕ
  pub rq_src : ℕ
  pub rq_src_seqno : ℕ
  pub rq_timestamp : D
  pub rq_first_hop : ℕ
  pub rt : D
  pub fpt : D
  pub rpt : D

pub record Reply (D : Type 0) : Type 0 where
  pub rp_hop_count : ℕ
  pub rp_dst : ℕ
  pub rp_dst_seqno : ℕ
  pub rp_src : ℕ
  pub rp_lifetime : D
  pub rp_timestamp : D
  pub rp_bcast_id : ℕ
  pub rp_first_hop : ℕ
  pub rt : D
  pub fpt : D
  pub rpt : D

-- `nb_No`, `nb_dt` up to `nb_num`, and `it_num`.
pub record Recommen (D : Type 0) : Type 0 where
  pub nbs : List (ℕ × D)
  pub it_num : ℕ

pub record Pta : Type 0 where
  pub unreachable_dst : ℕ
  pub unreachable_lasthop : ℕ
  pub unreachable_dst_seqno : ℕ

-- The pairs of `unreachable_dst` and `unreachable_dst_seqno` up to `DestCount`.
pub data Header (D : Type 0) : Type 0 where
  hello : Reply D → Header D
  rreq : Request D → Header D
  rrep : Reply D → Header D
  rerr : List (ℕ × ℕ) → Header D
  rcom : Recommen D → Header D
  prob : Header D
  pta : Pta → Header D
  other : ℕ → Header D

pub data Ptype : Type 0 where
  pt_teaomdv pt_cbr : Ptype
  pt_other : ℕ → Ptype

pub data Direction : Type 0 where
  dir_down dir_none dir_up : Direction

pub data AddrType : Type 0 where
  af_none af_inet : AddrType

pub record Packet (D : Type 0) : Type 0 where
  -- hdr_cmn
  pub ptype : Ptype
  pub size : ℕ
  pub uid : ℕ
  pub ts : D
  pub addr_type : AddrType
  pub next_hop : ℕ
  pub prev_hop : ℕ
  pub pprev_hop : ℕ
  pub num_forwards : ℕ
  pub direction : Direction
  pub callback : Bool
  pub salvage_count : ℕ
  -- hdr_ip
  pub saddr : ℕ
  pub daddr : ℕ
  pub sport : ℕ
  pub dport : ℕ
  pub ttl : ℕ
  -- hdr_teaomdv
  pub header : Header D

-- The `size` functions of the headers, at 1 byte for a `u_int8_t`, 4 for the 32-bit types and 8 for
-- a `double`.
abbrev request_size : ℕ
request_size = 7 * 4 + 4 + 3 * 8

-- Of a HELLO or a reply.
abbrev reply_size : Bool → ℕ
reply_size is_reply = if is_reply then 6 * 4 + 4 + 4 + 3 * 8 else 6 * 4

abbrev probe_size : ℕ
probe_size = 1

abbrev pta_size : ℕ
pta_size = 1 + 4 + 3 * 4

abbrev error_size : List (ℕ × ℕ) → ℕ
error_size dests = (length dests * 2 + 1) * 4

module _ {D : Type 0} where
  abbrev recommen_size : Recommen D → ℕ
  recommen_size rc = 1 + (4 * length rc.nbs + 8 * length rc.nbs + 4 * 2)

  pub header_size : Header D → ℕ
  header_size (hello rp) = reply_size false
  header_size (rrep rp) = reply_size true
  header_size (rreq rq) = request_size
  header_size (rerr dests) = error_size dests
  header_size (rcom rc) = recommen_size rc
  header_size prob = probe_size
  header_size (pta re) = pta_size
  header_size (other t) = 0
