-- ===== src/Tests/Data.antt =====
-- Concrete packets, entries, neighbours and agents. A number 10_000 is one second, or the value 1.
use ns2_te_aomdv.Base.{ℕ, true, false, List, [], ◌∷◌, ◌==◌}
use ns2_te_aomdv.Packet.{
  Packet, Request, Reply, rreq, prob, pt_teaomdv, pt_cbr, pt_other, dir_down, af_none, af_inet,
  ip_broadcast,
}
use ns2_te_aomdv.Entry.{Entry, RoutePath, rtf_up, infinity2}
use ns2_te_aomdv.Queue.{Queue}
use ns2_te_aomdv.Neighbor.{Neighbor, Node1}
use ns2_te_aomdv.Agent.State.{Env, Agent}

-- A packet of node 1 for node 9.
abbrev pub packet : ℕ → ℕ → Packet ℕ
packet uid ts = record {
  ptype = pt_cbr;
  size = 512;
  uid = uid;
  ts = ts;
  addr_type = af_inet;
  next_hop = 0;
  prev_hop = 1;
  pprev_hop = 1;
  num_forwards = 0;
  direction = dir_down;
  callback = false;
  salvage_count = 0;
  saddr = 1;
  daddr = 9;
  sport = 0;
  dport = 0;
  ttl = 30;
  header = prob;
}

-- A request of node 9 for node 1, which node 4 passed on.
abbrev pub request : Request ℕ
request = record {
  rq_hop_count = 1;
  rq_bcast_id = 3;
  rq_dst = 1;
  rq_dst_seqno = 0;
  rq_src = 9;
  rq_src_seqno = 8;
  rq_timestamp = 0;
  rq_first_hop = 5;
  rt = 7_000;
  fpt = 9_000;
  rpt = 9_000;
}

abbrev pub reply : Reply ℕ
reply = record {
  rp_hop_count = 1;
  rp_dst = 9;
  rp_dst_seqno = 4;
  rp_src = 4;
  rp_lifetime = 100_000;
  rp_timestamp = 0;
  rp_bcast_id = 3;
  rp_first_hop = 6;
  rt = 7_000;
  fpt = 9_000;
  rpt = 9_000;
}

abbrev pub request_packet_from_4 : Packet ℕ
request_packet_from_4 = record (packet 77 0) {
  ptype = pt_teaomdv;
  addr_type = af_none;
  prev_hop = 4;
  saddr = 4;
  daddr = ip_broadcast;
  sport = 255;
  dport = 255;
  header = rreq request;
}

-- The simulator at one second.
abbrev pub test_env : Env ℕ
test_env = record {
  now = 10_000;
  uniform = λ n. 5_000;
  blank = packet 100 0;
  infinity = 255;
  is_infinity = λ n. n == 255;
  here_addr = 1;
  garbage = 0;
  garbage_hops = 0;
  is_data = λ t. elim t [ pt_cbr ↦ true | pt_teaomdv ↦ false | pt_other n ↦ false ];
  ip_hdr_len = 20;
  rt_port = 255;
  blank_request = request;
  blank_reply = reply;
  to_int = λ n. n;
  ifq_filter = λ id. [];
  has_target = true;
}

abbrev pub path : ℕ → ℕ → ℕ → ℕ → RoutePath ℕ
path nexthop lasthop hopcount expire = record {
  nexthop = nexthop;
  hopcount = hopcount;
  expire = expire;
  ts = 0;
  lasthop = lasthop;
  error = false;
  fpt = 9_000;
  rpt = 9_000;
}

-- A route to node 9 over nodes 2 and 3, which are disjoint.
abbrev pub two_paths : Entry ℕ
two_paths = record {
  req_timeout = 0;
  req_cnt = 0;
  flags = rtf_up;
  dst = 9;
  seqno = 4;
  hops = 0;
  advertised_hops = infinity2;
  last_hop_count = 3;
  paths = path 2 7 2 5_000 ∷ path 3 8 3 90_000 ∷ [];
  highest_seqno_heard = 4;
  num_paths = 2;
  error = false;
  pclist = 6 ∷ [];
  expire = 90_000;
  disc_latency = [];
  hist_indx = 0;
  req_last_ttl = 0;
  nblist = [];
}

-- The first packet has timed out.
abbrev pub three_packets : Queue ℕ
three_packets = record {
  items = packet 10 9_000 ∷ packet 11 50_000 ∷ packet 12 60_000 ∷ [];
  len = 3;
  limit = 3;
  timeout = 300_000;
}

-- A record that was heard, one that is late, and one that is neither, at ten seconds.
abbrev pub records : List (Node1 ℕ)
records =
    record { uid = 1; time = 0; ok = true }
    ∷ record { uid = 2; time = 10_000; ok = false }
    ∷ record { uid = 3; time = 99_000; ok = false }
    ∷ []

abbrev pub neighbor_2 : Neighbor ℕ
neighbor_2 = record {
  addr = 2;
  expire = 60_000;
  black_list = false;
  tv = 9_000;
  direct_trust = 9_000;
  control_forward_rate = 9_000;
  control_forward_corrects = 0;
  control_forward_alls = 1;
  data_forward_rate = 9_000;
  data_forward_corrects = 3;
  data_forward_alls = 5;
  cbr_f = records;
  ptteaomdv_f = records;
  recommen_trust = 8_000;
  fenzi = 0;
  fenmu = 0;
  delivery_ratio = 8_000;
  prob_recvs = 0;
  prob_stime = 0;
  activity_degree = 8_000;
  trusted_nbs = 20_000;
  interact_nbs = 20_000;
}

-- Node 1 with its route, its neighbour and the packets that wait.
abbrev pub node_1 : Agent ℕ
node_1 = record {
  index = 1;
  seqno = 2;
  bid = 1;
  rtable = two_paths ∷ [];
  nbhead = neighbor_2 ∷ [];
  bihead = [];
  rqueue = three_packets;
  max_paths = 3;
  len_diff = 1;
  draws = 0;
  effects = [];
}
