-- ===== src/Agent/Resolve/Fault.antt =====
-- teaomdv/teaomdv.cc: the loop of `rt_purge` over the packets that wait for a route that is up, of which
-- the only path is not trusted.
use ns2_te_aomdv.Packet.{Packet}
use ns2_te_aomdv.Entry.{Entry}
use ns2_te_aomdv.Queue.{Queue}
use ns2_te_aomdv.Queue.Purge
use ns2_te_aomdv.Neighbor.{Neighbor}
use ns2_te_aomdv.Agent.State.{Agent}
