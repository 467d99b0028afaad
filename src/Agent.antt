-- ===== src/Agent.antt =====
-- teaomdv/teaomdv.h and teaomdv.cc: the state of a routing agent, what it does to the simulator, and
-- the monad in which its methods are written. The methods stand in the child modules.
pub mod State
pub mod Ids
pub mod Send
pub mod Routes
pub mod Neighbors
pub mod Forward
pub mod Request
pub mod Resolve
pub mod RecvRequest
pub mod RecvReply
pub mod Pta
pub mod Trust
pub mod Timers
pub mod Receive
pub mod Gate
pub mod Repair
pub mod Command
pub mod Run
pub mod Seqno
pub mod Discovery
pub mod Order
pub mod Invariant
pub mod Budget
pub mod Conserved
pub mod Flooding
