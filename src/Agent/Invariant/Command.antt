-- ===== src/Agent/Invariant/Command.antt =====
-- The commands of the Tcl interface keep the agent valid.
use ns2_te_aomdv.Base.{ℕ, List, [], ◌∷◌, Double, Outcome, on_done, arith}
use ns2_te_aomdv.Agent.State.{Env, Agent}
use ns2_te_aomdv.Agent.Timers.{start}
use ns2_te_aomdv.Agent.Command.{Simulator, Shell, Status, command, command_2, command_3, tcl_ok}
use ns2_te_aomdv.Agent.Invariant.{IsValid, Post, returns, stops, Gives}
use ns2_te_aomdv.Agent.Invariant.Run.{start-Post}

module _ {D : Type 0} ⦃fl : Double D⦄ (sim : Simulator) (env : Env D) where
  abbrev IsRunning : Status × Shell D → Type 0
  IsRunning r = IsValid r.1.agent

  started-Gives :
      (sh : Shell D) (o : Outcome (Unit {0} × Agent D))
      → Post (λ _. IsValid) o
      → Gives IsRunning (on_done (λ r. (tcl_ok, record sh { agent = r.1 })) o)
  started-Gives sh o (returns v) = v
  started-Gives sh o (stops n) = n

  -- Every command keeps the agent valid, and "start" ends: it returns, or stops at an assertion or a
  -- bad pointer of the code.
  pub command-IsValid :
      (args : List (List ℕ)) (sh : Shell D)
      → IsValid sh.agent
      → Gives IsRunning (command sim env args sh)
  unfolding command command_2 command_3
  command-IsValid [] sh v = v
  command-IsValid (a ∷ []) sh v =
      ground (arith, started-Gives sh (start env sh.agent) (start-Post env sh.agent v))
  command-IsValid (a ∷ b ∷ []) sh v =
      let moved : IsValid (record (sh.agent) { index = sim.atoi b }) = record {
        good = v.good;
        bounded = v.bounded;
      } in
      ground arith
  command-IsValid (a ∷ b ∷ c ∷ args) sh v = v
