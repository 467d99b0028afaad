-- ===== src/Agent/Command.antt =====
-- teaomdv/teaomdv.cc: `TEAOMDV::command`, the interface to the simulator's Tcl scripts. A list of
-- arguments begins behind the name of the object.
use Prim.Native.String.{String}
use Prim.Native.Char.{code}
use ns2_te_aomdv.Base.{
  ℕ, zero, suc, ◌+◌, Bool, true, false, ◌&&◌, ◌||◌, Option, none, some, is_some, List, [], ◌∷◌, leb,
  ◌==◌, if◌then◌else◌, Double, Outcome, done, on_done,
}
use ns2_te_aomdv.Agent.State.{Env, Agent}
use ns2_te_aomdv.Agent.Timers.{start}

-- The codes of a text, and the comparisons `strcmp(s, t) == 0` and `strncasecmp(s, t, n) == 0`.
pub codes : String → List ℕ
codes String.[] = []
codes (String.◌∷◌ c s) = code c ∷ codes s

pub to_lower : ℕ → ℕ
to_lower c = if leb 65 c && leb c 90 then c + 32 else c

pub strcmp : List ℕ → List ℕ → Bool
strcmp [] [] = true
strcmp [] (d ∷ t) = false
strcmp (c ∷ s) [] = false
strcmp (c ∷ s) (d ∷ t) = (c == d) && strcmp s t

pub strncasecmp : List ℕ → List ℕ → ℕ → Bool
unfolding to_lower
strncasecmp s t zero = true
strncasecmp [] [] (suc n) = true
strncasecmp [] (d ∷ t) (suc n) = false
strncasecmp (c ∷ s) [] (suc n) = false
strncasecmp (c ∷ s) (d ∷ t) (suc n) = (to_lower c == to_lower d) && strncasecmp s t n

pub data Status : Type 0 where
  tcl_ok tcl_error : Status

-- What the simulator provides: `atoi`, the objects that `TclObject::lookup` finds by their names, and
-- the answers of the commands of the queue and of the base class.
pub record Simulator : Type 0 where
  pub atoi : List ℕ → ℕ
  pub lookup : List ℕ → Option ℕ
  pub connector_command : List (List ℕ) → Status
  pub agent_command : List (List ℕ) → Status

-- The agent with its pointers to objects of the simulator, `none` for null, and whether its tap is
-- installed.
pub record Shell (D : Type 0) : Type 0 where
  pub agent : Agent D
  pub logtarget : Option ℕ
  pub ifqueue : Option ℕ
  pub dmux : Option ℕ
  pub mac : Option ℕ
  pub tapped : Bool

abbrev pub found : Option ℕ → Status
found none = tcl_error
found (some o) = tcl_ok

abbrev pub is_ok : Status → Bool
is_ok tcl_ok = true
is_ok tcl_error = false

module _ {D : Type 0} ⦃fl : Double D⦄ (sim : Simulator) (env : Env D) where
  -- One argument. The answers "id" and "dump-table" are only printed.
  unfoldable pub command_2 : List ℕ → Shell D → Outcome (Status × Shell D)
  unfolding codes strncasecmp
  command_2 a sh =
      if strncasecmp a (codes "id") 2
      then done (tcl_ok, sh)
      else if strncasecmp a (codes "dump-table") 10
      then done (tcl_ok, sh)
      else if strncasecmp a (codes "start") 2
      then on_done (λ r. (tcl_ok, record sh { agent = r.1 })) (start env sh.agent)
      else done (sim.agent_command (a ∷ []), sh)

  -- Two arguments.
  unfoldable pub command_3 : List ℕ → List ℕ → Shell D → Status × Shell D
  unfolding codes strcmp
  command_3 a b sh =
      let o = sim.lookup b in
      if strcmp a (codes "index")
      then (tcl_ok, record sh { agent = record (sh.agent) { index = sim.atoi b } })
      else if strcmp a (codes "log-target") || strcmp a (codes "tracetarget")
      then (found o, record sh { logtarget = o })
      else if strcmp a (codes "drop-target")
      then (
        if is_ok (sim.connector_command (a ∷ b ∷ []))
            then sim.agent_command (a ∷ b ∷ [])
            else sim.connector_command (a ∷ b ∷ []),
        sh,
      )
      else if strcmp a (codes "if-queue")
      then (found o, record sh { ifqueue = o })
      else if strcmp a (codes "port-dmux")
      then (found o, record sh { dmux = o })
      else if strcmp a (codes "install-tap")
      then (found o, record sh { mac = o; tapped = if is_some o then true else sh.tapped })
      else (sim.agent_command (a ∷ b ∷ []), sh)

  unfoldable pub command : List (List ℕ) → Shell D → Outcome (Status × Shell D)
  unfolding command_2 command_3
  command (a ∷ []) sh = command_2 a sh
  command (a ∷ b ∷ []) sh = done (command_3 a b sh)
  command args sh = done (sim.agent_command args, sh)
