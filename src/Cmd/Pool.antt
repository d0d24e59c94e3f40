-- ===== src/Cmd/Pool.antt =====
-- src/shk/src/cmd/pooled_command_runner.cpp: commands run at once as their pools have spots, and wait
-- otherwise. The runner behind it is known by the commands that run in it. A number of spots is only
-- taken down where it is not 0, so the ints of the code are natural numbers here.
pub mod Counts
pub mod Bounded
mod Tests
use shuriken.Prelude.{
  if◌then◌else◌, List, ℕ, Bool, unsnoc, ◌==◌, ◌∷◌, ◌+◌, true, nat_beq, [], string_eq, ◌-◌, ◌≡◌,
  none, false, some, ◌++◌, not,
}
use shuriken.Prelude.Assoc.{Assoc, insert, lookup}
use Prim.Native.String.{String}

-- A command and the pool of its step; what else the code keeps with it does not matter here.
pub record Command : Type 0 where
  pub command : String
  pub pool : String

-- `PooledCommandRunner`, and the commands that the inner runner runs
pub record PooledCommandRunner : Type 0 where
  pub pools : Assoc String ℕ
  pub delayed_commands : Assoc String (List Command)
  pub delayed_commands_count : ℕ
  pub running : List Command

-- `_pools[pool]` and `_delayed_commands[pool]`: a key that is missing has the value of a new one.
abbrev pub spots : Assoc String ℕ → String → ℕ
spots pools pool = elim (lookup pool pools) [ none ↦ 0 | some n ↦ n ]

abbrev pub delayed_in : Assoc String (List Command) → String → List Command
delayed_in delayed pool = elim (lookup pool delayed) [ none ↦ [] | some cs ↦ cs ]

pub can_run_now : PooledCommandRunner → String → Bool
can_run_now r pool =
    if pool == ""
    then true
    else elim (lookup pool r.pools) [ none ↦ false | some n ↦ not (nat_beq n 0) ]

pub invoke_now : Command → PooledCommandRunner → PooledCommandRunner
invoke_now c r = record r {
  pools = if c.pool == "" then r.pools else insert c.pool (spots r.pools c.pool - 1) r.pools;
  running = c ∷ r.running;
}

-- `push_front`
pub delay : Command → PooledCommandRunner → PooledCommandRunner
delay c r = record r {
  delayed_commands = insert c.pool (c ∷ delayed_in r.delayed_commands c.pool) r.delayed_commands;
  delayed_commands_count = r.delayed_commands_count + 1;
}

pub invoke : Command → PooledCommandRunner → PooledCommandRunner
invoke c r = if can_run_now r c.pool then invoke_now c r else delay c r

-- The command at the back has waited the longest.
pub invoke_delayed_job : String → PooledCommandRunner → PooledCommandRunner
invoke_delayed_job pool r = elim (unsnoc (delayed_in r.delayed_commands pool)) [
  | none ↦ r
  | some (rest, c) ↦
      invoke_now (record c { pool = pool })
        (record r {
          delayed_commands = insert pool rest r.delayed_commands;
          delayed_commands_count = r.delayed_commands_count - 1;
        })
]

-- The callback of a command that ended, given the commands that still run
pub command_ended : Command → List Command → PooledCommandRunner → PooledCommandRunner
command_ended c left r =
    let n = spots r.pools c.pool in
    let freed = record r { pools = insert c.pool (n + 1) r.pools; running = left } in
    if nat_beq n 0 then invoke_delayed_job c.pool freed else freed

abbrev pub new_runner : Assoc String ℕ → PooledCommandRunner
new_runner pools = record {
  pools = pools;
  delayed_commands = [];
  delayed_commands_count = 0;
  running = [];
}

-- The states that a runner of these pools reaches
pub data Runs (pools : Assoc String ℕ) : PooledCommandRunner → Type 0 where
  begin : Runs pools (new_runner pools)
  invoked : {r : PooledCommandRunner} (c : Command) → Runs pools r → Runs pools (invoke c r)
  ended :
      {r : PooledCommandRunner} (before after : List Command) (c : Command)
      → Runs pools r
      → r.running ≡ before ++ c ∷ after
      → Runs pools (command_ended c (before ++ after) r)
