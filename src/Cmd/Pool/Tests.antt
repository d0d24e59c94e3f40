-- ===== src/Cmd/Pool/Tests.antt =====
-- Two links in a pool with one spot: the second waits for the end of the first.
use shuriken.Cmd.Pool.Bounded.{Runs-limits}
use shuriken.Cmd.Pool.Counts.{running_in, all_delayed}
use shuriken.Prelude.{ℕ, ◌==◌, ◌∷◌, ◌≡◌, [], false, refl, ◌≤◌, ◌⊎◌, string_eq}
use Prim.Native.String.{String}
use shuriken.Cmd.Pool.{
  Command, PooledCommandRunner, invoke, new_runner, invoke_now, delay, can_run_now, command_ended,
  invoke_delayed_job, spots, delayed_in, invoked, begin,
}
use shuriken.Prelude.Assoc.{Assoc}

abbrev one_link : Assoc String ℕ
one_link = ("link", 1) ∷ []

abbrev first : Command
first = record { command = "ld a"; pool = "link" }

abbrev second : Command
second = record { command = "ld b"; pool = "link" }

abbrev both : PooledCommandRunner
both = invoke second (invoke first (new_runner one_link))

both-waits : (both.running ≡ first ∷ []) × (both.delayed_commands_count ≡ 1)
unfolding invoke invoke_now delay can_run_now
both-waits = (refl, refl)

second-runs : (command_ended first [] both).running ≡ second ∷ []
unfolding invoke invoke_now delay can_run_now command_ended invoke_delayed_job
second-runs = refl

Runs-limits_example :
    ((p : String)
      → p == "" ≡ false
      → (running_in p both.running ≤ spots one_link p)
        × ((delayed_in both.delayed_commands p ≡ [])
            ⊎ (running_in p both.running ≡ spots one_link p)))
    × (delayed_in both.delayed_commands "" ≡ [])
    × (both.delayed_commands_count ≡ all_delayed both.delayed_commands)
Runs-limits_example = Runs-limits one_link both (invoked second (invoked first begin))
