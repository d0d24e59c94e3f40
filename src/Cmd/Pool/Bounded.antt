-- ===== src/Cmd/Pool/Bounded.antt =====
-- About the states that a pooled runner (pooled_command_runner.cpp) goes through.
use shuriken.Cmd.Pool.Counts.{
  running_in, can_run_now-eq, same_spots, same_delayed, all_delayed, same_empty, spots-insert,
  delayed_in-insert, running_in-append, all_delayed-insert,
}
use text.Mathlib.TextEquality.{eq_iff}
use shuriken.Prelude.{
  List, ℕ, ◌==◌, ◌≡◌, ◌∷◌, true, false, ◌++◌, length, ap, ◌+◌, arith, nat_beq, Bool-cases, ◌<◌, [],
  inl, string_eq, ◌-◌, inr, sym, unsnoc, some, ◌∙◌, unsnoc-some, length-append, ◌≤◌, Option-cases,
  ◌⊎◌, unsnoc-none, Nat-cases, refl,
}
use shuriken.Cmd.Pool.{
  can_run_now, PooledCommandRunner, Command, spots, invoke, delayed_in, invoke_now, delay,
  command_ended, Runs, invoke_delayed_job, invoked, ended, begin,
}
use shuriken.Prelude.Assoc.{Assoc, insert}
use Prim.Native.String.{String}

-- The state between the calls
record IsBounded (depth : Assoc String ℕ) (r : PooledCommandRunner) : Type 0 where
  balanced :
      (p : String) → p == "" ≡ false → spots r.pools p + running_in p r.running ≡ spots depth p
  busy : (p : String) → 0 < spots r.pools p → p == "" ≡ false → delayed_in r.delayed_commands p ≡ []
  unpooled : delayed_in r.delayed_commands "" ≡ []
  counted : r.delayed_commands_count ≡ all_delayed r.delayed_commands

module _ (depth : Assoc String ℕ) where
  invoke-IsBounded :
      (c : Command) (r : PooledCommandRunner) → IsBounded depth r → IsBounded depth (invoke c r)
  unfolding invoke invoke_now delay
  invoke-IsBounded c r h = elim (Bool-cases (can_run_now r c.pool)) [
    | inl can ↦ rw can (record {
      balanced = λ p e. ground (
        arith,
        h.balanced p e,
        can_run_now-eq r c.pool,
        same_spots p c.pool r.pools,
        same_empty p c.pool,
        spots-insert p c.pool (spots r.pools c.pool - 1) r.pools,
      );
      busy = λ p n e.
          h.busy p
            (ground (
              arith,
              n,
              can_run_now-eq r c.pool,
              same_spots p c.pool r.pools,
              spots-insert p c.pool (spots r.pools c.pool - 1) r.pools,
            ))
            e;
      unpooled = h.unpooled;
      counted = h.counted;
    })
    | inr cannot ↦
        let waiting = c ∷ delayed_in r.delayed_commands c.pool in
        rw cannot (record {
          balanced = h.balanced;
          busy = λ p n e. ground (
            arith,
            h.busy p n e,
            can_run_now-eq r c.pool,
            same_spots p c.pool r.pools,
            delayed_in-insert p c.pool waiting r.delayed_commands,
          );
          unpooled = ground (
            arith,
            h.unpooled,
            can_run_now-eq r c.pool,
            delayed_in-insert "" c.pool waiting r.delayed_commands,
          );
          counted = ground (arith, h.counted, all_delayed-insert c.pool waiting r.delayed_commands);
        })
  ]

  module _ (c : Command) (before after : List Command) (r : PooledCommandRunner)
      (h : IsBounded depth r) (ran : r.running ≡ before ++ c ∷ after) where
    abbrev freed : PooledCommandRunner
    freed = record r {
      pools = insert c.pool (spots r.pools c.pool + 1) r.pools;
      running = before ++ after;
    }

    freed-balanced :
        (p : String)
        → p == "" ≡ false
        → spots freed.pools p + running_in p freed.running ≡ spots depth p
    freed-balanced p e = ground (
      arith,
      h.balanced p e,
      spots-insert p c.pool (spots r.pools c.pool + 1) r.pools,
      same_spots p c.pool r.pools,
      running_in-append p before after,
      running_in-append p before (c ∷ after),
      ap (running_in p) ran,
    )

    -- A spot was free before, so nothing waits.
    freed-IsBounded : nat_beq (spots r.pools c.pool) 0 ≡ false → IsBounded depth freed
    freed-IsBounded n = record {
      balanced = freed-balanced;
      busy = λ p m e. elim (Bool-cases (c.pool == p)) [
        | inl q ↦ h.busy p (ground (arith, same_spots p c.pool r.pools)) e
        | inr q ↦
            h.busy p (ground (arith, m, spots-insert p c.pool (spots r.pools c.pool + 1) r.pools)) e
      ];
      unpooled = h.unpooled;
      counted = h.counted;
    }

    -- The pool was full: its first waiting command runs, or none waits.
    none_waits-IsBounded :
        nat_beq (spots r.pools c.pool) 0 ≡ true
        → delayed_in r.delayed_commands c.pool ≡ []
        → IsBounded depth freed
    none_waits-IsBounded z n = record {
      balanced = freed-balanced;
      busy = λ p m e. elim (Bool-cases (c.pool == p)) [
        | inl q ↦ sym (same_delayed p c.pool r.delayed_commands q) ∙ n
        | inr q ↦
            h.busy p (ground (arith, m, spots-insert p c.pool (spots r.pools c.pool + 1) r.pools)) e
      ];
      unpooled = h.unpooled;
      counted = h.counted;
    }

    next_runs-IsBounded :
        (rest : List Command) (d : Command)
        → nat_beq (spots r.pools c.pool) 0 ≡ true
        → unsnoc (delayed_in r.delayed_commands c.pool) ≡ some (rest, d)
        → IsBounded depth (
            invoke_now
              (record d { pool = c.pool })
              (record freed {
                delayed_commands = insert c.pool rest r.delayed_commands;
                delayed_commands_count = r.delayed_commands_count - 1;
              }))
    unfolding invoke_now
    next_runs-IsBounded rest d z u =
        let n = spots r.pools c.pool + 1 in
        let pooled : c.pool == "" ≡ false = elim (Bool-cases (c.pool == "")) [
          | inl q ↦ absurd (cc (same_delayed "" c.pool r.delayed_commands q, h.unpooled, u))
          | inr q ↦ q
        ] in
        let size : length (delayed_in r.delayed_commands c.pool) ≡ length rest + 1 = ground (
          arith,
          ap (length {A = Command}) (unsnoc-some _ rest d u),
          length-append rest (d ∷ []),
        ) in
        record {
          balanced = λ p e. ground (
            arith,
            freed-balanced p e,
            pooled,
            spots-insert c.pool c.pool n r.pools,
            spots-insert p c.pool n r.pools,
            spots-insert p c.pool (spots freed.pools c.pool - 1) freed.pools,
            eq_iff c.pool c.pool,
          );
          busy = λ p m e. elim (Bool-cases (c.pool == p)) [
            | inl q ↦ absurd (
                ground (
                  arith,
                  m,
                  pooled,
                  spots-insert c.pool c.pool n r.pools,
                  spots-insert p c.pool (spots freed.pools c.pool - 1) freed.pools,
                  eq_iff c.pool c.pool,
                ))
            | inr q ↦
                let old : 0 < spots r.pools p = ground (
                  arith,
                  m,
                  pooled,
                  spots-insert p c.pool n r.pools,
                  spots-insert p c.pool (spots freed.pools c.pool - 1) freed.pools,
                ) in
                ground (arith, h.busy p old e, delayed_in-insert p c.pool rest r.delayed_commands)
          ];
          unpooled =
              ground
                (arith, h.unpooled, pooled, delayed_in-insert "" c.pool rest r.delayed_commands);
          counted =
              ground (arith, h.counted, size, all_delayed-insert c.pool rest r.delayed_commands);
        }

    ended-IsBounded : IsBounded depth (command_ended c (before ++ after) r)
    unfolding command_ended invoke_delayed_job
    ended-IsBounded = elim (Bool-cases (nat_beq (spots r.pools c.pool) 0)) [
      | inl z ↦ elim (Option-cases (unsnoc (delayed_in r.delayed_commands c.pool))) [
        | inl n ↦
            rw (z, n, command_ended, invoke_delayed_job)
              (none_waits-IsBounded z (unsnoc-none (delayed_in r.delayed_commands c.pool) n))
        | inr ((rest, d), u) ↦
            rw (z, u, command_ended, invoke_delayed_job) (next_runs-IsBounded rest d z u)
      ]
      | inr n ↦ rw (n, command_ended) (freed-IsBounded n)
    ]

  runs-IsBounded : {r : PooledCommandRunner} → Runs depth r → IsBounded depth r
  runs-IsBounded begin = record {
    balanced = λ p e. omega arith;
    busy = λ p n e. refl;
    unpooled = refl;
    counted = refl;
  }
  runs-IsBounded (invoked {r} c e) = invoke-IsBounded c r (runs-IsBounded e)
  runs-IsBounded (ended {r} before after c e ran) =
      ended-IsBounded c before after r (runs-IsBounded e) ran

-- In every state that a runner reaches, whatever commands it is given and in whatever order they end:
-- no more commands of a pool run than it has spots, and none of a pool that is not declared; where a
-- command of a pool waits, as many run as the pool has spots; a command without a pool never waits;
-- and the number of waiting commands is that of all commands in the lists.
pub Runs-limits :
    (depth : Assoc String ℕ) (r : PooledCommandRunner)
    → Runs depth r
    → ((p : String)
        → p == "" ≡ false
        → (running_in p r.running ≤ spots depth p)
          × ((delayed_in r.delayed_commands p ≡ []) ⊎ (running_in p r.running ≡ spots depth p)))
      × (delayed_in r.delayed_commands "" ≡ [])
      × (r.delayed_commands_count ≡ all_delayed r.delayed_commands)
Runs-limits depth r runs =
    let h = runs-IsBounded depth runs in
    (
      (λ p e. (
        omega (arith, h.balanced p e),
        elim (Nat-cases (spots r.pools p)) [
          | inl z ↦ inr (omega (arith, h.balanced p e))
          | inr (n, z) ↦ inl (h.busy p (omega arith) e)
        ],
      )),
      h.unpooled,
      h.counted,
    )
