-- ===== src/Log/Delayed.antt =====
-- src/shk/src/log/delayed_invocation_log.cpp: `DelayedInvocationLog`, which keeps commands back until the
-- second in which they ran is over. What it calls of the log behind it is a list of operations, the
-- oldest first. The clock's answer is an argument of the methods that ask for it.
pub mod Flushed
use shuriken.Fs.Fingerprint.{Fingerprint}
use shuriken.Log.Data.{LogPath}
use shuriken.Fs.FileSystem.{Hash}
use shuriken.Log.Synced.Effects.{Operation, created, removed, cleaned, ran}
use shuriken.Log.Operations.{RanCommand}
use shuriken.Prelude.{ℕ, List, ◌++◌, Bool, ◌∷◌, [], false, true, if◌then◌else◌, map, leb}

-- `DelayedEntry`; a cleaned step has its hash in the command, and nothing else.
pub record DelayedEntry : Type 0 where
  pub timestamp : ℕ
  pub cleaned_step : Bool
  pub command : RanCommand

-- `DelayedInvocationLog`: its entries, and the calls of `_inner_log` so far
pub record DelayedLog : Type 0 where
  pub entries : List DelayedEntry
  pub calls : List Operation

-- `setFingerprintNotRacilyClean`
abbrev pub not_racily_clean : Fingerprint → Fingerprint
not_racily_clean fp = record fp { racily_clean = false }

abbrev pub set_fingerprint_not_racily_clean : List Fingerprint → List Fingerprint
set_fingerprint_not_racily_clean fps = map not_racily_clean fps

abbrev pub clean_fingerprints : RanCommand → RanCommand
clean_fingerprints cmd = record cmd {
  output_fingerprints = set_fingerprint_not_racily_clean cmd.output_fingerprints;
  input_fingerprints = set_fingerprint_not_racily_clean cmd.input_fingerprints;
}

-- The call that an entry waits for
unfoldable pub call_of : DelayedEntry → Operation
call_of e =
    if e.cleaned_step then cleaned e.command.build_step_hash else ran (clean_fingerprints e.command)

-- The loop of `writeDelayedEntries`, with what it erases left out
unfoldable pub write_entries :
    ℕ → List DelayedEntry → List Operation → List DelayedEntry × List Operation
unfolding call_of
write_entries now [] calls = ([], calls)
write_entries now (e ∷ es) calls =
    let rest = write_entries now es (calls ++ call_of e ∷ []) in
    if leb now e.timestamp then (e ∷ es, calls) else rest

unfoldable pub write_delayed_entries : ℕ → DelayedLog → DelayedLog
unfolding write_entries
write_delayed_entries now log =
    let (entries, calls) = write_entries now log.entries log.calls in
    record { entries = entries; calls = calls }

abbrev pub push : DelayedEntry → DelayedLog → DelayedLog
push e log = record log { entries = log.entries ++ e ∷ [] }

abbrev pub forward : Operation → DelayedLog → DelayedLog
forward op log = record log { calls = log.calls ++ op ∷ [] }

abbrev pub no_command : Hash → RanCommand
no_command h = record {
  build_step_hash = h;
  output_files = [];
  output_fingerprints = [];
  input_files = [];
  input_fingerprints = [];
  ignored_dependencies = [];
  additional_dependencies = [];
}

-- The methods: `ranCommand`, `cleanedCommand`, `createdDirectory` and `removedDirectory`
unfoldable pub delayed_ran_command : ℕ → RanCommand → DelayedLog → DelayedLog
unfolding write_delayed_entries
delayed_ran_command now cmd log =
    push (record { timestamp = now; cleaned_step = false; command = cmd })
      (write_delayed_entries now log)

unfoldable pub delayed_cleaned_command : ℕ → Hash → DelayedLog → DelayedLog
unfolding write_delayed_entries
delayed_cleaned_command now h log =
    push (record { timestamp = now; cleaned_step = true; command = no_command h })
      (write_delayed_entries now log)

abbrev pub delayed_created_directory : LogPath → DelayedLog → DelayedLog
delayed_created_directory path log = forward (created path) log

abbrev pub delayed_removed_directory : LogPath → DelayedLog → DelayedLog
delayed_removed_directory path log = forward (removed path) log

-- The largest `time_t`, and the destructor
abbrev pub end_of_time : ℕ
end_of_time = 9223372036854775807

unfoldable pub destroy : DelayedLog → DelayedLog
unfolding write_delayed_entries
destroy log = write_delayed_entries end_of_time log

-- A call of a method, with the time of the clock
pub data DelayedCall : Type 0 where
  ran_at : ℕ → RanCommand → DelayedCall
  cleaned_at : ℕ → Hash → DelayedCall
  created_dir : LogPath → DelayedCall
  removed_dir : LogPath → DelayedCall

unfoldable pub call : DelayedCall → DelayedLog → DelayedLog
unfolding delayed_ran_command delayed_cleaned_command
call (ran_at now cmd) log = delayed_ran_command now cmd log
call (cleaned_at now h) log = delayed_cleaned_command now h log
call (created_dir path) log = delayed_created_directory path log
call (removed_dir path) log = delayed_removed_directory path log

abbrev pub call_all : List DelayedCall → DelayedLog → DelayedLog
call_all [] log = log
call_all (c ∷ cs) log = call_all cs (call c log)
