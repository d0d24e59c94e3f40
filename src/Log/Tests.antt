-- ===== src/Log/Tests.antt =====
-- A log with a compiler's run in it, a file that is torn off, and a log that keeps commands back.
use shuriken.Log.Synced.Reread.{parse_bytes-torn}
use shuriken.Log.Synced.{file_start, IsFile-start}
use Prim.Native.String.{String}
use shuriken.Log.Delayed.{
  DelayedCall, destroy, DelayedEntry, ran_at, call_all, write_entries, created_dir, no_command,
  cleaned_at,
}
use shuriken.Log.Synced.History.{run_log, IsReread, holding, run_log-IsReread}
use shuriken.Log.Synced.Effects.{Operation, created, ran, removed, cleaned, after_all}
use shuriken.Build.Data.{Entry}
use shuriken.Fs.FileSystem.{Stat, io_error, ok}
use shuriken.Log.Delayed.Flushed.{
  steps_of, IsSplit, no_delayed, write_entries-IsSplit, asked_all, destroy_passes_on,
}
use shuriken.Log.Parse.Ended.{IsOutcome, mapped_size, parse_persistent_invocation_log-IsOutcome}
use shuriken.Log.Bytes.{Bytes, put_u32, put_le}
use shuriken.Log.Parse.Names.{IsPath, path_payload}
use shuriken.Log.Bytes.RoundTrip.{IsStored}
use shuriken.Log.Operations.{RanCommand}
use shuriken.Fs.Fingerprint.{Fingerprint}
use shuriken.Log.Parse.{
  LogFile, parse_persistent_invocation_log, parse_bytes, returned, result_of, no_parsing, truncated,
}
use shuriken.Log.Data.{LogPath, Logged, no_invocations, path_type}
use shuriken.Log.Writer.Appends.{IsWorking}
use shuriken.Log.Writer.{Stream, Log, wrote}
use shuriken.Log.Synced.Commands.{IsCommand}
use shuriken.Prelude.{
  list_eq, nat_eq, List, false, arith, [], ◌++◌, ◌∷◌, none, map, true, ◌≡◌, refl, some, length,
}

abbrev device : Stream
device contents new = (contents ++ new, none)

device-IsWorking : IsWorking device
device-IsWorking contents new = refl

abbrev no_files : LogPath → Stat
no_files path = record { result = 2; mode = 0; size = 0; ino = 0; dev = 0; mtime = 0 }

abbrev one_thread : Logged → List (List Entry)
one_thread inv = map (λ e. e.1) inv.entries ∷ []

abbrev disk : LogFile
disk = record { mmap = io_error 2; unlink = none; truncate = λ n. none; lstat = no_files }

-- A regular file of three bytes
abbrev small_file : Fingerprint
small_file = record {
  stat = record { size = 3; ino = 7; mode = 33188; mtime = 1000 };
  racily_clean = false;
  hash = 99;
}

-- "a.c" and "a.o"
abbrev source : LogPath
source = 97 ∷ 46 ∷ 99 ∷ []

abbrev object : LogPath
object = 97 ∷ 46 ∷ 111 ∷ []

abbrev compile : RanCommand
compile = record {
  build_step_hash = 5;
  output_files = object ∷ [];
  output_fingerprints = small_file ∷ [];
  input_files = source ∷ object ∷ [];
  input_fingerprints = small_file ∷ small_file ∷ [];
  ignored_dependencies = 1 ∷ [];
  additional_dependencies = 8 ∷ [];
}

small_file-IsStored : IsStored small_file
small_file-IsStored = record {
  size_fits = omega arith;
  ino_fits = omega arith;
  mode_fits = omega arith;
  mtime_fits = omega arith;
  hash_fits = omega arith;
}

source-IsPath : IsPath source
source-IsPath = (omega arith, (omega arith, (omega arith, tt)))

object-IsPath : IsPath object
object-IsPath = (omega arith, (omega arith, (omega arith, tt)))

compile-IsCommand : IsCommand device device-IsWorking no_files compile
compile-IsCommand = record {
  hash_fits = omega arith;
  outputs_match = refl;
  inputs_match = refl;
  output_paths = (object-IsPath, tt);
  input_paths = (source-IsPath, (object-IsPath, tt));
  outputs_stored = (small_file-IsStored, tt);
  inputs_stored = (small_file-IsStored, (small_file-IsStored, tt));
  ignored_fit = (omega arith, tt);
  additional_fit = (omega arith, tt);
}

abbrev history : List Operation
history = created object ∷ ran compile ∷ removed object ∷ cleaned 5 ∷ ran compile ∷ []

run_log-IsReread_example :
    (log : Log) × (run_log device history ≡ wrote tt log)
    × IsReread device device-IsWorking
        (after_all history [])
        log
        (parse_persistent_invocation_log one_thread (holding disk log))
run_log-IsReread_example =
    run_log-IsReread device device-IsWorking one_thread disk history
      (object-IsPath, (compile-IsCommand, (object-IsPath, (omega arith, (compile-IsCommand, tt)))))
      (omega arith)

-- A path entry of which only the header and one byte are there
abbrev torn_front : Bytes
torn_front = 4 ∷ 0 ∷ 0 ∷ 0 ∷ 97 ∷ []

a_path : path_payload (97 ∷ []) ≡ 97 ∷ 0 ∷ 0 ∷ 0 ∷ []
a_path = refl

parse_bytes-torn_example :
    (message : String) × (parse_bytes one_thread disk (file_start ++ torn_front)
      ≡ returned
          (result_of
            (one_thread no_invocations)
            no_parsing
            (IsFile-start no_files).read.rounds
            (some message))
          (truncated (length file_start)))
unfolding put_u32 put_le
parse_bytes-torn_example =
    parse_bytes-torn one_thread disk file_start no_parsing (IsFile-start no_files) path_type
      (path_payload (97 ∷ [])) torn_front (0 ∷ 0 ∷ 0 ∷ [])
      (record { aligned = refl; typed = omega arith; small = omega arith }) refl (omega arith)
      (omega arith) refl

-- A file with a header that is no log
abbrev other_file : LogFile
other_file = record disk { mmap = ok (1 ∷ 2 ∷ 3 ∷ []) }

parse_persistent_invocation_log-IsOutcome_example :
    IsOutcome other_file
      (mapped_size other_file)
      (parse_persistent_invocation_log one_thread other_file)
parse_persistent_invocation_log-IsOutcome_example =
    parse_persistent_invocation_log-IsOutcome one_thread other_file

-- The clock goes on between the calls.
abbrev session : List DelayedCall
session = ran_at 10 compile ∷ created_dir object ∷ ran_at 10 compile ∷ cleaned_at 11 5 ∷ []

destroy_passes_on_example :
    (steps_of (destroy (call_all session no_delayed)).calls ≡ asked_all session)
    × ((destroy (call_all session no_delayed)).entries ≡ [])
destroy_passes_on_example =
    destroy_passes_on session (omega arith, (tt, (omega arith, (omega arith, tt))))

abbrev waiting : List DelayedEntry
waiting =
    record { timestamp = 10; cleaned_step = false; command = compile }
    ∷ record { timestamp = 11; cleaned_step = true; command = no_command 5 }
    ∷ []

write_entries-IsSplit_example : IsSplit 11 waiting [] (write_entries 11 waiting [])
write_entries-IsSplit_example = write_entries-IsSplit 11 waiting []
