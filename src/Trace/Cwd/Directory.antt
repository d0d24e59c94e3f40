-- ===== src/Trace/Cwd/Directory.antt =====
-- About `CwdMemo` of cwd_memo.cpp, compared with the history of calls.
use shuriken.Trace.Cwd.{
  CwdCall, thread_chdir_call, fork_call, thread_exit_call, chdir_call, exit_call, new_thread_call,
}
use Prim.Native.String.{String}
use shuriken.Prelude.{ℕ, Option, List, some, none, if◌then◌else◌, ◌∷◌, ◌==◌, [], nat_eq}

-- The directory that a thread set for itself and has not given up since
abbrev pub thread_directory : ℕ → List CwdCall → Option String
thread_directory t [] = none
thread_directory t (thread_chdir_call u path ∷ earlier) =
    if u == t then some path else thread_directory t earlier
thread_directory t (thread_exit_call u ∷ earlier) =
    if u == t then none else thread_directory t earlier
thread_directory t (_ ∷ earlier) = thread_directory t earlier

abbrev pub directory_or : Option String → Option String → String
directory_or (some path) o = path
directory_or none (some path) = path
directory_or none none = ""

module _ (initial_pid : ℕ) (initial_cwd : String) where
  -- The directory that a process set, or had from the thread that forked it, and has not left by its end
  abbrev pub process_directory : ℕ → List CwdCall → Option String
  process_directory p [] = if initial_pid == p then some initial_cwd else none
  process_directory p (fork_call ppid t q ∷ earlier) =
      let inherited = directory_or (thread_directory t earlier) (process_directory ppid earlier) in
      let before = process_directory p earlier in if q == p then some inherited else before
  process_directory p (chdir_call q path ∷ earlier) =
      let before = process_directory p earlier in if q == p then some path else before
  process_directory p (exit_call q ∷ earlier) =
      let before = process_directory p earlier in if q == p then none else before
  process_directory p (new_thread_call t u ∷ earlier) = process_directory p earlier
  process_directory p (thread_chdir_call t path ∷ earlier) = process_directory p earlier
  process_directory p (thread_exit_call t ∷ earlier) = process_directory p earlier
