-- ===== src/Trace/Cwd.antt =====
-- src/shk-trace/src/cwd_memo.h and cwd_memo.cpp: the working directories of traced processes and of
-- threads. Process and thread ids are natural numbers.
pub mod Directory
mod Tests
use Prim.Native.String.{String}
use shuriken.Prelude.{ℕ, [], List, nat_eq, ◌∷◌, some, none}
use shuriken.Prelude.Assoc.{Assoc, insert, erase, lookup}

-- `CwdMemo`
pub record CwdMemo : Type 0 where
  pub process_cwds : Assoc ℕ String
  pub thread_cwds : Assoc ℕ String

pub new_memo : ℕ → String → CwdMemo
new_memo initial_pid initial_cwd = record {
  process_cwds = insert initial_pid initial_cwd [];
  thread_cwds = [];
}

pub get_cwd : CwdMemo → ℕ → ℕ → String
get_cwd m pid thread_id = elim (lookup thread_id m.thread_cwds) [
  | some path ↦ path
  | none ↦ elim (lookup pid m.process_cwds) [ some path ↦ path | none ↦ "" ]
]

-- The operations of the class that change it
pub data CwdCall : Type 0 where
  fork_call : ℕ → ℕ → ℕ → CwdCall
  chdir_call : ℕ → String → CwdCall
  exit_call : ℕ → CwdCall
  new_thread_call : ℕ → ℕ → CwdCall
  thread_chdir_call : ℕ → String → CwdCall
  thread_exit_call : ℕ → CwdCall

pub change_cwd : CwdCall → CwdMemo → CwdMemo
change_cwd (fork_call ppid parent_thread_id pid) m = record m {
  process_cwds = insert pid (get_cwd m ppid parent_thread_id) m.process_cwds;
}
change_cwd (chdir_call pid path) m = record m { process_cwds = insert pid path m.process_cwds }
change_cwd (exit_call pid) m = record m { process_cwds = erase pid m.process_cwds }
change_cwd (new_thread_call parent_thread_id child_thread_id) m = m
change_cwd (thread_chdir_call thread_id path) m = record m {
  thread_cwds = insert thread_id path m.thread_cwds;
}
change_cwd (thread_exit_call thread_id) m = record m { thread_cwds = erase thread_id m.thread_cwds }

-- The memo after the calls, of which the newest comes first
pub cwds_after : ℕ → String → List CwdCall → CwdMemo
cwds_after initial_pid initial_cwd [] = new_memo initial_pid initial_cwd
cwds_after initial_pid initial_cwd (c ∷ earlier) =
    change_cwd c (cwds_after initial_pid initial_cwd earlier)
