-- ===== src/Trace/Descriptors.antt =====
-- src/shk-trace/src/file_descriptor_memo.h and file_descriptor_memo.cpp: which path each open
-- descriptor of each process refers to. Descriptors and process ids are not negative, and are only
-- compared for equality.
pub mod Distinct
pub mod Table
pub mod WellFormed
pub mod Refined
mod Tests
use shuriken.Prelude.{ℕ, List, Bool, ◌∷◌, nat_eq, if◌then◌else◌, none, [], is_empty, some}
use shuriken.Prelude.Assoc.{Assoc, lookup, erase, insert}
use Prim.Native.String.{String}

-- `FDInfo`
pub record FdInfo : Type 0 where
  pub path : String
  pub cloexec : Bool

abbrev pub ProcessInfo : Type 0
ProcessInfo = Assoc ℕ FdInfo

-- `FileDescriptorMemo`
abbrev pub FileDescriptorMemo : Type 0
FileDescriptorMemo = Assoc ℕ ProcessInfo

-- `_processes[pid]` as a value: empty where the process is not known
abbrev pub process_at : FileDescriptorMemo → ℕ → ProcessInfo
process_at m pid = elim (lookup pid m) [ none ↦ [] | some info ↦ info ]

pub open_fd : FileDescriptorMemo → ℕ → ℕ → String → Bool → FileDescriptorMemo
open_fd m pid fd path cloexec =
    insert pid (insert fd (record { path = path; cloexec = cloexec }) (process_at m pid)) m

pub close_fd : FileDescriptorMemo → ℕ → ℕ → FileDescriptorMemo
close_fd m pid fd =
    let info = erase fd (process_at m pid) in
    if is_empty info then erase pid m else insert pid info m

pub dup_fd : FileDescriptorMemo → ℕ → ℕ → ℕ → Bool → FileDescriptorMemo
dup_fd m pid from_fd to_fd cloexec = elim (lookup pid m) [
  | none ↦ m
  | some info ↦ elim (lookup from_fd info) [
    | none ↦ m
    | some from ↦ insert pid (insert to_fd (record { path = from.path; cloexec = cloexec }) info) m
  ]
]

-- The first loop of `exec`
pub fds_to_close : ProcessInfo → List ℕ
fds_to_close [] = []
fds_to_close ((fd, info) ∷ rest) =
    let fds = fds_to_close rest in if info.cloexec then fd ∷ fds else fds

-- The second loop of `exec`
pub erase_fds : List ℕ → ProcessInfo → ProcessInfo
erase_fds [] info = info
erase_fds (fd ∷ fds) info = erase_fds fds (erase fd info)

pub exec_process : FileDescriptorMemo → ℕ → FileDescriptorMemo
exec_process m pid = elim (lookup pid m) [
  | none ↦ m
  | some info ↦ insert pid (erase_fds (fds_to_close info) info) m
]

pub fork_process : FileDescriptorMemo → ℕ → ℕ → FileDescriptorMemo
fork_process m ppid pid = elim (lookup ppid m) [ none ↦ m | some info ↦ insert pid info m ]

pub set_cloexec : FileDescriptorMemo → ℕ → ℕ → Bool → FileDescriptorMemo
set_cloexec m pid fd cloexec = elim (lookup pid m) [
  | none ↦ m
  | some info ↦ elim (lookup fd info) [
    | none ↦ m
    | some i ↦ insert pid (insert fd (record i { cloexec = cloexec }) info) m
  ]
]

pub terminated : FileDescriptorMemo → ℕ → FileDescriptorMemo
terminated m pid = erase pid m

pub get_file_descriptor_path : FileDescriptorMemo → ℕ → ℕ → String
get_file_descriptor_path m pid fd = elim (lookup pid m) [
  | none ↦ ""
  | some info ↦ elim (lookup fd info) [ none ↦ "" | some i ↦ i.path ]
]
