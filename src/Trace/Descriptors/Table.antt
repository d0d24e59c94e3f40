-- ===== src/Trace/Descriptors/Table.antt =====
-- The calls of file_descriptor_memo.h as data, and a table of descriptors that they change.

use Prim.Native.String.{String}
use shuriken.Prelude.Assoc.{lookup, has}
use shuriken.Trace.Descriptors.{
  FileDescriptorMemo, FdInfo, open_fd, close_fd, dup_fd, exec_process, fork_process, set_cloexec,
  terminated,
}
use shuriken.Prelude.{
  ℕ, Option, Bool, if◌then◌else◌, List, ◌∷◌, none, ◌==◌, ◌≡◌, some, ◌&&◌, [], nat_eq,
}

abbrev pub Table : Type 0
Table = ℕ → ℕ → Option FdInfo

abbrev pub view : FileDescriptorMemo → Table
view m pid fd = elim (lookup pid m) [ none ↦ none | some info ↦ lookup fd info ]

-- The calls that change the memo
pub data Operation : Type 0 where
  open_op : ℕ → ℕ → String → Bool → Operation
  close_op : ℕ → ℕ → Operation
  dup_op : ℕ → ℕ → ℕ → Bool → Operation
  exec_op : ℕ → Operation
  fork_op : ℕ → ℕ → Operation
  set_cloexec_op : ℕ → ℕ → Bool → Operation
  terminated_op : ℕ → Operation

unfoldable pub apply : Operation → FileDescriptorMemo → FileDescriptorMemo
apply (open_op pid fd path cloexec) m = open_fd m pid fd path cloexec
apply (close_op pid fd) m = close_fd m pid fd
apply (dup_op pid from_fd to_fd cloexec) m = dup_fd m pid from_fd to_fd cloexec
apply (exec_op pid) m = exec_process m pid
apply (fork_op ppid pid) m = fork_process m ppid pid
apply (set_cloexec_op pid fd cloexec) m = set_cloexec m pid fd cloexec
apply (terminated_op pid) m = terminated m pid

abbrev survives : Option FdInfo → Option FdInfo
survives none = none
survives (some i) = if i.cloexec then none else some i

abbrev with_cloexec : Bool → Option FdInfo → Option FdInfo
with_cloexec b none = none
with_cloexec b (some i) = some (record i { cloexec = b })

-- What each call means for the table
abbrev pub meaning : Operation → Table → Table
meaning (open_op pid fd path cloexec) t p f =
    if p == pid && f == fd then some (record { path = path; cloexec = cloexec }) else t p f
meaning (close_op pid fd) t p f = if p == pid && f == fd then none else t p f
meaning (dup_op pid from_fd to_fd cloexec) t p f =
    if p == pid && f == to_fd && has (t pid from_fd)
    then with_cloexec cloexec (t pid from_fd)
    else t p f
meaning (exec_op pid) t p f = if p == pid then survives (t p f) else t p f
meaning (fork_op ppid pid) t p f = if p == pid then t ppid f else t p f
meaning (set_cloexec_op pid fd cloexec) t p f =
    if p == pid && f == fd then with_cloexec cloexec (t p f) else t p f
meaning (terminated_op pid) t p f = if p == pid then none else t p f

-- The memo, and the table, after the calls, of which the newest comes first
abbrev pub memo_after : List Operation → FileDescriptorMemo
memo_after [] = []
memo_after (o ∷ earlier) = apply o (memo_after earlier)

abbrev pub table_after : List Operation → Table
table_after [] = λ p f. none
table_after (o ∷ earlier) = meaning o (table_after earlier)

-- A process that is forked has no descriptors yet.
abbrev pub IsFresh : Operation → Table → Type 0
IsFresh (fork_op ppid pid) t = (f : ℕ) → t pid f ≡ none
IsFresh _ t = Unit

abbrev pub AreFresh : List Operation → Type 0
AreFresh [] = Unit
AreFresh (o ∷ earlier) = IsFresh o (table_after earlier) × AreFresh earlier
