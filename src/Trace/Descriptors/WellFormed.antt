-- ===== src/Trace/Descriptors/WellFormed.antt =====
-- About the calls of file_descriptor_memo.cpp, and duplicates in the maps.
use mathlib.Core.Path.{subst}
use shuriken.Trace.Descriptors.Distinct.{
  IsDistinct, insert-IsDistinct, erase-IsDistinct, erase_fds-IsDistinct,
}
use shuriken.Prelude.Assoc.{erase, lookup, insert, lookup-erase, lookup-insert}
use shuriken.Prelude.{
  ℕ, arith, Option-cases, Bool-cases, ◌≡◌, some, inl, nat_eq, ◌==◌, [], inr, is_empty,
}
use shuriken.Trace.Descriptors.Table.{
  apply, Operation, open_op, close_op, dup_op, exec_op, fork_op, set_cloexec_op, terminated_op,
}
use shuriken.Trace.Descriptors.{
  FileDescriptorMemo, open_fd, ProcessInfo, close_fd, process_at, dup_fd, exec_process,
  fork_process, set_cloexec, terminated, fds_to_close,
}

abbrev pub IsWellFormed : FileDescriptorMemo → Type 0
IsWellFormed m = (pid : ℕ) (info : ProcessInfo) → lookup pid m ≡ some info → IsDistinct info

process_at-IsDistinct :
    (m : FileDescriptorMemo) (pid : ℕ) → IsWellFormed m → IsDistinct (process_at m pid)
process_at-IsDistinct m pid h = elim (Option-cases (lookup pid m)) [
  | inl n ↦ let none_known : [] ≡ process_at m pid = ground arith in subst IsDistinct none_known tt
  | inr (info, e) ↦
      let known : info ≡ process_at m pid = ground arith in subst IsDistinct known (h pid info e)
]

insert-IsWellFormed :
    (m : FileDescriptorMemo) (pid : ℕ) (info : ProcessInfo)
    → IsDistinct info
    → IsWellFormed m
    → IsWellFormed (insert pid info m)
insert-IsWellFormed m pid info d h p i e = elim (Bool-cases (pid == p)) [
  | inl q ↦ subst IsDistinct (ground (arith, lookup-insert pid p info m)) d
  | inr q ↦ h p i (ground (arith, lookup-insert pid p info m))
]

erase-IsWellFormed :
    (m : FileDescriptorMemo) (pid : ℕ) → IsWellFormed m → IsWellFormed (erase pid m)
erase-IsWellFormed m pid h p i e = h p i (ground (arith, lookup-erase pid p m))

pub apply-IsWellFormed :
    (o : Operation) (m : FileDescriptorMemo) → IsWellFormed m → IsWellFormed (apply o m)
unfolding apply open_fd close_fd dup_fd exec_process fork_process set_cloexec terminated
apply-IsWellFormed (open_op pid fd path cloexec) m h =
    insert-IsWellFormed m pid _ (insert-IsDistinct fd _ _ (process_at-IsDistinct m pid h)) h
apply-IsWellFormed (close_op pid fd) m h =
    elim (Bool-cases (is_empty (erase fd (process_at m pid)))) [
      | inl e ↦ rw e (erase-IsWellFormed m pid h)
      | inr e ↦
          rw e
            (insert-IsWellFormed m pid _ (erase-IsDistinct fd _ (process_at-IsDistinct m pid h)) h)
    ]
apply-IsWellFormed (dup_op pid from_fd to_fd cloexec) m h = elim (Option-cases (lookup pid m)) [
  | inl n ↦ rw (n, dup_fd) h
  | inr (info, e) ↦ elim (Option-cases (lookup from_fd info)) [
    | inl n ↦ rw (e, n, dup_fd) h
    | inr (i, l) ↦
        rw (e, l, dup_fd)
          (insert-IsWellFormed m pid _ (insert-IsDistinct to_fd _ info (h pid info e)) h)
  ]
]
apply-IsWellFormed (exec_op pid) m h = elim (Option-cases (lookup pid m)) [
  | inl n ↦ rw (n, exec_process) h
  | inr (info, e) ↦
      rw (e, exec_process)
        (insert-IsWellFormed m pid _ (erase_fds-IsDistinct (fds_to_close info) info (h pid info e))
          h)
]
apply-IsWellFormed (fork_op ppid pid) m h = elim (Option-cases (lookup ppid m)) [
  | inl n ↦ rw (n, fork_process) h
  | inr (info, e) ↦ rw (e, fork_process) (insert-IsWellFormed m pid info (h ppid info e) h)
]
apply-IsWellFormed (set_cloexec_op pid fd cloexec) m h = elim (Option-cases (lookup pid m)) [
  | inl n ↦ rw (n, set_cloexec) h
  | inr (info, e) ↦ elim (Option-cases (lookup fd info)) [
    | inl n ↦ rw (e, n, set_cloexec) h
    | inr (i, l) ↦
        rw (e, l, set_cloexec)
          (insert-IsWellFormed m pid _ (insert-IsDistinct fd _ info (h pid info e)) h)
  ]
]
apply-IsWellFormed (terminated_op pid) m h = erase-IsWellFormed m pid h
