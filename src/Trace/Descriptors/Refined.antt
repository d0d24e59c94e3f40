-- ===== src/Trace/Descriptors/Refined.antt =====
-- About the calls of file_descriptor_memo.cpp, compared with their meaning for the table.
use shuriken.Trace.Descriptors.Distinct.{lookup-erase_fds, elem-fds_to_close}
use mathlib.Core.Path.{subst}
use shuriken.Trace.Descriptors.WellFormed.{IsWellFormed, apply-IsWellFormed}
use Prim.Native.String.{String}
use shuriken.Prelude.Assoc.{lookup, insert, lookup-insert, erase, lookup-erase}
use shuriken.Prelude.{
  List, Option, ℕ, is_empty, ◌==◌, some, ◌≡◌, Option-cases, true, ◌∷◌, if◌then◌else◌, none, arith,
  inl, nat_eq, ap, inr, [], sym, ◌∙◌, refl,
}
use shuriken.Trace.Descriptors.Table.{
  apply, Operation, view, AreFresh, memo_after, table_after, IsFresh, meaning, Table, open_op,
  close_op, dup_op, exec_op, fork_op, set_cloexec_op, terminated_op,
}
use shuriken.Trace.Descriptors.{
  FileDescriptorMemo, ProcessInfo, get_file_descriptor_path, open_fd, FdInfo, close_fd, process_at,
  dup_fd, exec_process, fork_process, set_cloexec, terminated, erase_fds, fds_to_close,
}

view-insert :
    (m : FileDescriptorMemo) (pid : ℕ) (info : ProcessInfo) (p f : ℕ)
    → view (insert pid info m) p f ≡ (if p == pid then lookup f info else view m p f)
view-insert m pid info p f = ground (arith, lookup-insert pid p info m)

lookup-process_at :
    (m : FileDescriptorMemo) (pid f : ℕ) → lookup f (process_at m pid) ≡ view m pid f
lookup-process_at m pid f = elim (Option-cases (lookup pid m)) [
  | inl n ↦ ground (arith, n)
  | inr (info, e) ↦ ground (arith, e)
]

is_empty-lookup : (m : ProcessInfo) (f : ℕ) → is_empty m ≡ true → lookup f m ≡ none
is_empty-lookup [] f h = refl
is_empty-lookup (x ∷ m) f h = absurd (cc)

same_row : (m : FileDescriptorMemo) (p pid f : ℕ) → p == pid ≡ true → view m p f ≡ view m pid f
same_row m p pid f h = let same : p ≡ pid = ground arith in ap (λ x. view m x f) same

view-apply :
    (o : Operation) (m : FileDescriptorMemo)
    → IsWellFormed m
    → IsFresh o (view m)
    → (p f : ℕ) → view (apply o m) p f ≡ meaning o (view m) p f
unfolding apply open_fd close_fd dup_fd exec_process fork_process set_cloexec terminated
view-apply (open_op pid fd path cloexec) m h fresh p f =
    let info : FdInfo = record { path = path; cloexec = cloexec } in
    ground (
      arith,
      view-insert m pid (insert fd info (process_at m pid)) p f,
      lookup-insert fd f info (process_at m pid),
      lookup-process_at m pid f,
      same_row m p pid f,
    )
view-apply (close_op pid fd) m h fresh p f =
    let left = erase fd (process_at m pid) in
    ground (
      arith,
      view-insert m pid left p f,
      lookup-erase fd f (process_at m pid),
      lookup-process_at m pid f,
      same_row m p pid f,
      lookup-erase pid p m,
      is_empty-lookup left f,
    )
view-apply (dup_op pid from_fd to_fd cloexec) m h fresh p f = elim (Option-cases (lookup pid m)) [
  | inl n ↦ ground (arith, n)
  | inr (info, e) ↦ elim (Option-cases (lookup from_fd info)) [
    | inl n ↦ ground (arith, e, n)
    | inr (i, l) ↦
        let copy : FdInfo = record { path = i.path; cloexec = cloexec } in
        ground (
          arith,
          e,
          l,
          view-insert m pid (insert to_fd copy info) p f,
          lookup-insert to_fd f copy info,
          same_row m p pid f,
        )
  ]
]
view-apply (exec_op pid) m h fresh p f = elim (Option-cases (lookup pid m)) [
  | inl n ↦ ground (arith, n, same_row m p pid f)
  | inr (info, e) ↦ ground (
    arith,
    e,
    view-insert m pid (erase_fds (fds_to_close info) info) p f,
    lookup-erase_fds (fds_to_close info) info f,
    elem-fds_to_close info f (h pid info e),
    same_row m p pid f,
  )
]
view-apply (fork_op ppid pid) m h fresh p f = elim (Option-cases (lookup ppid m)) [
  | inl n ↦ ground (arith, n, same_row m p pid f, fresh f)
  | inr (info, e) ↦ ground (arith, e, view-insert m pid info p f)
]
view-apply (set_cloexec_op pid fd cloexec) m h fresh p f = elim (Option-cases (lookup pid m)) [
  | inl n ↦ ground (arith, n, same_row m p pid f)
  | inr (info, e) ↦ elim (Option-cases (lookup fd info)) [
    | inl n ↦ ground (arith, e, n, same_row m p pid f, ap (λ x. lookup x info))
    | inr (i, l) ↦
        let changed : FdInfo = record i { cloexec = cloexec } in
        ground (
          arith,
          e,
          l,
          view-insert m pid (insert fd changed info) p f,
          lookup-insert fd f changed info,
          same_row m p pid f,
        )
  ]
]
view-apply (terminated_op pid) m h fresh p f = ground (arith, lookup-erase pid p m)

memo_after-IsWellFormed : (ops : List Operation) → IsWellFormed (memo_after ops)
memo_after-IsWellFormed [] = λ p i e. absurd (cc)
memo_after-IsWellFormed (o ∷ earlier) =
    apply-IsWellFormed o (memo_after earlier) (memo_after-IsWellFormed earlier)

view-memo_after : (ops : List Operation) → AreFresh ops → view (memo_after ops) ≡ table_after ops
view-memo_after [] h = refl
view-memo_after (o ∷ earlier) (fresh, h) =
    let same = view-memo_after earlier h in
    let fresh' : IsFresh o (view (memo_after earlier)) = subst (IsFresh o) (sym same) fresh in
    let step : view (apply o (memo_after earlier)) ≡ meaning o (view (memo_after earlier)) =
      λ j p f. view-apply o (memo_after earlier) (memo_after-IsWellFormed earlier) fresh' p f j in
    step ∙ ap (meaning o) same

abbrev pub path_of : Option FdInfo → String
path_of none = ""
path_of (some i) = i.path

-- After any calls, where each process that is forked had no descriptors yet: the path of a descriptor
-- of a process is what the calls mean for the table of descriptors. Opening sets one entry, closing
-- clears one, duplicating copies one if it is there, with its own flag, setting a flag changes it where
-- the entry is there, `exec` clears the entries of the process that have the flag, a fork copies those of its parent, and the end of a process clears its
-- own; and where the table has no entry the path is empty.
pub get_file_descriptor_path-eq :
    (ops : List Operation) (pid fd : ℕ)
    → AreFresh ops
    → get_file_descriptor_path (memo_after ops) pid fd ≡ path_of (table_after ops pid fd)
unfolding get_file_descriptor_path
get_file_descriptor_path-eq ops pid fd h =
    let m = memo_after ops in
    let seen : get_file_descriptor_path m pid fd ≡ path_of (view m pid fd) =
      elim (Option-cases (lookup pid m)) [
        | inl n ↦ ground (arith, n)
        | inr (info, e) ↦ elim (Option-cases (lookup fd info)) [
          | inl n ↦ ground (arith, e, n)
          | inr (i, l) ↦ ground (arith, e, l)
        ]
      ] in
    seen ∙ ap (λ (t : Table). path_of (t pid fd)) (view-memo_after ops h)
