-- ===== src/Trace/Descriptors/Tests.antt =====
-- A shell opens two files, one of them until `exec`, and forks a compiler.
use shuriken.Trace.Descriptors.Refined.{path_of, get_file_descriptor_path-eq}
use shuriken.Trace.Descriptors.Table.{
  Operation, AreFresh, apply, memo_after, exec_op, fork_op, table_after, dup_op, open_op,
}
use shuriken.Trace.Descriptors.{
  get_file_descriptor_path, open_fd, dup_fd, fork_process, exec_process, erase_fds, fds_to_close,
}
use shuriken.Prelude.{List, ◌≡◌, ◌∷◌, false, true, [], refl}

-- The newest call first
abbrev calls : List Operation
calls =
    exec_op 8 ∷ fork_op 7 8 ∷ dup_op 7 3 5 false ∷ open_op 7 4 "b" false ∷ open_op 7 3 "a" true ∷ []

calls-AreFresh : AreFresh calls
calls-AreFresh = (tt, ((λ f. refl), (tt, (tt, (tt, tt)))))

exec_closes :
    (get_file_descriptor_path (memo_after calls) 8 3 ≡ "")
    × (get_file_descriptor_path (memo_after calls) 8 5 ≡ "a")
    × (get_file_descriptor_path (memo_after calls) 7 3 ≡ "a")
unfolding get_file_descriptor_path apply open_fd dup_fd fork_process exec_process erase_fds
    fds_to_close
exec_closes = (refl, refl, refl)

get_file_descriptor_path-eq_example :
    get_file_descriptor_path (memo_after calls) 8 5 ≡ path_of (table_after calls 8 5)
get_file_descriptor_path-eq_example = get_file_descriptor_path-eq calls 8 5 calls-AreFresh
