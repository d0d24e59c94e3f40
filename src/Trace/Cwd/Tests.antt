-- ===== src/Trace/Cwd/Tests.antt =====
-- A thread of a shell changes its own directory and forks; then the shell changes its directory.
use shuriken.Trace.Cwd.{
  get_cwd, CwdCall, cwds_after, chdir_call, new_memo, change_cwd, fork_call, thread_chdir_call,
}
use shuriken.Prelude.{List, ◌≡◌, ◌∷◌, refl, []}

-- The newest call first
abbrev calls : List CwdCall
calls = chdir_call 1 "/b" ∷ fork_call 1 5 2 ∷ thread_chdir_call 5 "/a" ∷ []

get_cwd-forked :
    (get_cwd (cwds_after 1 "/" calls) 2 9 ≡ "/a") × (get_cwd (cwds_after 1 "/" calls) 1 9 ≡ "/b")
unfolding get_cwd cwds_after new_memo change_cwd
get_cwd-forked = (refl, refl)

-- A fork by a process that is not known makes the child known, with an empty directory.
get_cwd-unknown_parent : get_cwd (cwds_after 1 "/" (fork_call 7 9 1 ∷ [])) 1 9 ≡ ""
unfolding get_cwd cwds_after new_memo change_cwd
get_cwd-unknown_parent = refl
