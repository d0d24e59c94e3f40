-- ===== src/Build/Cleanup/Removed.antt =====
-- About `deleteBuildProduct` of build.cpp: which directories it removes, and that it ends.
use mathlib.Core.List.{append_assoc, append-nil}
use shuriken.Util.Split.{dirname}
use shuriken.Util.Split.Shorter.{shorter_dirname, dot_path, slash_path}
use shuriken.Log.Data.{LogPath, Logged}
use shuriken.Log.Synced.Effects.{removed}
use shuriken.Build.Cleanup.{
  ◌>>=◌, ◌>>◌, Os, World, Did, did, raised, was_created, delete_ancestors, delete_build_product,
  Action, unlink_error, after_rmdir, enotempty, enoent,
}
use shuriken.Prelude.{
  zero, list_eq, nat_eq, refl, List, ℕ, ◌≡◌, [], true, length, suc, ◌++◌, ◌∷◌, ◌+◌, ◌≢◌, ◌≤◌, ◌⊎◌,
  inr, inl, ◌∙◌, ap, sym, arith, Option, Bool-cases, list_beq, false, list_beq_iff, some, nat_beq,
  none, nat_beq_iff, map,
}

module _ {W : Type 0} (os : Os W) (invocations : Logged) where
  -- Directories above a path that `rmdir` removed one after the other, the nearest first and without a
  -- gap: each was another path than the last, and when its turn came it was there and was one that an
  -- earlier build created. `top` is the last of them, or the path.
  pub data Climb : LogPath → W → List LogPath → LogPath → W → Type 0 where
    here : {path : LogPath} {files : W} → Climb path files [] path files
    up :
        {path top : LogPath} {dirs : List LogPath} {files next last : W}
        → dirname path ≢ path
        → was_created os invocations (dirname path) files ≡ true
        → os.rmdir (dirname path) files ≡ (none, next)
        → Climb (dirname path) next dirs top last
        → Climb path files (dirname path ∷ dirs) top last

  -- Why nothing above `top` is removed, with the error to raise and the files that it leaves
  pub data IsStop (top : LogPath) (files : W) : Option ℕ → W → Type 0 where
    at_top : dirname top ≡ top → IsStop top files none files
    not_created :
        was_created os invocations (dirname top) files ≡ false → IsStop top files none files
    not_empty :
        {after : W}
        → was_created os invocations (dirname top) files ≡ true
        → os.rmdir (dirname top) files ≡ (some enotempty, after)
        → IsStop top files none after
    not_removed :
        {after : W} (code : ℕ)
        → was_created os invocations (dirname top) files ≡ true
        → code ≢ enotempty
        → os.rmdir (dirname top) files ≡ (some code, after)
        → IsStop top files (some code) after

  abbrev pub ends_with : Option ℕ → World W → Did W (Unit {0})
  ends_with none w = did tt w
  ends_with (some code) w = raised code w

  -- What is done above a path from some state on: what was removed is logged, and nothing else.
  pub data IsClimb (path : LogPath) (w : World W) (outcome : Did W (Unit {0})) : Type 0 where
    climbed :
        (dirs : List LogPath) (top : LogPath) (last after : W) (error : Option ℕ)
        → Climb path w.files dirs top last
        → IsStop top last error after
        → outcome ≡ ends_with error (record { files = after; calls = w.calls ++ map removed dirs })
        → IsClimb path w outcome

  -- The path is unlinked first. Where that fails, and not because the path is not there, that is all.
  pub data IsDeletion (path : LogPath) (w : World W) (outcome : Did W (Unit {0})) : Type 0 where
    unlinked :
        (error : Option ℕ) (files : W)
        → os.unlink path w.files ≡ (error, files)
        → (error ≡ none) ⊎ (error ≡ some enoent)
        → IsClimb path (record w { files = files }) outcome
        → IsDeletion path w outcome
    not_unlinked :
        (code : ℕ) (files : W)
        → os.unlink path w.files ≡ (some code, files)
        → code ≢ enoent
        → outcome ≡ raised code (record w { files = files })
        → IsDeletion path w outcome

  IsStop-IsClimb :
      (path : LogPath) (w : World W) (error : Option ℕ) (after : W)
      → IsStop path w.files error after
      → IsClimb path w (ends_with error (record w { files = after }))
  IsStop-IsClimb path w error after stop = climbed [] path w.files after error here stop (
      ap (λ ops. ends_with error (record { files = after; calls = ops }))
        (sym (append-nil w.calls)))

  IsClimb-up :
      (path : LogPath) (w : World W) (next : W) (outcome : Did W (Unit {0}))
      → dirname path ≢ path
      → was_created os invocations (dirname path) w.files ≡ true
      → os.rmdir (dirname path) w.files ≡ (none, next)
      → IsClimb
          (dirname path)
          (record { files = next; calls = w.calls ++ removed (dirname path) ∷ [] })
          outcome
      → IsClimb path w outcome
  IsClimb-up path w next outcome moves created gone
        (climbed dirs top last after error climb stop e) =
      climbed (dirname path ∷ dirs) top last after error (up moves created gone climb) stop (
        e
        ∙ ap (λ ops. ends_with error (record { files = after; calls = ops }))
            (append_assoc w.calls (removed (dirname path) ∷ []) (map removed dirs)))

  -- Enough fuel for what is left of the path
  abbrev IsEnough : ℕ → LogPath → Type 0
  IsEnough fuel path = (length path + 3 ≤ fuel) ⊎ ((1 ≤ fuel) × (dirname path ≡ path))

  dirname-dot : dirname dot_path ≡ dot_path
  unfolding dirname
  dirname-dot = refl

  dirname-slash : dirname slash_path ≡ slash_path
  unfolding dirname
  dirname-slash = refl

  differs : (xs ys : LogPath) → list_beq xs ys ≡ false → xs ≢ ys
  differs xs ys e same = ground (arith, list_beq_iff xs ys)

  IsEnough-dirname :
      (fuel : ℕ) (path : LogPath)
      → IsEnough (suc fuel) path
      → dirname path ≢ path
      → IsEnough fuel (dirname path)
  IsEnough-dirname fuel path (inr (some_fuel, stays)) moves = absurd (moves stays)
  IsEnough-dirname fuel path (inl enough) moves = elim (shorter_dirname path) [
    | inl shorter ↦ inl (omega arith)
    | inr (inl dot) ↦ inr (omega arith, ap dirname dot ∙ dirname-dot ∙ sym dot)
    | inr (inr slash) ↦ inr (omega arith, ap dirname slash ∙ dirname-slash ∙ sym slash)
  ]

  -- A test that failed says that the codes differ.
  other_code : (code expected : ℕ) → nat_beq code expected ≡ false → code ≢ expected
  other_code code expected e same = ground (arith, nat_beq_iff code expected)

  after_rmdir-IsClimb :
      (path : LogPath) (w : World W) (rest : Action W (Unit {0}))
      → dirname path ≢ path
      → was_created os invocations (dirname path) w.files ≡ true
      → ((next : World W) → IsClimb (dirname path) next (rest next))
      → (result : Option ℕ × W) → os.rmdir (dirname path) w.files ≡ result
      → IsClimb path w (after_rmdir os (dirname path) rest result.0 (record w { files = result.1 }))
  after_rmdir-IsClimb path w rest moves created further (none, files) e =
      let next = record w { files = files; calls = w.calls ++ removed (dirname path) ∷ [] } in
      IsClimb-up path w files (rest next) moves created e (further next)
  after_rmdir-IsClimb path w rest moves created further (some code, files) e =
      elim (Bool-cases (nat_beq code enotempty)) [
        | inl stop ↦
            let same : code ≡ enotempty = ground (arith, nat_beq_iff code enotempty) in
            rw (stop, after_rmdir)
              (IsStop-IsClimb path w none files
                (not_empty created (e ∙ ap (λ c. (some c, files)) same)))
        | inr error ↦
            rw (error, after_rmdir)
              (IsStop-IsClimb path w (some code) files
                (not_removed code created (other_code code enotempty error) e))
      ]

  delete_ancestors-IsClimb :
      (fuel : ℕ) (path : LogPath) (w : World W)
      → IsEnough fuel path
      → IsClimb path w (delete_ancestors os fuel invocations path w)
  unfolding delete_ancestors
  delete_ancestors-IsClimb zero path w (inl enough) = absurd (omega arith)
  delete_ancestors-IsClimb zero path w (inr (some_fuel, stays)) = absurd (omega arith)
  delete_ancestors-IsClimb (suc fuel) path w enough =
      elim (Bool-cases (list_beq (dirname path) path)) [
        | inl stays ↦ rw stays (
            IsStop-IsClimb path w none w.files
              (at_top (ground (arith, list_beq_iff (dirname path) path))))
        | inr stops ↦
            let moves = differs (dirname path) path stops in
            rw stops (elim (Bool-cases (was_created os invocations (dirname path) w.files)) [
              | inr kept ↦ rw kept (IsStop-IsClimb path w none w.files (not_created kept))
              | inl created ↦ rw created (
                  after_rmdir-IsClimb path w (delete_ancestors os fuel invocations (dirname path))
                    moves created
                    (λ next.
                      delete_ancestors-IsClimb fuel (dirname path) next
                        (IsEnough-dirname fuel path enough moves))
                    (os.rmdir (dirname path) w.files) refl)
            ])
      ]

  unlink_error-IsDeletion :
      (path : LogPath) (w : World W) (result : Option ℕ × W)
      → os.unlink path w.files ≡ result
      → IsDeletion path w (
          (unlink_error os result.0 >> delete_ancestors os (length path + 3) invocations path)
            (record w { files = result.1 }))
  unlink_error-IsDeletion path w (none, files) e = unlinked none files e (inl refl) (
      delete_ancestors-IsClimb (length path + 3) path (record w { files = files })
        (inl (omega arith)))
  unlink_error-IsDeletion path w (some code, files) e = elim (Bool-cases (nat_beq code enoent)) [
    | inl gone ↦
        let same : code ≡ enoent = ground (arith, nat_beq_iff code enoent) in
        rw (gone, ◌>>=◌)
          (unlinked (some code) files e (inr (ap some same)) (
            delete_ancestors-IsClimb (length path + 3) path (record w { files = files })
              (inl (omega arith))))
    | inr error ↦ rw (error, ◌>>=◌) (not_unlinked code files e (other_code code enoent error) refl)
  ]

  -- `deleteBuildProduct` ends. It unlinks the path first, and raises the error of that, but for ENOENT,
  -- with nothing else done. Then it removes directories above the path, the nearest first and without a
  -- gap, each of which is there when its turn comes and was created by an earlier build, and tells the
  -- log of those that `rmdir` removed and of nothing else. It goes on until a path is its own parent, the
  -- parent is not such a directory, or `rmdir` fails; the error of that is raised, but for ENOTEMPTY.
  pub delete_build_product-IsDeletion :
      (path : LogPath) (w : World W)
      → IsDeletion path w (delete_build_product os invocations path w)
  unfolding delete_build_product
  delete_build_product-IsDeletion path w =
      unlink_error-IsDeletion path w (os.unlink path w.files) refl
