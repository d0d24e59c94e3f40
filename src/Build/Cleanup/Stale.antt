-- ===== src/Build/Cleanup/Stale.antt =====
-- About `deleteOldOutputs` and `deleteStaleOutputs` of build.cpp: which entries of the log they end.

use mathlib.Core.List.{append-nil, append_assoc}
use shuriken.Log.Synced.Effects.{cleaned, removed}
use shuriken.Prelude.Assoc.{Assoc, lookup}
use shuriken.Build.Data.{Step, Entry}
use shuriken.Fs.FileSystem.{Hash}
use shuriken.Log.Data.{Logged, LogPath, no_file_logged}
use mathlib.Core.Path.{subst}
use shuriken.Build.Cleanup.Removed.{
  IsClimb, climbed, IsDeletion, unlinked, not_unlinked, ends_with, delete_build_product-IsDeletion,
}
use shuriken.Build.Cleanup.{
  ◌>>◌, Os, World, Did, Action, did, raised, starved, delete_build_product, delete_outputs,
  delete_stale_entries, delete_stale_outputs, delete_old_outputs, log_call,
}
use shuriken.Log.Delayed.Flushed.{steps_of, steps_of-append}
use shuriken.Prelude.{
  Option, none, some, refl, List, ℕ, ◌≡◌, ap, ◌∷◌, Option-cases, map, ◌∙◌, ◌++◌, [], get_or, take,
  suc, sym, inl, if◌then◌else◌, elem, Bool-cases, inr, nat_eq,
}

-- The hashes of the entries of the log that are no longer steps of the manifest
abbrev pub stale_hashes : List Hash → Assoc Hash Entry → List Hash
stale_hashes step_hashes [] = []
stale_hashes step_hashes ((hash, entry) ∷ entries) =
    let rest = stale_hashes step_hashes entries in
    if elem hash step_hashes then rest else hash ∷ rest

module _ {W : Type 0} (os : Os W) (invocations : Logged) where
  steps_of-removed : (dirs : List LogPath) → steps_of (map removed dirs) ≡ []
  steps_of-removed [] = refl
  steps_of-removed (dir ∷ dirs) = steps_of-removed dirs

  -- Ended, and no entry of the log was ended, or begun
  abbrev pub EndsQuietly : World W → Did W (Unit {0}) → Type 0
  EndsQuietly w outcome = elim outcome [
    | did done after ↦ steps_of after.calls ≡ steps_of w.calls
    | raised code after ↦ steps_of after.calls ≡ steps_of w.calls
    | starved ↦ ⊥
  ]

  ends_with-quiet :
      (error : Option ℕ) (w after : World W)
      → steps_of after.calls ≡ steps_of w.calls
      → EndsQuietly w (ends_with os invocations error after)
  ends_with-quiet none w after e = e
  ends_with-quiet (some code) w after e = e

  IsClimb-quiet :
      (path : LogPath) (w : World W) (outcome : Did W (Unit {0}))
      → IsClimb os invocations path w outcome
      → EndsQuietly w outcome
  IsClimb-quiet path w outcome (climbed dirs top last after error climb stop e) =
      subst (EndsQuietly w) (sym e) (
        ends_with-quiet error w (record { files = after; calls = w.calls ++ map removed dirs })
          (steps_of-append w.calls (map removed dirs)
            ∙ ap (λ more. steps_of w.calls ++ more) (steps_of-removed dirs)
            ∙ append-nil (steps_of w.calls)))

  pub IsDeletion-quiet :
      (path : LogPath) (w : World W) (outcome : Did W (Unit {0}))
      → IsDeletion os invocations path w outcome
      → EndsQuietly w outcome
  IsDeletion-quiet path w outcome (unlinked error files e ok climb) =
      IsClimb-quiet path (record w { files = files }) outcome climb
  IsDeletion-quiet path w outcome (not_unlinked code files e other raises) =
      subst (EndsQuietly w) (sym raises) refl

  EndsQuietly-from :
      (w next : World W) (outcome : Did W (Unit {0}))
      → steps_of next.calls ≡ steps_of w.calls
      → EndsQuietly next outcome
      → EndsQuietly w outcome
  EndsQuietly-from w next (did done after) e ends = ends ∙ e
  EndsQuietly-from w next (raised code after) e ends = ends ∙ e
  EndsQuietly-from w next starved e ends = ends

  pub bind-EndsQuietly :
      (m : Action W (Unit {0})) (k : Action W (Unit {0})) (w : World W)
      → EndsQuietly w (m w)
      → ((next : World W) → EndsQuietly next (k next))
      → EndsQuietly w ((m >> k) w)
  bind-EndsQuietly m k w first rest = go (m w) first
    where
      go :
          (outcome : Did W (Unit {0}))
          → EndsQuietly w outcome
          → EndsQuietly w (elim outcome [
            | did a next ↦ k next
            | raised code next ↦ raised code next
            | starved ↦ starved
          ])
      go (did done next) e = EndsQuietly-from w next (k next) e (rest next)
      go (raised code next) e = e
      go starved e = e

  delete_outputs-EndsQuietly :
      (is : List ℕ) (w : World W) → EndsQuietly w (delete_outputs os invocations is w)
  unfolding delete_outputs
  delete_outputs-EndsQuietly [] w = refl
  delete_outputs-EndsQuietly (i ∷ is) w =
      let path = (get_or invocations.fingerprints i no_file_logged).0 in
      bind-EndsQuietly (delete_build_product os invocations path) (delete_outputs os invocations is)
        w
        (IsDeletion-quiet path w (delete_build_product os invocations path w)
          (delete_build_product-IsDeletion os invocations path w))
        (λ next. delete_outputs-EndsQuietly is next)

  pub delete_old_outputs-EndsQuietly :
      (step_hash : Hash) (w : World W)
      → EndsQuietly w (delete_old_outputs os invocations step_hash w)
  unfolding delete_old_outputs
  delete_old_outputs-EndsQuietly step_hash w =
      elim (Option-cases (lookup step_hash invocations.entries)) [
        | inl unknown ↦ rw (unknown, delete_old_outputs) refl
        | inr (entry, found) ↦
            rw (found, delete_old_outputs) (delete_outputs-EndsQuietly entry.output_files w)
      ]

  -- Of the hashes, all were reported as cleaned, or with an error the first ones.
  abbrev pub Cleans : List Hash → World W → Did W (Unit {0}) → Type 0
  Cleans hashes w outcome = elim outcome [
    | did done after ↦ steps_of after.calls ≡ steps_of w.calls ++ map cleaned hashes
    | raised code after ↦
        (n : ℕ) × (steps_of after.calls ≡ steps_of w.calls ++ map cleaned (take n hashes))
    | starved ↦ ⊥
  ]

  cleaned-cons :
      (w next after : World W) (hash : Hash) (hashes : List Hash)
      → steps_of next.calls ≡ steps_of w.calls ++ cleaned hash ∷ []
      → steps_of after.calls ≡ steps_of next.calls ++ map cleaned hashes
      → steps_of after.calls ≡ steps_of w.calls ++ cleaned hash ∷ map cleaned hashes
  cleaned-cons w next after hash hashes e ends =
      ends
      ∙ ap (λ ops. ops ++ map cleaned hashes) e
      ∙ append_assoc (steps_of w.calls) (cleaned hash ∷ []) (map cleaned hashes)

  Cleans-cons :
      (hash : Hash) (hashes : List Hash) (w next : World W) (outcome : Did W (Unit {0}))
      → steps_of next.calls ≡ steps_of w.calls ++ cleaned hash ∷ []
      → Cleans hashes next outcome
      → Cleans (hash ∷ hashes) w outcome
  Cleans-cons hash hashes w next (did done after) e ends =
      cleaned-cons w next after hash hashes e ends
  Cleans-cons hash hashes w next (raised code after) e (n, ends) =
      (suc n, cleaned-cons w next after hash (take n hashes) e ends)
  Cleans-cons hash hashes w next starved e ends = ends

  -- An entry's outputs, its report, and the other entries
  Cleans-entry :
      (hash : Hash) (hashes : List Hash) (m rest : Action W (Unit {0})) (w : World W)
      → EndsQuietly w (m w)
      → ((next : World W) → Cleans hashes next (rest next))
      → Cleans (hash ∷ hashes) w ((m >> (log_call (cleaned hash) >> rest)) w)
  Cleans-entry hash hashes m rest w first others = go (m w) first
    where
      go :
          (outcome : Did W (Unit {0}))
          → EndsQuietly w outcome
          → Cleans (hash ∷ hashes) w (elim outcome [
            | did a next ↦ (log_call (cleaned hash) >> rest) next
            | raised code next ↦ raised code next
            | starved ↦ starved
          ])
      go (did done next) e =
          let reported = record next { calls = next.calls ++ cleaned hash ∷ [] } in
          Cleans-cons hash hashes w reported (rest reported)
            (steps_of-append next.calls (cleaned hash ∷ [])
              ∙ ap (λ ops. ops ++ cleaned hash ∷ []) e)
            (others reported)
      go (raised code next) e = (0, e ∙ sym (append-nil (steps_of w.calls)))
      go starved e = e

  delete_stale_entries-Cleans :
      (step_hashes : List Hash) (entries : Assoc Hash Entry) (w : World W)
      → Cleans
          (stale_hashes step_hashes entries)
          w
          (delete_stale_entries os invocations step_hashes entries w)
  unfolding delete_stale_entries
  delete_stale_entries-Cleans step_hashes [] w = sym (append-nil (steps_of w.calls))
  delete_stale_entries-Cleans step_hashes ((hash, entry) ∷ entries) w =
      elim (Bool-cases (elem hash step_hashes)) [
        | inl is_step ↦ rw is_step (delete_stale_entries-Cleans step_hashes entries w)
        | inr stale ↦ rw stale (
            Cleans-entry hash (stale_hashes step_hashes entries)
              (delete_outputs os invocations entry.output_files)
              (delete_stale_entries os invocations step_hashes entries) w
              (delete_outputs-EndsQuietly entry.output_files w)
              (λ next. delete_stale_entries-Cleans step_hashes entries next))
      ]

  -- `deleteStaleOutputs` ends. Where it ends without an error, the entries of the log that it reports as
  -- cleaned are those whose hash is that of no step, each once and in the order of the entries, and
  -- where it ends with one, the first few of them. No other step is reported.
  pub delete_stale_outputs-Cleans :
      (steps : List Step) (w : World W)
      → Cleans
          (stale_hashes (map (λ s. s.hash) steps) invocations.entries)
          w
          (delete_stale_outputs os steps invocations w)
  unfolding delete_stale_outputs
  delete_stale_outputs-Cleans steps w =
      delete_stale_entries-Cleans (map (λ s. s.hash) steps) invocations.entries w
