-- ===== src/Log/Synced/Meaning.antt =====
-- What the entries of a log (src/shk/src/log/invocations.h) say, without the ids that they are stored
-- with.
use shuriken.Log.Synced.Tables.{IsInRange}
use shuriken.Log.Operations.{files_at}
use shuriken.Log.Synced.Commands.{Leads}
use shuriken.Log.Parser.{all_below}
use shuriken.Prelude.Assoc.{Assoc, insert, erase}
use shuriken.Build.Data.{Entry}
use shuriken.Fs.FileSystem.{Hash}
use shuriken.Fs.Fingerprint.{Fingerprint}
use shuriken.Log.Data.{LogPath, no_file_logged}
use shuriken.Prelude.{
  list_eq, nat_eq, List, ℕ, get_elem?, ◌<◌, length, ◌≡◌, get_or, true, All, some, ◌∷◌, ◌++◌, [],
  Bool-cases, arith, ap, suc, refl, ◌==◌, zero, inl, ◌∙◌, inr,
}

-- One step: the files that it wrote and read, and its dependencies
pub record Known : Type 0 where
  pub outputs : List (LogPath × Fingerprint)
  pub inputs : List (LogPath × Fingerprint)
  pub ignored : List ℕ
  pub additional : List Hash

abbrev pub known : List (LogPath × Fingerprint) → Entry → Known
known fps e = record {
  outputs = files_at fps e.output_files;
  inputs = files_at fps e.input_files;
  ignored = e.ignored_dependencies;
  additional = e.additional_dependencies;
}

abbrev pub meaning : List (LogPath × Fingerprint) → Assoc Hash Entry → Assoc Hash Known
meaning fps [] = []
meaning fps ((h, e) ∷ es) = (h, known fps e) ∷ meaning fps es

pub meaning-insert :
    (fps : List (LogPath × Fingerprint)) (h : Hash) (e : Entry) (es : Assoc Hash Entry)
    → meaning fps (insert h e es) ≡ insert h (known fps e) (meaning fps es)
meaning-insert fps h e [] = refl
meaning-insert fps h e ((k, f) ∷ es) = elim (Bool-cases (k == h)) [
  | inl same ↦ rw same refl
  | inr other ↦ rw other (ap (λ m. (k, known fps f) ∷ m) (meaning-insert fps h e es))
]

pub meaning-erase :
    (fps : List (LogPath × Fingerprint)) (h : Hash) (es : Assoc Hash Entry)
    → meaning fps (erase h es) ≡ erase h (meaning fps es)
meaning-erase fps h [] = refl
meaning-erase fps h ((k, f) ∷ es) = elim (Bool-cases (k == h)) [
  | inl same ↦ rw same (meaning-erase fps h es)
  | inr other ↦ rw other (ap (λ m. (k, known fps f) ∷ m) (meaning-erase fps h es))
]

get_or-append {ℓ} :
    {A : Type ℓ} (xs ys : List A) (i : ℕ) (d : A)
    → i < length xs
    → get_or (xs ++ ys) i d ≡ get_or xs i d
get_or-append [] ys i d h = absurd (omega arith)
get_or-append (x ∷ xs) ys zero d h = refl
get_or-append (x ∷ xs) ys (suc i) d h = get_or-append xs ys i d (omega arith)

files_at-append :
    (fps more : List (LogPath × Fingerprint)) (ids : List ℕ)
    → all_below (length fps) ids ≡ true
    → files_at (fps ++ more) ids ≡ files_at fps ids
files_at-append fps more [] h = refl
files_at-append fps more (i ∷ ids) h =
    ap (λ f. f ∷ files_at (fps ++ more) ids)
      (get_or-append fps more i no_file_logged (ground arith))
    ∙ ap (λ fs. get_or fps i no_file_logged ∷ fs) (files_at-append fps more ids (ground arith))

-- Later fingerprints change nothing.
pub meaning-append :
    (fps more : List (LogPath × Fingerprint)) (es : Assoc Hash Entry)
    → All (IsInRange (length fps)) es
    → meaning (fps ++ more) es ≡ meaning fps es
meaning-append fps more [] h = refl
meaning-append fps more ((k, e) ∷ es) h =
    let outs = files_at-append fps more e.output_files h.0.0 in
    let ins = files_at-append fps more e.input_files h.0.1 in
    let rest = meaning-append fps more es h.1 in rw (outs, ins, rest) refl

get_elem?-get_or {ℓ} :
    {A : Type ℓ} (xs : List A) (i : ℕ) (a d : A) → get_elem? xs i ≡ some a → get_or xs i d ≡ a
get_elem?-get_or [] i a d h = absurd (cc)
get_elem?-get_or (x ∷ xs) zero a d h = cc
get_elem?-get_or (x ∷ xs) (suc i) a d h = get_elem?-get_or xs i a d h

pub Leads-files_at :
    (fps : List (LogPath × Fingerprint)) (ids : List ℕ) (files : List (LogPath × Fingerprint))
    → Leads fps ids files
    → files_at fps ids ≡ files
Leads-files_at fps [] [] h = refl
Leads-files_at fps [] (file ∷ files) h = absurd h
Leads-files_at fps (id ∷ ids) [] h = absurd h
Leads-files_at fps (id ∷ ids) (file ∷ files) h =
    ap (λ f. f ∷ files_at fps ids) (get_elem?-get_or fps id file no_file_logged h.0)
    ∙ ap (λ fs. file ∷ fs) (Leads-files_at fps ids files h.1)
