-- ===== src/Log/Writer/Appends.antt =====
-- About the functions of `PersistentInvocationLog` that write one entry, on a stream without errors.
use shuriken.Log.Bytes.RoundTrip.{length-put_u32, length-put_fingerprint}
use shuriken.Log.Parse.Entries.{fingerprint_payload}
use shuriken.Log.Parse.Names.{path_payload, length-path_payload}
use shuriken.Log.Parse.Rounds.{chunk}
use shuriken.Fs.Fingerprint.{Fingerprint}
use shuriken.Log.Data.{LogPath, created_dir_or_fingerprint_type, path_type}
use shuriken.Prelude.{
  ℕ, ◌≡◌, ◌++◌, ◌%◌, none, ap, length, refl, ◌+◌, ◌∙◌, ◌^◌, sym, replicate, arith, length-append,
  ◌∷◌, [],
}
use shuriken.Log.Bytes.{Bytes, put_u32, put_fingerprint}
use mathlib.Core.List.{append_assoc}
use shuriken.Log.Writer.{
  ◌>>=◌, ◌>>◌, Stream, Log, Writer, put_bytes, write_header, write_directory_entry,
  write_path_entry, write_fingerprint_entry, wrote, after_write, padding_bytes, modify,
}

-- A stream that appends what it is given
abbrev pub IsWorking : Stream → Type 0
IsWorking stream = (contents new : Bytes) → stream contents new ≡ (contents ++ new, none)

abbrev pub appended : Log → Bytes → Log
appended log bytes = record log { written = log.written ++ bytes }

pub bind-wrote {ℓ κ} :
    {A : Type ℓ} {B : Type κ} (m : Writer A) (f : A → Writer B) (log : Log) {a : A} {next : Log}
    → m log ≡ wrote a next
    → (m >>= f) log ≡ f a next
bind-wrote m f log e = rw (e, ◌>>=◌) refl

pub appended_twice : (log : Log) (a b : Bytes) → appended (appended log a) b ≡ appended log (a ++ b)
appended_twice log a b = ap (λ c. record log { written = c }) (append_assoc log.written a b)

module _ (stream : Stream) (working : IsWorking stream) where
  pub put_bytes-eq :
      (bytes : Bytes) (log : Log) → put_bytes stream bytes log ≡ wrote tt (appended log bytes)
  unfolding put_bytes
  put_bytes-eq bytes log = ap (after_write log) (working log.written bytes)

  -- Bytes, and then what follows
  pub put_bytes_then :
      {A : Type 0} (bytes : Bytes) (m : Writer A) (log : Log)
      → (put_bytes stream bytes >> m) log ≡ m (appended log bytes)
  put_bytes_then bytes m log =
      bind-wrote (put_bytes stream bytes) (λ _. m) log (put_bytes-eq bytes log)

  pub write_header-eq :
      (size type : ℕ) (log : Log)
      → size % 4 ≡ 0
      → write_header stream size type log ≡ wrote tt (appended log (put_u32 (size + type)))
  unfolding write_header
  write_header-eq size type log h = rw h (put_bytes-eq (put_u32 (size + type)) log)

  pub write_header_then :
      {A : Type 0} (size type : ℕ) (m : Writer A) (log : Log)
      → size % 4 ≡ 0
      → (write_header stream size type >> m) log ≡ m (appended log (put_u32 (size + type)))
  write_header_then size type m log h =
      bind-wrote (write_header stream size type) (λ _. m) log (write_header-eq size type log h)

  pub write_directory_entry-eq :
      (id : ℕ) (log : Log)
      → write_directory_entry stream id log
        ≡ wrote tt (appended log (chunk created_dir_or_fingerprint_type (put_u32 id)))
  unfolding write_directory_entry
  write_directory_entry-eq id log =
      write_header_then 4 1 (put_bytes stream (put_u32 id)) log refl
      ∙ put_bytes-eq (put_u32 id) (appended log (put_u32 5))
      ∙ ap (wrote tt) (appended_twice log (put_u32 5) (put_u32 id))
      ∙ ap (λ n. wrote tt (appended log (put_u32 (n + 1) ++ put_u32 id))) (sym (length-put_u32 id))

  -- After a path entry
  abbrev pub with_path_entry : LogPath → Log → Log
  with_path_entry path log = record log {
    written = log.written ++ chunk path_type (path_payload path);
    path_entry_count = (log.path_entry_count + 1) % 2 ^ 32;
  }

  pub write_path_entry-eq :
      (path : LogPath) (log : Log)
      → write_path_entry stream path log ≡ wrote tt (with_path_entry path log)
  unfolding write_path_entry
  write_path_entry-eq path log =
      let size = length path + 1 + padding_bytes (length path + 1) in
      let zeros : Bytes = replicate (padding_bytes (length path + 1)) 0 in
      let head = put_u32 (size + 0) in
      let count : Log → Log =
        λ l. record l { path_entry_count = (l.path_entry_count + 1) % 2 ^ 32 } in
      write_header_then size path_type _ log (omega arith)
      ∙ put_bytes_then (path ++ 0 ∷ []) _ (appended log head)
      ∙ put_bytes_then zeros (modify count) (appended (appended log head) (path ++ 0 ∷ []))
      ∙ ap (λ l. wrote tt (count l))
          (appended_twice (appended log head) (path ++ 0 ∷ []) zeros
            ∙ appended_twice log head ((path ++ 0 ∷ []) ++ zeros)
            ∙ ap (λ c. appended log (head ++ c)) (append_assoc path (0 ∷ []) zeros)
            ∙ ap (λ n. appended log (put_u32 (n + 0) ++ path_payload path))
                (sym (length-path_payload path)))

  -- After a fingerprint entry
  abbrev pub with_fingerprint_entry : ℕ → Fingerprint → Log → Log
  with_fingerprint_entry id fp log = record log {
    written = log.written ++ chunk created_dir_or_fingerprint_type (fingerprint_payload id fp);
    fingerprint_entry_count = (log.fingerprint_entry_count + 1) % 2 ^ 32;
  }

  pub write_fingerprint_entry-eq :
      (id : ℕ) (fp : Fingerprint) (log : Log)
      → write_fingerprint_entry stream id fp log
        ≡ wrote log.fingerprint_entry_count (with_fingerprint_entry id fp log)
  unfolding write_fingerprint_entry
  write_fingerprint_entry-eq id fp log =
      let head = put_u32 61 in
      let count : Log → Log =
        λ l. record l { fingerprint_entry_count = (l.fingerprint_entry_count + 1) % 2 ^ 32 } in
      let size : 60 ≡ length (fingerprint_payload id fp) = omega (
        arith,
        length-append (put_u32 id) (put_fingerprint fp),
        length-put_u32 id,
        length-put_fingerprint fp,
      ) in
      write_header_then 60 1 _ log refl
      ∙ put_bytes_then (put_u32 id) _ (appended log head)
      ∙ put_bytes_then (put_fingerprint fp) _ (appended (appended log head) (put_u32 id))
      ∙ ap (λ l. wrote log.fingerprint_entry_count (count l))
          (appended_twice (appended log head) (put_u32 id) (put_fingerprint fp)
            ∙ appended_twice log head (fingerprint_payload id fp)
            ∙ ap (λ n. appended log (put_u32 (n + 1) ++ fingerprint_payload id fp)) size)
