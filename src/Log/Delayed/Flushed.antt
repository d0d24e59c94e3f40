-- ===== src/Log/Delayed/Flushed.antt =====
-- About `DelayedInvocationLog`: what it passes on, and when.
use mathlib.Core.Path.{subst}
use mathlib.Core.List.{append_assoc, append-nil}
use shuriken.Log.Synced.Effects.{Operation, ran, cleaned, created, removed}
use shuriken.Log.Delayed.{
  DelayedCall, call_of, write_entries, DelayedEntry, ran_at, clean_fingerprints, end_of_time,
  cleaned_at, created_dir, removed_dir, DelayedLog, write_delayed_entries, call, destroy, push,
  forward, delayed_ran_command, call_all, delayed_cleaned_command, no_command,
}
use shuriken.Prelude.{
  List, ℕ, ◌∷◌, map, ◌++◌, ◌<◌, ◌≡◌, ap, [], All, Bool-cases, ◌≤◌, leb, inl, inr, refl, ◌∙◌, sym,
  false, arith, leb→le, true,
}

-- The operations on steps, without those on directories
abbrev pub steps_of : List Operation → List Operation
steps_of [] = []
steps_of (ran cmd ∷ ops) = ran cmd ∷ steps_of ops
steps_of (cleaned h ∷ ops) = cleaned h ∷ steps_of ops
steps_of (created path ∷ ops) = steps_of ops
steps_of (removed path ∷ ops) = steps_of ops

pub steps_of-append : (xs ys : List Operation) → steps_of (xs ++ ys) ≡ steps_of xs ++ steps_of ys
steps_of-append [] ys = refl
steps_of-append (ran cmd ∷ xs) ys = ap (λ ops. ran cmd ∷ ops) (steps_of-append xs ys)
steps_of-append (cleaned h ∷ xs) ys = ap (λ ops. cleaned h ∷ ops) (steps_of-append xs ys)
steps_of-append (created path ∷ xs) ys = steps_of-append xs ys
steps_of-append (removed path ∷ xs) ys = steps_of-append xs ys

-- What a method asks for
abbrev pub asked : DelayedCall → List Operation
asked (ran_at now cmd) = ran (clean_fingerprints cmd) ∷ []
asked (cleaned_at now h) = cleaned h ∷ []
asked (created_dir path) = []
asked (removed_dir path) = []

abbrev pub asked_all : List DelayedCall → List Operation
asked_all [] = []
asked_all (c ∷ cs) = asked c ++ asked_all cs

-- The clock stays below the largest time.
abbrev pub IsInTime : DelayedCall → Type 0
IsInTime (ran_at now cmd) = now < end_of_time
IsInTime (cleaned_at now h) = now < end_of_time
IsInTime (created_dir path) = Unit
IsInTime (removed_dir path) = Unit

abbrev pending : List DelayedEntry → List Operation
unfolding call_of
pending es = map call_of es

steps_of-call_of : (e : DelayedEntry) → steps_of (call_of e ∷ []) ≡ call_of e ∷ []
unfolding call_of
steps_of-call_of e = elim (Bool-cases e.cleaned_step) [ inl h ↦ rw h refl | inr h ↦ rw h refl ]

-- What was passed on and what waits
abbrev outstanding : List DelayedEntry × List Operation → List Operation
outstanding (es, calls) = steps_of calls ++ pending es

write_entries-outstanding :
    (now : ℕ) (es : List DelayedEntry) (calls : List Operation)
    → outstanding (write_entries now es calls) ≡ outstanding (es, calls)
unfolding write_entries
write_entries-outstanding now [] calls = refl
write_entries-outstanding now (e ∷ es) calls =
    let next = call_of e ∷ [] in
    elim (Bool-cases (leb now e.timestamp)) [
      | inl waits ↦ rw waits refl
      | inr old ↦ rw old (
          write_entries-outstanding now es (calls ++ next)
          ∙ ap (λ ops. ops ++ pending es)
              (steps_of-append calls next ∙ ap (λ ops. steps_of calls ++ ops) (steps_of-call_of e))
          ∙ append_assoc (steps_of calls) next (pending es))
    ]

-- The first of the entries that stay is not older than `now`.
abbrev pub Waits : ℕ → List DelayedEntry → Type 0
Waits now [] = Unit
Waits now (e ∷ es) = now ≤ e.timestamp

pub record IsSplit (now : ℕ) (es : List DelayedEntry) (calls : List Operation)
    (result : List DelayedEntry × List Operation) : Type 0 where
  pub front : List DelayedEntry
  pub parts : es ≡ front ++ result.0
  pub passed : result.1 ≡ calls ++ map call_of front
  pub older : All (λ e. e.timestamp < now) front
  pub waits : Waits now result.0

-- The entries that `writeDelayedEntries` passes on are those in front that are older than `now`, in
-- their order, up to the first that is not; that one and all behind it stay as they are.
pub write_entries-IsSplit :
    (now : ℕ) (es : List DelayedEntry) (calls : List Operation)
    → IsSplit now es calls (write_entries now es calls)
unfolding write_entries
write_entries-IsSplit now [] calls = record {
  front = [];
  parts = refl;
  passed = sym (append-nil calls);
  older = tt;
  waits = tt;
}
write_entries-IsSplit now (e ∷ es) calls =
    let rest = write_entries-IsSplit now es (calls ++ call_of e ∷ []) in
    elim (Bool-cases (leb now e.timestamp)) [
      | inl waits ↦ rw waits (record {
        front = [];
        parts = refl;
        passed = sym (append-nil calls);
        older = tt;
        waits = leb→le now e.timestamp waits;
      })
      | inr old ↦ rw old (record {
        front = e ∷ rest.front;
        parts = ap (λ xs. e ∷ xs) rest.parts;
        passed = rest.passed ∙ append_assoc calls (call_of e ∷ []) (map call_of rest.front);
        older = (ground arith, rest.older);
        waits = rest.waits;
      })
    ]

-- Every entry is older than the end of time.
abbrev AllInTime : List DelayedEntry → Type 0
AllInTime es = All (λ e. e.timestamp < end_of_time) es

All-append {ℓ κ} :
    {A : Type ℓ} (P : A → Type κ) (xs ys : List A) → All P xs → All P ys → All P (xs ++ ys)
All-append P [] ys h k = k
All-append P (x ∷ xs) ys h k = (h.0, All-append P xs ys h.1 k)

All-behind {ℓ κ} : {A : Type ℓ} (P : A → Type κ) (xs ys : List A) → All P (xs ++ ys) → All P ys
All-behind P [] ys h = h
All-behind P (x ∷ xs) ys h = All-behind P xs ys h.1

all_written :
    (es : List DelayedEntry) (calls : List Operation)
    → AllInTime es
    → (write_entries end_of_time es calls).0 ≡ []
unfolding write_entries
all_written [] calls h = refl
all_written (e ∷ es) calls h =
    let later : leb end_of_time e.timestamp ≡ false = let in_time = h.0 in ground arith in
    rw later (all_written es (calls ++ call_of e ∷ []) h.1)

write_entries-AllInTime :
    (now : ℕ) (es : List DelayedEntry) (calls : List Operation)
    → AllInTime es
    → AllInTime (write_entries now es calls).0
write_entries-AllInTime now es calls h =
    let split = write_entries-IsSplit now es calls in
    All-behind (λ e. e.timestamp < end_of_time) split.front _ (subst AllInTime split.parts h)

map-append {ℓ κ} :
    {A : Type ℓ} {B : Type κ} (f : A → B) (xs ys : List A) → map f (xs ++ ys) ≡ map f xs ++ map f ys
map-append f [] ys = refl
map-append f (x ∷ xs) ys = ap (λ zs. f x ∷ zs) (map-append f xs ys)

abbrev of_log : DelayedLog → List Operation
of_log log = outstanding (log.entries, log.calls)

-- A new entry after those that are due
pushed :
    (now : ℕ) (e : DelayedEntry) (log : DelayedLog)
    → of_log (push e (write_delayed_entries now log)) ≡ of_log log ++ call_of e ∷ []
unfolding write_delayed_entries
pushed now e log =
    let (es, calls) = write_entries now log.entries log.calls in
    ap (λ ops. steps_of calls ++ ops) (map-append call_of es (e ∷ []))
    ∙ sym (append_assoc (steps_of calls) (map call_of es) (call_of e ∷ []))
    ∙ ap (λ ops. ops ++ call_of e ∷ []) (write_entries-outstanding now log.entries log.calls)

forwarded :
    (op : Operation) (log : DelayedLog)
    → steps_of (op ∷ []) ≡ []
    → of_log (forward op log) ≡ of_log log
forwarded op log h =
    ap (λ ops. ops ++ pending log.entries)
      (steps_of-append log.calls (op ∷ [])
        ∙ ap (λ ops. steps_of log.calls ++ ops) h
        ∙ append-nil (steps_of log.calls))

call-of_log : (c : DelayedCall) (log : DelayedLog) → of_log (call c log) ≡ of_log log ++ asked c
unfolding call delayed_ran_command delayed_cleaned_command call_of
call-of_log (ran_at now cmd) log =
    pushed now (record { timestamp = now; cleaned_step = false; command = cmd }) log
call-of_log (cleaned_at now h) log =
    pushed now (record { timestamp = now; cleaned_step = true; command = no_command h }) log
call-of_log (created_dir path) log =
    forwarded (created path) log refl ∙ sym (append-nil (of_log log))
call-of_log (removed_dir path) log =
    forwarded (removed path) log refl ∙ sym (append-nil (of_log log))

call_all-of_log :
    (cs : List DelayedCall) (log : DelayedLog)
    → of_log (call_all cs log) ≡ of_log log ++ asked_all cs
call_all-of_log [] log = sym (append-nil (of_log log))
call_all-of_log (c ∷ cs) log =
    call_all-of_log cs (call c log)
    ∙ ap (λ ops. ops ++ asked_all cs) (call-of_log c log)
    ∙ append_assoc (of_log log) (asked c) (asked_all cs)

call-AllInTime :
    (c : DelayedCall) (log : DelayedLog)
    → IsInTime c
    → AllInTime log.entries
    → AllInTime (call c log).entries
unfolding call delayed_ran_command delayed_cleaned_command write_delayed_entries
call-AllInTime (ran_at now cmd) log h a =
    All-append _ _ _ (write_entries-AllInTime now log.entries log.calls a) (h, tt)
call-AllInTime (cleaned_at now h') log h a =
    All-append _ _ _ (write_entries-AllInTime now log.entries log.calls a) (h, tt)
call-AllInTime (created_dir path) log h a = a
call-AllInTime (removed_dir path) log h a = a

call_all-AllInTime :
    (cs : List DelayedCall) (log : DelayedLog)
    → All IsInTime cs
    → AllInTime log.entries
    → AllInTime (call_all cs log).entries
call_all-AllInTime [] log h a = a
call_all-AllInTime (c ∷ cs) log h a =
    call_all-AllInTime cs (call c log) h.1 (call-AllInTime c log h.0 a)

abbrev pub no_delayed : DelayedLog
no_delayed = record { entries = []; calls = [] }

-- When the log is destroyed, every command and every cleaned step that it was given has been passed on,
-- once and in the order in which they came, the commands with fingerprints that are not racily clean,
-- and nothing waits any more. The clock must never have shown the largest time.
pub destroy_passes_on :
    (cs : List DelayedCall)
    → All IsInTime cs
    → (steps_of (destroy (call_all cs no_delayed)).calls ≡ asked_all cs)
      × ((destroy (call_all cs no_delayed)).entries ≡ [])
unfolding destroy write_delayed_entries
destroy_passes_on cs h =
    let log = call_all cs no_delayed in
    let none_left = all_written log.entries log.calls (call_all-AllInTime cs no_delayed h tt) in
    let result = write_entries end_of_time log.entries log.calls in
    (
      sym (append-nil (steps_of result.1))
          ∙ ap (λ es. steps_of result.1 ++ map call_of es) (sym none_left)
          ∙ write_entries-outstanding end_of_time log.entries log.calls
          ∙ call_all-of_log cs no_delayed,
      none_left,
    )
