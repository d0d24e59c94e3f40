-- ===== src/Trace/Events/Trace.antt =====
-- About `EventConsolidator` of event_consolidator.cpp, compared with the history of events.
use text.Mathlib.TextEquality.{eq_iff}
use shuriken.Trace.Events.Since.{is_input, is_output, is_lost}
use shuriken.Prelude.{
  List, elem, ◌≡◌, not, ◌==◌, ◌||◌, ◌&&◌, Bool-cases, arith, ◌∷◌, inl, string_eq, true, inr,
  if◌then◌else◌, ◌++◌, ap, [], Bool, map, false, ◌∙◌, refl,
}
use Prim.Native.String.{String}
use shuriken.Trace.Events.{
  insert_path, erase_path, event, Event, EventConsolidator, EventType, read, read_directory, write,
  create, delete, fatal_error, consolidate, TraceError, deleted_errors, generate_trace, fatal,
  deleted_not_created,
}

elem_same : (p q : String) (ps : List String) → q == p ≡ true → elem q ps ≡ elem p ps
elem_same p q ps h = ap (λ x. elem x ps) ((eq_iff q p).0 h)

elem-insert_path :
    (p q : String) (ps : List String) → elem p (insert_path q ps) ≡ (q == p || elem p ps)
unfolding insert_path
elem-insert_path p q ps = elim (Bool-cases (q == p)) [
  | inl s ↦ ground (arith, elem_same p q ps s)
  | inr n ↦ ground arith
]

elem-erase_path :
    (p q : String) (ps : List String) → elem p (erase_path q ps) ≡ (not (q == p) && elem p ps)
unfolding erase_path
elem-erase_path p q [] = ground arith
elem-erase_path p q (r ∷ ps) =
    ground (arith, elem-erase_path p q ps, eq_iff r q, eq_iff q p, eq_iff r p)

elem-erase_if :
    (p q : String) (ps : List String)
    → elem p (if elem q ps then erase_path q ps else ps) ≡ (not (q == p) && elem p ps)
elem-erase_if p q ps = elim (Bool-cases (q == p)) [
  | inl s ↦ ground (arith, elem_same p q ps s, elem-erase_path p q ps)
  | inr n ↦ ground (arith, elem-erase_path p q ps)
]

-- What the sets hold of a path
record IsConsolidated (p : String) (history : List Event) (s : EventConsolidator) : Type 0 where
  input : elem p s.inputs ≡ is_input p history
  output : elem p s.outputs ≡ is_output p history
  lost : elem p s.deleted ≡ is_lost p history

module _ (p q : String) (history : List Event) (s : EventConsolidator)
    (c : IsConsolidated p history s) where
  event-IsConsolidated :
      (t : EventType) → IsConsolidated p (record { type = t; path = q } ∷ history) (event s t q)
  unfolding event
  event-IsConsolidated read = elim (Bool-cases (elem q s.outputs)) [
    | inl o ↦ rw o (record {
      input = ground (arith, c.input, c.output, elem_same p q s.outputs);
      output = ground (arith, c.output);
      lost = ground (arith, c.lost);
    })
    | inr o ↦ rw o (record {
      input =
          ground (arith, c.input, c.output, elem_same p q s.outputs, elem-insert_path p q s.inputs);
      output = ground (arith, c.output);
      lost = ground (arith, c.lost);
    })
  ]
  event-IsConsolidated read_directory = elim (Bool-cases (elem q s.outputs)) [
    | inl o ↦ rw o (record {
      input = ground (arith, c.input, c.output, elem_same p q s.outputs);
      output = ground (arith, c.output);
      lost = ground (arith, c.lost);
    })
    | inr o ↦ rw o (record {
      input =
          ground (arith, c.input, c.output, elem_same p q s.outputs, elem-insert_path p q s.inputs);
      output = ground (arith, c.output);
      lost = ground (arith, c.lost);
    })
  ]
  event-IsConsolidated write = record {
    input = ground (arith, c.input, elem-erase_if p q s.inputs);
    output = ground (arith, c.output, elem-insert_path p q s.outputs);
    lost = ground (arith, c.lost);
  }
  event-IsConsolidated create = record {
    input = ground (arith, c.input, elem-erase_if p q s.inputs);
    output = ground (arith, c.output, elem-insert_path p q s.outputs);
    lost = ground (arith, c.lost, elem-erase_path p q s.deleted);
  }
  event-IsConsolidated delete = elim (Bool-cases (elem q s.outputs)) [
    | inl o ↦ rw o (record {
      input = ground (arith, c.input);
      output = ground (arith, c.output, elem-erase_path p q s.outputs);
      lost = ground (arith, c.lost, c.output, elem_same p q s.outputs);
    })
    | inr o ↦ rw o (record {
      input = ground (arith, c.input);
      output = ground (arith, c.output, elem_same p q s.outputs);
      lost =
          ground (arith, c.lost, c.output, elem_same p q s.outputs, elem-insert_path p q s.deleted);
    })
  ]
  event-IsConsolidated fatal_error = record {
    input = ground (arith, c.input);
    output = ground (arith, c.output);
    lost = ground (arith, c.lost);
  }

consolidate-IsConsolidated :
    (p : String) (history : List Event) → IsConsolidated p history (consolidate history)
unfolding consolidate
consolidate-IsConsolidated p [] = record { input = refl; output = refl; lost = refl }
consolidate-IsConsolidated p (e ∷ earlier) =
    event-IsConsolidated p e.path earlier (consolidate earlier)
      (consolidate-IsConsolidated p earlier) e.type

-- The messages of the fatal errors, the oldest first
abbrev pub messages : List Event → List String
messages [] = []
messages (e ∷ earlier) = elim e.type [
  | fatal_error ↦ messages earlier ++ e.path ∷ []
  | _ ↦ messages earlier
]

-- The two kinds of errors of a trace
abbrev pub reports_deleted : String → List TraceError → Bool
reports_deleted p [] = false
reports_deleted p (fatal m ∷ es) = reports_deleted p es
reports_deleted p (deleted_not_created q ∷ es) = q == p || reports_deleted p es

abbrev pub fatal_messages : List TraceError → List String
fatal_messages [] = []
fatal_messages (fatal m ∷ es) = m ∷ fatal_messages es
fatal_messages (deleted_not_created q ∷ es) = fatal_messages es

errors-consolidate : (history : List Event) → (consolidate history).errors ≡ messages history
unfolding consolidate event
errors-consolidate [] = refl
errors-consolidate (e ∷ earlier) = go e.type (errors-consolidate earlier)
  where
    go :
        (t : EventType)
        → (consolidate earlier).errors ≡ messages earlier
        → (event (consolidate earlier) t e.path).errors
          ≡ messages (record { type = t; path = e.path } ∷ earlier)
    go read h = ground arith
    go read_directory h = ground arith
    go write h = h
    go create h = h
    go delete h = ground arith
    go fatal_error h = ap (λ ms. ms ++ e.path ∷ []) h

reports_deleted-errors :
    (p : String) (ms outputs ps : List String)
    → reports_deleted p (map fatal ms ++ deleted_errors outputs ps)
      ≡ (elem p ps && not (elem p outputs))
unfolding deleted_errors
reports_deleted-errors p [] outputs [] = refl
reports_deleted-errors p [] outputs (q ∷ ps) = elim (Bool-cases (q == p)) [
  | inl s ↦ ground (arith, reports_deleted-errors p [] outputs ps, elem_same p q outputs s)
  | inr n ↦ ground (arith, reports_deleted-errors p [] outputs ps)
]
reports_deleted-errors p (m ∷ ms) outputs ps = reports_deleted-errors p ms outputs ps

fatal_messages-errors :
    (ms outputs ps : List String) → fatal_messages (map fatal ms ++ deleted_errors outputs ps) ≡ ms
unfolding deleted_errors
fatal_messages-errors [] outputs [] = refl
fatal_messages-errors [] outputs (q ∷ ps) = ground (arith, fatal_messages-errors [] outputs ps)
fatal_messages-errors (m ∷ ms) outputs ps = ap (λ xs. m ∷ xs) (fatal_messages-errors ms outputs ps)

-- The trace of a history of events: its inputs are the paths that were read while they were no
-- outputs, and not written since; its outputs those that were written or created, and not deleted
-- since; no path is both. Its errors are the messages of the fatal errors, in their order, and a
-- report of each path that was deleted while it was no output, was not created since, and is no
-- output now. Reading a file and listing a directory are reads; a deletion is none.
pub trace-eq :
    (history : List Event)
    → ((p : String)
        → (elem p (generate_trace (consolidate history)).inputs ≡ is_input p history)
          × (elem p (generate_trace (consolidate history)).outputs ≡ is_output p history)
          × ((is_input p history && is_output p history) ≡ false)
          × (reports_deleted p (generate_trace (consolidate history)).errors
              ≡ (is_lost p history && not (is_output p history))))
      × (fatal_messages (generate_trace (consolidate history)).errors ≡ messages history)
unfolding generate_trace
trace-eq history =
    let s = consolidate history in
    (
      (λ p.
          let c = consolidate-IsConsolidated p history in
          (
            c.input,
            c.output,
            disjoint p history,
            ground (arith, c.lost, c.output, reports_deleted-errors p s.errors s.outputs s.deleted),
          )),
      fatal_messages-errors s.errors s.outputs s.deleted ∙ errors-consolidate history,
    )
  where
    disjoint : (p : String) (h : List Event) → (is_input p h && is_output p h) ≡ false
    disjoint p [] = refl
    disjoint p (e ∷ earlier) = ground (arith, disjoint p earlier)
