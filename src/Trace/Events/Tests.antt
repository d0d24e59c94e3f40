-- ===== src/Trace/Events/Tests.antt =====
-- A compiler that reads a source, writes a temporary file that it deletes again, and writes an object.
use shuriken.Trace.Events.Trace.{reports_deleted, fatal_messages, messages, trace-eq}
use shuriken.Trace.Events.Since.{is_input, is_output, is_lost}
use Prim.Native.String.{String}
use shuriken.Trace.Events.{
  generate_trace, Event, consolidate, write, event, insert_path, delete, erase_path, read,
  deleted_errors, create,
}
use shuriken.Prelude.{List, elem, ◌≡◌, ◌∷◌, ◌&&◌, [], false, refl, not, string_eq}

abbrev compiled : List Event
compiled =
    record { type = write; path = "a.o" }
    ∷ record { type = delete; path = "a.tmp" }
    ∷ record { type = read; path = "a.tmp" }
    ∷ record { type = create; path = "a.tmp" }
    ∷ record { type = read; path = "a.o" }
    ∷ record { type = read; path = "a.c" }
    ∷ []

trace-compiled :
    generate_trace (consolidate compiled)
    ≡ record { inputs = "a.c" ∷ []; outputs = "a.o" ∷ []; errors = [] }
unfolding generate_trace consolidate event insert_path erase_path deleted_errors
trace-compiled = refl

-- A file that was there is deleted, created and deleted again: no error is left.
trace-recreated :
    (generate_trace (
      consolidate (
        record { type = delete; path = "b" }
        ∷ record { type = create; path = "b" }
        ∷ record { type = delete; path = "b" }
        ∷ []))).errors
    ≡ []
unfolding generate_trace consolidate event insert_path erase_path deleted_errors
trace-recreated = refl

trace-eq_example :
    ((p : String)
      → (elem p (generate_trace (consolidate compiled)).inputs ≡ is_input p compiled)
        × (elem p (generate_trace (consolidate compiled)).outputs ≡ is_output p compiled)
        × ((is_input p compiled && is_output p compiled) ≡ false)
        × (reports_deleted p (generate_trace (consolidate compiled)).errors
            ≡ (is_lost p compiled && not (is_output p compiled))))
    × (fatal_messages (generate_trace (consolidate compiled)).errors ≡ messages compiled)
trace-eq_example = trace-eq compiled
