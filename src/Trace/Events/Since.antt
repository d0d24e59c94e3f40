-- ===== src/Trace/Events/Since.antt =====
-- What the events of a path come to, said of the history of events, the newest first.
use Prim.Native.String.{String}
use shuriken.Trace.Events.{EventType, Event, read, write, create, delete, read_directory}
use shuriken.Prelude.{List, Bool, false, true, ◌&&◌, ◌∷◌, not, ◌==◌, string_eq, ◌||◌, []}

-- Some event began it, and none since has ended it. `begins` is given the events before.
abbrev pub since : (List Event → Event → Bool) → (Event → Bool) → List Event → Bool
since begins ends [] = false
since begins ends (e ∷ earlier) = begins earlier e || (not (ends e) && since begins ends earlier)

abbrev reads_type : EventType → Bool
reads_type read = true
reads_type read_directory = true
reads_type _ = false

abbrev writes_type : EventType → Bool
writes_type write = true
writes_type create = true
writes_type _ = false

abbrev creates_type : EventType → Bool
creates_type create = true
creates_type _ = false

abbrev deletes_type : EventType → Bool
deletes_type delete = true
deletes_type _ = false

module _ (p : String) where
  abbrev pub reads : Event → Bool
  reads e = reads_type e.type && e.path == p

  abbrev pub writes : Event → Bool
  writes e = writes_type e.type && e.path == p

  abbrev pub creates : Event → Bool
  creates e = creates_type e.type && e.path == p

  abbrev pub deletes : Event → Bool
  deletes e = deletes_type e.type && e.path == p

  -- Written or created, and not deleted since
  abbrev pub is_output : List Event → Bool
  is_output = since (λ earlier e. writes e) deletes

  -- Read while it was no output, and not written or created since
  abbrev pub is_input : List Event → Bool
  is_input = since (λ earlier e. reads e && not (is_output earlier)) writes

  -- Deleted while it was no output, and not created since
  abbrev pub is_lost : List Event → Bool
  is_lost = since (λ earlier e. deletes e && not (is_output earlier)) creates
