-- ===== src/Trace/Events.antt =====
-- src/shk-trace/src/event_type.h and event_consolidator.cpp: the events of a traced program, and the
-- inputs, outputs and errors that they come to. A set is a list without duplicates.
pub mod Since
pub mod Trace
mod Tests
use shuriken.Prelude.{List, [], map, ◌∷◌, if◌then◌else◌, ◌++◌, elem, ◌==◌, string_eq}
use Prim.Native.String.{String}

-- `EventType`
pub data EventType : Type 0 where
  read read_directory write create delete fatal_error : EventType

-- A call of `EventConsolidator::event`. For a fatal error, `path` is its message.
pub record Event : Type 0 where
  pub type : EventType
  pub path : String

-- `EventConsolidator`
pub record EventConsolidator : Type 0 where
  pub inputs : List String
  pub outputs : List String
  pub deleted : List String
  pub errors : List String

abbrev pub no_events : EventConsolidator
no_events = record { inputs = []; outputs = []; deleted = []; errors = [] }

-- `insert` and `emplace` of a set
pub insert_path : String → List String → List String
insert_path p ps = if elem p ps then ps else p ∷ ps

-- `erase` of a set
pub erase_path : String → List String → List String
erase_path p [] = []
erase_path p (q ∷ ps) = let rest = erase_path p ps in if q == p then rest else q ∷ rest

-- `EventConsolidator::event`
pub event : EventConsolidator → EventType → String → EventConsolidator
event s read p = if elem p s.outputs then s else record s { inputs = insert_path p s.inputs }
event s read_directory p =
    if elem p s.outputs then s else record s { inputs = insert_path p s.inputs }
event s write p = record s {
  inputs = if elem p s.inputs then erase_path p s.inputs else s.inputs;
  outputs = insert_path p s.outputs;
}
event s create p = record s {
  inputs = if elem p s.inputs then erase_path p s.inputs else s.inputs;
  outputs = insert_path p s.outputs;
  deleted = erase_path p s.deleted;
}
event s delete p =
    if elem p s.outputs
    then record s { outputs = erase_path p s.outputs }
    else record s { deleted = insert_path p s.deleted }
event s fatal_error p = record s { errors = s.errors ++ p ∷ [] }

-- The state after the events, of which the newest comes first
pub consolidate : List Event → EventConsolidator
consolidate [] = no_events
consolidate (e ∷ earlier) = event (consolidate earlier) e.type e.path

-- A member of the errors of a trace: a message, or the one about a file that was deleted.
pub data TraceError : Type 0 where
  fatal : String → TraceError
  deleted_not_created : String → TraceError

-- The table `Trace` of the Flatbuffer
pub record TraceTable : Type 0 where
  pub inputs : List String
  pub outputs : List String
  pub errors : List TraceError

-- The loop over `_deleted`
pub deleted_errors : List String → List String → List TraceError
deleted_errors outputs [] = []
deleted_errors outputs (p ∷ ps) =
    let rest = deleted_errors outputs ps in
    if elem p outputs then rest else deleted_not_created p ∷ rest

-- `EventConsolidator::generateTrace`
pub generate_trace : EventConsolidator → TraceTable
generate_trace s = record {
  inputs = s.inputs;
  outputs = s.outputs;
  errors = map fatal s.errors ++ deleted_errors s.outputs s.deleted;
}
