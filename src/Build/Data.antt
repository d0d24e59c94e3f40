-- ===== src/Build/Data.antt =====
-- What a build reads: steps (src/shk/src/manifest/step.h), the invocation log's contents
-- (src/shk/src/log/invocations.h) and the parts of the compiled manifest that a build uses
-- (src/shk/src/manifest/compiled_manifest.h). Indices are checked when a manifest is loaded; a read out
-- of range, which is undefined in the program, gives a step with nothing in it here.
use Prim.Native.String.{String}
use text.Mathlib.Text.{◌==◌ as str_eq}
use shuriken.Prelude.{ℕ, Bool, false, Option, List, [], get_or}
use shuriken.Prelude.Assoc.{Assoc}
use shuriken.Fs.FileId.{FileId}
use shuriken.Fs.FileSystem.{Hash}
use shuriken.Fs.Fingerprint.{Fingerprint, MatchesResult}

abbrev pub StepIndex : Type 0
StepIndex = ℕ

pub record Step : Type 0 where
  pub hash : Hash
  pub dependencies : List StepIndex
  pub output_dirs : List String
  pub pool_name : String
  pub command : String
  pub depfile : String
  pub rspfile : String
  pub rspfile_content : String
  pub generator : Bool
  pub generator_inputs : List String
  pub generator_outputs : List String

-- The command string is empty for phony rules.
abbrev pub phony : Step → Bool
phony s = str_eq s.command ""

abbrev pub no_step : Step
no_step = record {
  hash = 0;
  dependencies = [];
  output_dirs = [];
  pool_name = "";
  command = "";
  depfile = "";
  rspfile = "";
  rspfile_content = "";
  generator = false;
  generator_inputs = [];
  generator_outputs = [];
}

-- `steps[i]`
abbrev pub step_at : List Step → StepIndex → Step
step_at steps i = get_or steps i no_step

pub record Manifest : Type 0 where
  pub steps : List Step
  pub defaults : List StepIndex
  pub roots : List StepIndex

-- `Invocations::Entry`
pub record Entry : Type 0 where
  pub output_files : List ℕ
  pub input_files : List ℕ
  pub ignored_dependencies : List ℕ
  pub additional_dependencies : List Hash

pub record Invocations : Type 0 where
  pub fingerprints : List (String × Fingerprint)
  pub entries : Assoc Hash Entry
  pub created_directories : Assoc FileId String

-- An entry of the memo is empty unless the build uses its fingerprint.
abbrev pub FingerprintMatchesMemo : Type 0
FingerprintMatchesMemo = List (Option MatchesResult)

abbrev pub CleanSteps : Type 0
CleanSteps = List Bool
