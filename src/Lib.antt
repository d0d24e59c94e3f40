-- ===== src/Lib.antt =====
-- Shuriken is a build system: it reads a manifest of build steps, finds out which of them are clean,
-- runs the commands of the others in the order of their dependencies, traces which files each command
-- reads and writes, and logs that for the next build. This library models its core and proves what
-- makes it correct.
--
-- The parts, and how they interact:
-- * Fs models src/shk/src/fs. Fs/FileId has the ids of files (file_id.h), Fs/FileSystem the metadata
--   that lstat returns and the interface to the operating system (file_system.h), Fs/Fingerprint the
--   fingerprints of files (fingerprint.h, fingerprint.cpp): from_stat is Fingerprint::Stat::fromStat,
--   matches_with and fingerprint_matches are the overloads of fingerprintMatches, take_fingerprint and
--   retake_fingerprint are takeFingerprint and retakeFingerprint.
-- * Build models src/shk/src/build.h and build.cpp. Build/Data has what a build reads: steps
--   (src/shk/src/manifest/step.h) and the contents of the log (src/shk/src/log/invocations.h).
--   Build/Deps has usedDependencies, ignoredAndAdditionalDependencies and stepIsIgnored: what a command
--   used, compared with what the manifest declares. Build/Graph has Build::construct with visitStep
--   and computeReadySteps. Build/Ready has Build::markStepNodeAsDone and Build::discardCleanSteps.
--   Build/Schedule composes them: the states that a build goes through, which steps were built in them
--   and which are skipped. Build/Memo has computeFingerprintMatchesMemo, with
--   Invocations::fingerprintsFor of src/shk/src/log/invocations.cpp.
--   Build/Clean has computeCleanSteps, canSkipBuildCommand, computeStepsToBuild and countStepsToBuild,
--   with maxMtime and minMtime of src/shk/src/manifest/compiled_manifest.cpp. Build/Start composes
--   these as `build` does, up to its first command. Build/Cleanup has deleteBuildProduct,
--   deleteOldOutputs and deleteStaleOutputs. Build/Run has the commands: Run/Prepare what surrounds one,
--   Run/Commands commandBypassed and commandDone, Run/Loop enqueueBuildCommand, enqueueBuildCommands and
--   the loop of `build`. A command's end is an event, which says where among the running commands it
--   stood, what its result is and how it left the files.
-- * Trace models parts of src/shk-trace/src. Trace/Events has the event consolidator (event_type.h,
--   event_consolidator.cpp), Trace/Descriptors the memo of file descriptors (file_descriptor_memo.cpp),
--   Trace/Cwd that of working directories (cwd_memo.cpp).
--   The inputs and outputs of a trace are what Build/Deps compares with the manifest.
-- * Util models src/shk-util/src/path_operations.cpp. Util/Path has canonicalizePath, with the components
--   of a path and what they come to in Util/Path/Components; interpretPath, the manifest's compiler and
--   the tracer's path resolver call it. Util/Split has basenameSplitPiece and dirname; Util/Escape has
--   getShellEscapedString of src/shk/src/util.cpp.
-- * Cmd models src/shk/src/cmd. Cmd/Pool has the pooled runner (pooled_command_runner.cpp), which a
--   build gives its commands to.
-- * Log models src/shk/src/log. Log/Bytes has the layout of values in the file, Log/Data the tables,
--   Log/Parsed and Log/Parser the functions that read one entry (advance to parseDeleted of
--   persistent_invocation_log.cpp), Log/Parse the loop and parsePersistentInvocationLog, Log/Writer the
--   private methods of PersistentInvocationLog, Log/Operations its public ones and recompaction,
--   Log/Delayed the DelayedInvocationLog (delayed_invocation_log.cpp). Log/Synced relates a writer to
--   what its file reads as. The results of a parse are what Build reads; there a path is a text, here
--   the list of its bytes.
-- * Prelude has the lists, maps and tests that the parts share.
--
-- State is passed explicitly: a Build is a record, and a function that changes one returns the new one
-- in an Outcome, which is `done`, or the exception that the code throws, or `out_of_fuel`. The references
-- that the code keeps across calls are indices, and the model reads and writes the nodes by index. An
-- unordered map is a list of pairs, since nothing depends on its order.
--
-- Fuel: visit_step gets one more than the number of steps, which is enough since each call that recurses
-- marks one more step; discard_loop gets one more than the sum of all counters and the number of ready
-- steps, which each round lowers; canonicalize_loop gets the length of the path, of which each round
-- reads a byte; parse_loop gets the length of the view, of which each entry takes four bytes or more;
-- delete_ancestors gets three more than the length of the path, and dirname gives a shorter path, or "."
-- or "/", which are their own parents; enqueue_loop gets one more than the sum of the counters and the
-- number of ready steps.
--
-- Numbers: sizes, times and indices are natural numbers. st_mode is read by division and remainder. The
-- counters of dependencies are bounded by the number of edges, so the 32-bit int of the code is not
-- modelled as one. remaining_failures is an int that is set from a size_t and compared with it; it is a
-- natural number here, and the command line (src/shk/src/shk.cpp) keeps it below INT_MAX. In the log,
-- ids and sizes wrap at 32 bits, as they do in the code; the masks of an entry's header are division and
-- remainder.
--
-- Parameters: stat, lstat and the three functions that hash a file, a link and a directory are fields of a
-- record, one value of which is one state of the files. That file times were not tampered with is a
-- hypothesis, IsUntampered. Threads share out their work in any way: how they do is a parameter. The
-- fingerprints that a log takes of files are a function. The stream that a log writes to is a function
-- from what the file holds and the new bytes to what it holds then and an error; IsWorking says that it
-- appends. Whether a runner can run more depends on the steps that run and on the state outside, as the
-- load average is part of it.
--
-- Not modelled: the manifest's parser and compiler, the other command runners,
-- and the rest of the tracer; running processes, the kernel's tracing interface, printing, and the glue
-- around gRPC. mkdirs, writeFile, the log's fingerprint and the runner's canRunMore are parameters of a
-- running build, and its calls of the log do not fail there.
pub mod Prelude
pub mod Fs
pub mod Build
pub mod Trace
pub mod Util
pub mod Cmd
pub mod Log
