-- ===== src/Lib.antt =====
-- A verification of the benchmark's core, src/qveris_bench: from the documents of a suite to a run
-- plan, from the plan to settled run cells, and from cells and evidence to a release.
--
-- The parts and how they meet; folders are those of src/qveris_bench. A provider registry
-- (providers/) and the documents of a suite are compiled (suites/compiler.py) into a run plan with
-- one cell for each case, access path, mode and round (suites/matrix.py). The orchestrator
-- (execution/orchestrator.py) moves each cell through its states (execution/state.py) while it
-- calls an executor with retries (execution/retry.py), saves the states (execution/resume.py) and
-- logs events (execution/events.py). Outcomes and failures are judged (outcomes/), evidence may be
-- published or not (evidence/policy.py), and the release gate (releases/gate.py) accepts a release
-- of cells, evidence and metrics. A release is assembled from the terminals of a run
-- (releases/public_terminal.py) and checked again when it is replayed (releases/replay.py; the
-- model has the checks that need only the documents). Beside that stand the trials of agents
-- (agents/, agent_trial/) and the bank of questions (question_bank/).
--
-- The files.
--   Prelude: Python's lists, sets, dicts, `sorted`, texts and exceptions; numbers are the native
--   naturals, and `Prelude/Int` has integers on them.
--   Models: models/*.py, a record for each model and a data type for each enumeration. The
--   validators that compare fields are functions; the patterns and bounds of single fields are not
--   modelled. `Models/Selection` and `Models/Selection/Gateway` have the parts of a selection
--   snapshot.
--   Execution/State, Retry, Store, Events, Orchestrator, DirectBinding: the modules of execution/
--   with the same functions. A run passes its state on: the dict of the states, the state file, the
--   event log and the world outside, in which the executor and the clock act. An exception is the
--   value `err`; `base` stands for one that `except Exception` lets pass. Python's `await` has one
--   order of effects here, since the orchestrator awaits one cell at a time.
--   Suites/Matrix, Documents, Resolution, Compiler: suites/*.py from the parsed documents on; the
--   two parts of compiler.py are the resolution of what a suite lists and the compilation.
--   Providers/Registry: providers/repository.py and qualification.py from the parsed entries on.
--   Evidence/Policy, Outcomes/Attribution, Outcomes/Evaluator: the modules of those names.
--   Releases/Gate, Metrics, Ranking: the three parts of releases/gate.py. Releases/Builder:
--   builder.py, verify.py and diff.py. Releases/Terminal and PublicTerminal: the models and the
--   assembly of public_terminal.py. Releases/Replay: the checks of replay.py on parsed files.
--   AgentTrial/Messages, ParamFill, ErrorRecovery: agent_trial/param_fill.py and error_recovery.py on
--   messages that are JSON; Agents: agents/base.py.
--   QuestionBank: question_bank/ behind the reading of its files.
--   Tests in a folder: its concrete data.
--
-- Loops are structural recursion on the lists that Python loops over; the only counter is the
-- retry budget, which is the program's own. Sets are lists read up to order and repetition. Scores
-- are integers, the multiples of the smallest float that floats are; a score is never infinite.
-- Latencies are any floats. The JSON text of the state file is the value that it parses to.
--
-- Parameters, since they are hashes, codecs, clocks, files or the network: the executor of a cell,
-- the sanitizing of event details, the text of an event, its parser and its lines, the time, the
-- suite fingerprint, the check of a Harbor source, the digests of metric definitions and cohorts;
-- for a release the JSON codec, the hash, the comparison of case inputs and the CAP's validator of
-- outcomes; for agents the client, the tool, the clock, the JSON parser and Python's operations on
-- texts.
--
-- Not modelled: the transports and credentials of execution/, redaction and the evidence store,
-- the extraction of outcomes, the agent adapters and the interpretation of answers, the CAP packs,
-- the outermost SelectionSnapshot, the selection profiles and publications, the articles, the
-- rendering of releases to files, the replay's checks of evidence files, of directory names and of
-- expected digests, and the command line.
pub mod Prelude
pub mod Models
pub mod Execution
pub mod Providers
pub mod Suites
pub mod Evidence
pub mod Outcomes
pub mod Releases
pub mod AgentTrial
pub mod Agents
pub mod QuestionBank
