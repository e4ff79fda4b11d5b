-- ===== src/Lib.antt =====
-- Verification of Temper ML (src/temper_ml), a local tool for LLM adapter experiments.
--
-- The program keeps every record of an experiment as canonical JSON under a content identity (a
-- SHA-256 of a tagged projection). A run is driven by messages of a worker, which a controller
-- accepts one by one; accelerators are leased to runs by a coordinator. An experiment has a
-- manifest, a JSON object; a derived experiment names a diff of its parent's manifest. Records are
-- compared, merged, resumed and deployed only when a compatibility check finds no violation.
--
-- Files and the code that they are about:
--   * Base/: tests, results, lists, texts and dicts, the operations of Python that the code uses.
--     A text is the list of its code points. The bytes of a UTF-8 file are kept as these points.
--   * Store/Json, Store/Canonical: src/temper_ml/store/canonical_json.py. `encode` is `_encode`,
--     `format_decimal` is `_format_decimal`, `dumps_canonical_json` has its name. `str(n)` is
--     computed by recursion on fuel n + 1, and each digit takes one. A dict is the list of
--     its items; one that is updated is held with its keys in order, since nothing that is modelled
--     reads the order in which they came. The encoder sorts the keys by itself all the same.
--     Store/Json/Keys and Store/Canonical/Extensional hold the lemmas on such dicts.
--   * Store/Loads: `loads_canonical_json`, `_reject_duplicate_keys` and `_validate` of the same file,
--     on the text that the bytes decode to. Store/Scanner holds what the code uses of `json.loads`:
--     Numbers, Strings (with `\uXXXX` and surrogate pairs) and Values, by recursion on fuel. A value,
--     a list and a dict take one unit each and a character at least, so that twice the length and
--     one is enough. The rest of Store/Scanner has the lemmas on what the encoder writes. Python's
--     limits on the digits of an integer and on the exponent of a decimal are not modelled.
--   * Store/EventStream: src/temper_ml/store/event_stream.py. A directory is the list of its files,
--     in any order, each a name and a text. Reading holds `_validate_envelope`, `read_verified` and
--     `rebuild`, Appending `append` under its lock, with the directory that each call leaves.
--     `prepared` is `_append_locked` up to its write, and `atomic_write` is the write. How far the
--     write comes is an argument (`Commit`): `write_once_bytes` of src/temper_ml/store/safe_io.py
--     returns, or it raises before or after it has placed the file. Steps, Digests, Chains, Names,
--     Envelopes, Consistency, Entries, Appended and Outcomes hold the lemmas, Chains, Promises,
--     Retries, Interrupted and Log what a stream promises. The links and file kinds that the code
--     refuses, the failures of the other file system calls, and the temporary files of a write,
--     which no call reads, are not modelled. A sequence number that has more than 20 digits would
--     make a name that is not read back; a theorem that needs fewer says so.
--   * Store/Paths: `_safe_relative_path` of src/temper_ml/store/write_once.py, and `_component` and
--     `StoreLayout` of src/temper_ml/store/layout.py. A path is the list of its parts below the root.
--   * Store/WriteOnce: `WriteOnceStore` of src/temper_ml/store/write_once.py, over a dict from paths
--     to texts, on a file system whose own calls do not fail: a call that raises then changes no
--     file. Links, temporary files and the races of two processes are not modelled.
--     Store/WriteOnce/Records has its promises.
--   * Domain/Projections, Domain/Identifiers: src/temper_ml/domain/projections.py, and
--     `identity_fields` and the identifiers of src/temper_ml/domain/records.py. The digest of
--     hashlib is the parameter `sha256` of every definition that needs it, from the text of the
--     preimage to its hexadecimal digest.
--   * Domain/Records, Domain/Hardware: references to records, execution targets and hardware
--     requirements (src/temper_ml/domain/records.py and hardware.py), with the fields that the
--     checks read. The content identity of a record is a field here.
--   * Domain/Compatibility: src/temper_ml/domain/compatibility.py, the four checks. A violation
--     stands for its pair of code and field. The check of a merge method as an identifier is part of
--     `check_merge`. What the records check of their own fields when they are built is not modelled.
--   * Domain/Experiments: src/temper_ml/domain/experiments.py. Pointer holds the JSON pointers,
--     Changes `ManifestChange` and `_diff_values`, Manifests `_apply_change` and `ManifestDiff`.
--   * Domain/Evaluations: `_rank_results`, `_pareto_results` and `_dominates` of
--     src/temper_ml/domain/evaluations.py, for cohort keys that the caller gives. Of a result only
--     the fields that they read are kept.
--   * Runtime/Protocol: src/temper_ml/runtime/protocol.py, the messages with their projections and
--     identities. A payload is a data type with one constructor for each kind;
--     Runtime/Protocol/Validation is `_validate_payload`, which returns nothing in the code and the
--     payload that it has checked here. `payload_fields` is the mapping that stands for such a
--     payload in the code. The refusal of private values in a payload is not modelled.
--   * Runtime/Controller: `SerializedRunController` of src/temper_ml/runtime/controller.py. A call
--     takes the controller and returns the one that it leaves, with the error that it raised. `new`
--     is the constructor behind its check that the run's id is an identifier.
--   * Runtime/Resources: `SerializedResourceCoordinator` of the same file.
--   * Runtime/Preflight: `select_execution_target` of src/temper_ml/runtime/preflight.py;
--     Runtime/Preflight/Constraints is `estimate_resources` and `_canonical_constraint_checks`, which
--     are the checks of a `PreflightResult`. Of the records only the fields that are read are kept.
--   * Examples/: tests and instances at concrete inputs.
--
-- The locks of the controller and the coordinator make their calls atomic, so that a sequence of
-- calls is a list of steps (`Reach`, `Calls`). Integers of Python are unbounded, as here.
--
-- Not modelled: evidence bundles and redaction, datasets, the rest of
-- evaluations and of preflight, staging, the worker's processes, the application services, the
-- server, the command line and the scripts.
pub mod Base
pub mod Store
pub mod Domain
pub mod Runtime
mod Examples
