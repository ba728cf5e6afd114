-- ===== src/Lib.antt =====
-- MemoryAI kernel (Kernel/src): a model of its core and the theorems that make it correct.
--
-- The kernel keeps every piece of data and code as a Memory. Physical bodies (Engine) hold Memories
-- in an indexed store under a cache of live records; runs execute the operations of a Memory's
-- Program under capabilities and resource budgets; concurrent runs execute speculatively on a
-- private engine and commit their difference.
--
-- Files:
--   Model         Kernel/src/kernel.go: Op, ResourceBudget, Memory, Frame.
--   Security      security_runtime.go: required_capability is requiredCapability, and so on; the
--                 loops of validateMemoryCapabilities are functions of their own.
--   Resource      resource_runtime.go: budgets, and the reservations before each operation.
--   Engine        kernel.go and fabric_write_runtime.go: resolveIDLocal, the tag deltas,
--                 listTagLocal, cache_drop and the writes under dataMu.
--   Fabric        fabric_write_runtime.go, shard_runtime.go, scale_runtime.go: the root body and the
--                 bodies mounted in it (resolveLocalFabricMemory, placement, bounded writes).
--   Journal       mutation_journal_runtime.go, persistence_runtime.go: the journal's payload, its two
--                 slots (Journal/Slots) and the replay.
--   Structures    structure_runtime.go: import of a Memory and explicit deletions.
--   Grants        mesh_grant_runtime.go: consumeMeshGrant and the fence of nonces.
--   Speculative   speculative_txn.go and speculative_fabric_commit.go: diffSnapshot and
--                 commitFabricSnapshotDiff, its plans, validation and application.
--   Frames        physical_limits_runtime.go and kernel.go: the ceilings on a Frame, on Programs and on
--                 events, and the expansion of templates.
--   Machine       kernel.go: Engine.run and execPrimitive. An Action is a step on a State, a Frame and
--                 a Fabric; a Target is the pointer to a Memory that a primitive changes
--                 (resolveMutable, resolveExecutable, ownerOf). Texts, States, Records, Programs
--                 and Run hold the primitives, as tables from codes to Actions; Logic, Steps and
--                 Writes the rules by which what they keep is composed; Sound, Exact and Jumps the
--                 proofs.
--   Events        event_runtime.go: events, their handlers, and the emission from a Frame.
--   Comparison    kernel.go: structuralMemoryEqual, which tells a copy of a record in another body from
--                 a divergent one.
--   Scheduler     scheduler_runtime.go, speculative_txn.go, speculative_boundary_extra.go: what may
--                 run speculatively, and the canonical execution.
--   Activation    activation_runtime.go: the features of a Memory and the inverted index from features
--                 to records.
--   Prelude       lists, tables, texts, errors and numbers that the others share.
--   Samples       small values for the tests.
--
-- Go maps are association lists in which put replaces the entry; a loop over a map goes through its
-- keys. Errors are values of Prelude.Errors.Error: io.EOF is kept apart from the others, since the
-- code tests for it. Critical sections under dataMu are single steps. Counters are unbounded.
-- All recursion is on the structure of a list, but for two bounds in Machine.Run: `depth`, on calls
-- that are nested in each other, which the code does not bound, and `steps`, on the operations of one
-- Program, where one more than its limit on operations is enough
-- (Machine.Sound.Execution.run_from-terminates).
--
-- The machine is the canonical one: the engine is the root of its Fabric and is not speculative. A
-- Memory that is deleted while it runs keeps its last value in State.removed, for the pointers that are
-- held. At an operation of `other_codes` (JSON, regular expressions, creation, events, bodies, files,
-- GPU) the model stops, with the outcome `beyond` and the state there; any other unknown code is the
-- error of the source. Emission is in Events, apart from the machine.
--
-- Not modelled: file formats, sockets, HTTP, GPU bindings and the clock. The indexed store is a
-- record of its reads; encoding/json and crypto/sha256 are the records Codec, Format and Json; the
-- limits that the environment sets and the encoded size of a record are the record Limits; and the
-- verification of capability and grant signatures is a parameter. The receipts of grants that
-- outlive the process enter as the result of persisting them.
pub mod Prelude
pub mod Model
pub mod Samples
pub mod Security
pub mod Resource
pub mod Engine
pub mod Speculative
pub mod Fabric
pub mod Journal
pub mod Structures
pub mod Grants
pub mod Frames
pub mod Machine
pub mod Events
pub mod Scheduler
pub mod Comparison
pub mod Activation
