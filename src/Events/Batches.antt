-- ===== src/Events/Batches.antt =====
-- Kernel/src/event_runtime.go, eventDispatchBatchSize: the size of a batch of a parallel dispatch.
use memory_ai.Prelude.{ℕ, leb, if◌then◌else◌}
use memory_ai.Prelude.Int.{ℤ, pos, negsuc}

abbrev pub least : ℕ → ℕ → ℕ
least a b = if leb a b then a else b

abbrev pub at_least_one : ℤ → ℕ
at_least_one (negsuc _) = 1
at_least_one (pos n) = if leb n 0 then 1 else n
