-- ===== src/Benchmark.antt =====
-- benchmark/common/BenchmarkHarness.h and .cpp: the data of the benchmark programs, and the names of
-- modes and phases. Options: the command line. Context: the marker and the payload of a run. Csv: the
-- quoting of fields. Results: the counts of a run.
pub mod Options
pub mod Context
pub mod Csv
pub mod Results
pub mod Producers
mod Examples
use cpp_logger.Base.{ℕ, List, []}
use cpp_logger.Base.Bytes.{codes}

pub data FlushMode : Type 0 where
  final_drain periodic : FlushMode
  other : ℕ → FlushMode

pub data RunPhase : Type 0 where
  warmup measured : RunPhase
  other : ℕ → RunPhase

-- `flushModeName`
unfoldable pub flush_mode_name : FlushMode → List ℕ
flush_mode_name final_drain = codes "final-drain"
flush_mode_name periodic = codes "periodic"
flush_mode_name (FlushMode.other k) = codes "unknown"

-- `runPhaseName`
unfoldable pub run_phase_name : RunPhase → List ℕ
run_phase_name warmup = codes "warmup"
run_phase_name measured = codes "measured"
run_phase_name (RunPhase.other k) = codes "unknown"
