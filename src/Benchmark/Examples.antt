-- ===== src/Benchmark/Examples.antt =====
-- The benchmark support on small inputs.
use cpp_logger.Base.{arith, ◌≡◌, refl, true, some, List, [], ◌∷◌, ◌++◌}
use cpp_logger.Base.Bytes.{codes, bytes_eq}
use cpp_logger.Base.Decimal.{decimal}
use cpp_logger.Benchmark.Options.{
  CommonOptions, default_options, validate_common_options, parse_common_value_option,
  checked_to_uint64, sets, all_digits,
}
use cpp_logger.Benchmark.{warmup}
use cpp_logger.Benchmark.Context.{Outside, RunContext, make_run_context}
use cpp_logger.Benchmark.Csv.{csv_escape, read_field, read_field-csv_escape}
use cpp_logger.Benchmark.Results.{
  Found, Times, RunMetrics, finalize_run, inspect_files, count_lines, split_lines,
}
use cpp_logger.Benchmark.Results.Accounted.{Accounted, finalize_run-Accounted}

threads_option :
    parse_common_value_option default_options (codes "--threads") (codes "16")
    ≡ sets (record default_options { thread_count = 16 })
unfolding parse_common_value_option bytes_eq all_digits
threads_option = refl

quoted_field : csv_escape (codes "a,b") ≡ b'"' ∷ (codes "a,b" ++ (b'"' ∷ []))
unfolding csv_escape
quoted_field = refl

read_field-csv_escape_example :
    read_field (csv_escape (codes "a,b") ++ (b',' ∷ codes "c"))
    ≡ some (codes "a,b", b',' ∷ codes "c")
read_field-csv_escape_example = read_field-csv_escape (codes "a,b") (codes "c") b',' (refl, refl)

abbrev options : CommonOptions
options = default_options

-- Two files with two markers in all; three records were submitted.
abbrev logs : List Found
logs =
    record { content = codes "x[m]xx" ++ (10 ∷ codes "y[m]"); readable = true }
    ∷ record { content = codes "z"; readable = true }
    ∷ []

abbrev times : Times
times = record { started = 5; producers_done = 7; finished = 9 }

abbrev metrics : RunMetrics
metrics = record {
  attempted = 3;
  delivered = 2;
  dropped = 1;
  output = record { delivered_records = 2; bytes = 12; file_count = 2 };
}

logs-metrics : finalize_run (codes "[m]") 3 times (some 1) logs ≡ some metrics
unfolding finalize_run inspect_files count_lines split_lines
logs-metrics = refl

finalize_run-Accounted_example : Accounted (codes "[m]") 3 (some 1) logs metrics
finalize_run-Accounted_example =
    finalize_run-Accounted (codes "[m]") 3 times (some 1) logs metrics (omega arith) logs-metrics

abbrev outside : Outside
outside = record {
  join = λ path name. path ++ (codes "/" ++ name);
  timestamp = 77;
  sequence = 1;
  creates = true;
}

-- A marker of 29 characters in a payload of 32.
abbrev small_options : CommonOptions
small_options = record default_options { payload_size = 32 }

abbrev context : RunContext
context = record {
  output_directory = codes "benchmark_logs/l/p/warmup_1_77_1";
  marker = codes "[benchmark:l:p:warmup_1_77_1]";
  payload = codes "[benchmark:l:p:warmup_1_77_1]xxx";
  attempted = 1_000_000;
}

run_context : make_run_context outside small_options (codes "l") (codes "p") warmup 1 ≡ some context
unfolding make_run_context default_options decimal validate_common_options checked_to_uint64
run_context = refl
