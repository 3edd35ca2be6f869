-- ===== src/Benchmark/Results.antt =====
-- benchmark/common/BenchmarkHarness.cpp: the counts in `inspectLogOutput` and `finalizeRun`.
pub mod Markers
pub mod Accounted
use cpp_logger.Base.{
  ℕ, zero, suc, ◌+◌, ◌-◌, ◌≡◌, ◌⊎◌, ap, refl, inl, inr, Bool, true, false, not, ◌&&◌, ◌||◌, leb,
  length, Option, none, some, List, [], ◌∷◌, ltb, ◌==◌, if◌then◌else◌, arith, Bool-cases, size_max,
}

-- `OutputStats`
pub record OutputStats : Type 0 where
  pub delivered_records : ℕ
  pub bytes : ℕ
  pub file_count : ℕ

infixl 5 ◌>>=◌
abbrev pub ◌>>=◌ : {A B : Type 0} → Option A → (A → Option B) → Option B
none >>= f = none
some a >>= f = f a

-- The lines that `std::getline` gives.
abbrev add_front : ℕ → List (List ℕ) → List (List ℕ)
add_front c [] = (c ∷ []) ∷ []
add_front c (l ∷ ls) = (c ∷ l) ∷ ls

unfoldable pub split_lines : List ℕ → List (List ℕ)
split_lines [] = []
split_lines (c ∷ rest) = let ls = split_lines rest in if c == b'\n' then [] ∷ ls else add_front c ls

unfoldable pub starts_with : (marker text : List ℕ) → Bool
starts_with [] text = true
starts_with (m ∷ ms) [] = false
starts_with (m ∷ ms) (c ∷ cs) = m == c && starts_with ms cs

-- The search for the marker in one line; the next search begins behind the marker that was found, so
-- `skipped` characters are passed over first. (The marker is not empty: with an empty one the search
-- would not end.)
unfoldable pub count_markers : List ℕ → ℕ → List ℕ → ℕ
unfolding starts_with
count_markers marker skipped [] = 0
count_markers marker (suc skipped) (c ∷ cs) = count_markers marker skipped cs
count_markers marker zero (c ∷ cs) =
    let behind = count_markers marker (length marker - 1) cs in
    let next = count_markers marker zero cs in
    if starts_with marker (c ∷ cs) then suc behind else next

unfoldable pub count_lines : List ℕ → List (List ℕ) → ℕ
unfolding count_markers
count_lines marker [] = 0
count_lines marker (l ∷ ls) = count_markers marker zero l + count_lines marker ls

-- A regular file with the extension `.log`; `readable` is false if one of its operations fails.
pub record Found : Type 0 where
  pub content : List ℕ
  pub readable : Bool

abbrev pub markers_of : List ℕ → Found → ℕ
markers_of marker f = count_lines marker (split_lines f.content)

-- One file of `inspectLogOutput`; `none` is an exception.
unfoldable pub inspect_file : List ℕ → OutputStats → Found → Option OutputStats
unfolding count_lines split_lines
inspect_file marker s f =
    if not f.readable
      || ltb (size_max - s.bytes) (length f.content)
      || ltb (size_max - s.delivered_records) (markers_of marker f)
    then none
    else some (record {
      delivered_records = s.delivered_records + markers_of marker f;
      bytes = s.bytes + length f.content;
      file_count = suc s.file_count;
    })

-- `inspectLogOutput` from some counts on, over the files in the order of the directory.
unfoldable pub inspect_files : List ℕ → OutputStats → List Found → Option OutputStats
unfolding inspect_file
inspect_files marker s [] = some s
inspect_files marker s (f ∷ fs) = do t ← inspect_file marker s f; inspect_files marker t fs

unfoldable pub inspect_log_output : List ℕ → List Found → Option OutputStats
unfolding inspect_files
inspect_log_output marker =
    inspect_files marker (record { delivered_records = 0; bytes = 0; file_count = 0 })

-- The counts of `RunMetrics`.
pub record RunMetrics : Type 0 where
  pub attempted : ℕ
  pub delivered : ℕ
  pub dropped : ℕ
  pub output : OutputStats

-- The readings of the clock at the start, when the producers were done, and at the end.
pub record Times : Type 0 where
  pub started : ℕ
  pub producers_done : ℕ
  pub finished : ℕ

abbrev pub differs : Option ℕ → ℕ → Bool
differs none dropped = false
differs (some expected) dropped = not (expected == dropped)

-- `finalizeRun` once the output has been read.
unfoldable pub with_output : ℕ → Times → Option ℕ → OutputStats → Option RunMetrics
with_output attempted times expected output =
    if ltb attempted output.delivered_records
    then none
    else if differs expected (attempted - output.delivered_records)
    then none
    else if leb times.producers_done times.started
        || ltb times.finished times.producers_done
        || leb times.finished times.started
    then none
    else some (record {
      attempted = attempted;
      delivered = output.delivered_records;
      dropped = attempted - output.delivered_records;
      output = output;
    })

-- `finalizeRun`
unfoldable pub finalize_run : List ℕ → ℕ → Times → Option ℕ → List Found → Option RunMetrics
unfolding inspect_log_output with_output
finalize_run marker attempted times expected files = do
  output ← inspect_log_output marker files
  with_output attempted times expected output
