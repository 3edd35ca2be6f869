-- ===== src/Benchmark/Results/Accounted.antt =====
-- What the counts of `inspectLogOutput` and `finalizeRun` are.
use mathlib.Core.Path.{subst}
use cpp_logger.Base.{
  ℕ, suc, ◌+◌, ◌-◌, ◌≤◌, ◌≡◌, ◌⊎◌, ap, refl, inl, inr, false, not, ◌||◌, leb, length, Option, none,
  some, List, [], ◌∷◌, ltb, arith, Bool-cases, size_max,
}
use cpp_logger.Benchmark.Results.{
  OutputStats, ◌>>=◌, split_lines, Found, markers_of, inspect_file, inspect_files,
  inspect_log_output, RunMetrics, Times, differs, with_output, finalize_run,
}
use cpp_logger.Benchmark.Results.Markers.{OccursLines, count_lines-OccursLines}

-- As many markers stand in the lines of the files.
abbrev pub OccursFiles : List ℕ → List Found → ℕ → Type 0
OccursFiles marker [] n = n ≡ 0
OccursFiles marker (f ∷ fs) n =
    (k : ℕ) × (j : ℕ) × OccursLines marker (split_lines f.content) k
    × OccursFiles marker fs j
    × (n ≡ k + j)

abbrev total_bytes : List Found → ℕ
total_bytes [] = 0
total_bytes (f ∷ fs) = length f.content + total_bytes fs

-- The counts that a pass over files adds, if it ends without an exception.
abbrev Adds : List ℕ → List Found → OutputStats → Option OutputStats → Type 0
Adds marker files s none = Unit
Adds marker files s (some t) =
    ((n : ℕ) × OccursFiles marker files n × (t.delivered_records ≡ s.delivered_records + n))
    × (t.bytes ≡ s.bytes + total_bytes files)

Adds-cons :
    (marker : List ℕ) (f : Found) (fs : List Found) (s u : OutputStats) (t : Option OutputStats)
    → 1 ≤ length marker
    → u.delivered_records ≡ s.delivered_records + markers_of marker f
    → u.bytes ≡ s.bytes + length f.content
    → Adds marker fs u t
    → Adds marker (f ∷ fs) s t
Adds-cons marker f fs s u none some_of d b h = tt
Adds-cons marker f fs s u (some t) some_of d b ((n, o, e), h) = (
  (
    markers_of marker f + n,
    (_, n, count_lines-OccursLines marker (split_lines f.content) some_of, o, refl),
    omega (arith, e, d),
  ),
  omega (arith, h, b),
)

inspect_files-Adds :
    (marker : List ℕ) (files : List Found) (s : OutputStats)
    → 1 ≤ length marker
    → Adds marker files s (inspect_files marker s files)
unfolding inspect_files inspect_file
inspect_files-Adds marker [] s some_of = ((0, refl, omega arith), omega arith)
inspect_files-Adds marker (f ∷ fs) s some_of =
    elim (Bool-cases (
      not f.readable
      || ltb (size_max - s.bytes) (length f.content)
      || ltb (size_max - s.delivered_records) (markers_of marker f))) [
        | inl fails ↦ rw fails tt
        | inr counts ↦ rw counts (
            let u : OutputStats = record {
              delivered_records = s.delivered_records + markers_of marker f;
              bytes = s.bytes + length f.content;
              file_count = suc s.file_count;
            } in
            Adds-cons marker f fs s u _ some_of refl refl (inspect_files-Adds marker fs u some_of))
      ]

-- What `finalizeRun` vouches for.
pub record Accounted (marker : List ℕ) (attempted : ℕ) (expected : Option ℕ) (files : List Found)
    (m : RunMetrics) : Type 0 where
  pub counted : OccursFiles marker files m.delivered
  pub measured : m.output.bytes ≡ total_bytes files
  pub conserved : m.delivered + m.dropped ≡ attempted
  pub agrees : (expected ≡ none) ⊎ (expected ≡ some m.dropped)

abbrev Vouches : List ℕ → ℕ → Option ℕ → List Found → Option RunMetrics → Type 0
Vouches marker attempted expected files none = Unit
Vouches marker attempted expected files (some m) = Accounted marker attempted expected files m

agrees-differs :
    (expected : Option ℕ) (dropped : ℕ)
    → differs expected dropped ≡ false
    → (expected ≡ none) ⊎ (expected ≡ some dropped)
agrees-differs none dropped h = inl refl
agrees-differs (some e) dropped h = inr (ap some (ground arith))

from_zero :
    (marker : List ℕ) (files : List Found) (k : ℕ)
    → (n : ℕ) × OccursFiles marker files n × (k ≡ 0 + n)
    → OccursFiles marker files k
from_zero marker files k (n, o, e) = subst (OccursFiles marker files) (omega (arith, e)) o

with_output-Vouches :
    (marker : List ℕ) (attempted : ℕ) (times : Times) (expected : Option ℕ) (files : List Found)
    (output : Option OutputStats)
    → Adds marker files (record { delivered_records = 0; bytes = 0; file_count = 0 }) output
    → Vouches marker attempted expected files (output >>= with_output attempted times expected)
unfolding with_output
with_output-Vouches marker attempted times expected files none h = tt
with_output-Vouches marker attempted times expected files (some o) h =
    elim (Bool-cases (ltb attempted o.delivered_records)) [
      | inl many ↦ rw many tt
      | inr fits ↦ elim (Bool-cases (differs expected (attempted - o.delivered_records))) [
        | inl wrong ↦ rw (fits, wrong) tt
        | inr right ↦
            elim (Bool-cases (
              leb times.producers_done times.started
              || ltb times.finished times.producers_done
              || leb times.finished times.started)) [
                | inl bad ↦ rw (fits, right, bad) tt
                | inr good ↦
                    rw (fits, right, good)
                      (record {
                        counted = from_zero marker files o.delivered_records h.0;
                        measured = omega (arith, h.1);
                        conserved = ground arith;
                        agrees = agrees-differs expected _ right;
                      })
              ]
      ]
    ]

-- Metrics that `finalizeRun` returns, with a marker that is not empty: `delivered` is the number of
-- the markers that stand one behind the other in the lines of all files, each the first behind the end
-- of the one before, with none behind the last of a line; the bytes are those of all files; delivered
-- and dropped records together are the attempted ones; and a drop counter that was handed over is the
-- number of dropped records.
pub finalize_run-Accounted :
    (marker : List ℕ) (attempted : ℕ) (times : Times) (expected : Option ℕ) (files : List Found)
    (m : RunMetrics)
    → 1 ≤ length marker
    → finalize_run marker attempted times expected files ≡ some m
    → Accounted marker attempted expected files m
unfolding finalize_run inspect_log_output
finalize_run-Accounted marker attempted times expected files m some_of e =
    subst (Vouches marker attempted expected files) e (
      with_output-Vouches marker attempted times expected files _ (
        inspect_files-Adds marker files
          (record { delivered_records = 0; bytes = 0; file_count = 0 }) some_of))
