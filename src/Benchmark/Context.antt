-- ===== src/Benchmark/Context.antt =====
-- benchmark/common/BenchmarkHarness.cpp: `makeRunContext`, the marker and the payload of a run.
use mathlib.Core.Path.{subst}
use cpp_logger.Base.{
  ℕ, zero, suc, ◌-◌, ◌*◌, ◌%◌, ◌≤◌, ◌≡◌, refl, inl, inr, ◌∙◌, Bool, false, Option, none, some, List,
  [], ◌∷◌, ◌++◌, ltb, if◌then◌else◌, arith, Bool-cases, length, length-append, size_max, word_mod,
}
use cpp_logger.Base.Bytes.{codes}
use cpp_logger.Base.Decimal.{decimal}
use cpp_logger.Benchmark.{RunPhase, run_phase_name}
use cpp_logger.Benchmark.Options.{
  CommonOptions, checked_to_uint64, validate_common_options, validate_common_options_iff,
}

pub record RunContext : Type 0 where
  pub output_directory : List ℕ
  pub marker : List ℕ
  pub payload : List ℕ
  pub attempted : ℕ

-- What the outside answers: how paths are joined, the readings of the clock and of the counter of
-- runs, and whether the directory can be created.
pub record Outside : Type 0 where
  pub join : List ℕ → List ℕ → List ℕ
  pub timestamp : ℕ
  pub sequence : ℕ
  pub creates : Bool

unfoldable pub suffix : Outside → RunPhase → ℕ → List ℕ
unfolding run_phase_name
suffix outside phase run =
    run_phase_name phase
    ++ (codes "_"
        ++ (decimal run
            ++ (codes "_"
                ++ (decimal outside.timestamp ++ (codes "_" ++ decimal outside.sequence)))))

unfoldable pub marker_of : List ℕ → List ℕ → List ℕ → List ℕ
marker_of library profile suffix =
    codes "[benchmark:"
    ++ (library ++ (codes ":" ++ (profile ++ (codes ":" ++ (suffix ++ codes "]")))))

-- `payload.append(n, 'x')`
unfoldable pub filler : ℕ → List ℕ
filler zero = []
filler (suc n) = b'x' ∷ filler n

-- The context, once the marker is known; the product wraps.
unfoldable pub with_marker : Outside → CommonOptions → List ℕ → List ℕ → Option RunContext
unfolding filler checked_to_uint64
with_marker outside o directory marker =
    if ltb o.payload_size (length marker)
    then none
    else elim (checked_to_uint64 (o.thread_count * o.messages_per_thread % word_mod)) [
      | none ↦ none
      | some attempted ↦
          if outside.creates
          then some (record {
            output_directory = directory;
            marker = marker;
            payload = marker ++ filler (o.payload_size - length marker);
            attempted = attempted;
          })
          else none
    ]

-- `makeRunContext`; `none` is an exception.
unfoldable pub make_run_context :
    Outside → CommonOptions → (library profile : List ℕ) → RunPhase → ℕ → Option RunContext
unfolding with_marker suffix marker_of
make_run_context outside o library profile phase run =
    let end : List ℕ = suffix outside phase run in
    let directory : List ℕ =
      outside.join (outside.join (outside.join o.output_directory library) profile) end in
    if validate_common_options o
    then with_marker outside o directory (marker_of library profile end)
    else none

length-filler : (n : ℕ) → length (filler n) ≡ n
unfolding filler
length-filler zero = omega arith
length-filler (suc n) = omega (arith, length-filler n)

-- A context that fits its options.
pub record Fits (o : CommonOptions) (c : RunContext) : Type 0 where
  pub exact : length c.payload ≡ o.payload_size
  pub marked : (rest : List ℕ) × (c.payload ≡ c.marker ++ rest)
  pub total : c.attempted ≡ o.thread_count * o.messages_per_thread

abbrev FitsIf : CommonOptions → Option RunContext → Type 0
FitsIf o none = Unit
FitsIf o (some c) = Fits o c

with_marker-Fits :
    (outside : Outside) (o : CommonOptions) (directory marker : List ℕ)
    → o.thread_count * o.messages_per_thread ≤ size_max
    → FitsIf o (with_marker outside o directory marker)
unfolding with_marker checked_to_uint64
with_marker-Fits outside o directory marker le =
    let total : ℕ = o.thread_count * o.messages_per_thread in
    let small : ltb size_max (total % word_mod) ≡ false = ground arith in
    elim (Bool-cases (ltb o.payload_size (length marker))) [
      | inl long ↦ rw long tt
      | inr fits ↦ elim (Bool-cases outside.creates) [
        | inr fails ↦ rw (fits, small, fails) tt
        | inl works ↦
            rw (fits, small, works)
              (record {
                exact =
                    length-append marker (filler (o.payload_size - length marker))
                    ∙ ground (arith, length-filler (o.payload_size - length marker));
                marked = (filler (o.payload_size - length marker), refl);
                total = omega arith;
              })
      ]
    ]

make_run_context-FitsIf :
    (outside : Outside) (o : CommonOptions) (library profile : List ℕ) (phase : RunPhase) (run : ℕ)
    → 1 ≤ o.messages_per_thread
    → FitsIf o (make_run_context outside o library profile phase run)
unfolding make_run_context
make_run_context-FitsIf outside o library profile phase run pos =
    elim (Bool-cases (validate_common_options o)) [
      | inr bad ↦ rw bad tt
      | inl valid ↦ rw valid (
          with_marker-Fits outside o
            (outside.join (outside.join (outside.join o.output_directory library) profile)
              (suffix outside phase run))
            (marker_of library profile (suffix outside phase run))
            ((validate_common_options_iff o pos).0 valid).1)
    ]

-- A context that `makeRunContext` returns, for options with at least one message for each thread: the
-- payload has exactly the configured size and begins with the marker, and the number of attempted
-- records is that of all threads together, without a wrap.
pub make_run_context-Fits :
    (outside : Outside) (o : CommonOptions) (library profile : List ℕ) (phase : RunPhase) (run : ℕ)
    (c : RunContext)
    → 1 ≤ o.messages_per_thread
    → make_run_context outside o library profile phase run ≡ some c
    → Fits o c
make_run_context-Fits outside o library profile phase run c pos e =
    subst (FitsIf o) e (make_run_context-FitsIf outside o library profile phase run pos)
