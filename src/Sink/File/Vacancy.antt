-- ===== src/Sink/File/Vacancy.antt =====
-- Among as many numbers as there were writes, and one more, there is one without a file.
use mathlib.Core.Path.{sym}
use cpp_logger.Base.{
  ℕ, zero, suc, ◌+◌, ◌≤◌, ◌<◌, ◌≡◌, ◌≢◌, inl, inr, refl, ap, ◌∙◌, ltb, if◌then◌else◌, [], ◌∷◌,
  arith, Bool-cases, length,
}
use cpp_logger.Base.Bytes.{bytes_eq_iff}
use cpp_logger.Sink.Disk.{Disk, FileName, same_file}
use cpp_logger.Sink.Disk
use cpp_logger.Sink.File.{FileSink}
use cpp_logger.Sink.File.Rolling.{numbered, numbered-injective}

-- The writes to other files.
unfoldable without : FileName → Disk → Disk
without f [] = []
without f ((g, bytes) ∷ disk) =
    if same_file f g then without f disk else (g, bytes) ∷ without f disk

length-without_le : (f : FileName) (disk : Disk) → length (without f disk) ≤ length disk
unfolding without
length-without_le f [] = omega arith
length-without_le f ((g, bytes) ∷ disk) = ground (arith, length-without_le f disk)

length-without :
    (f : FileName) (disk : Disk) → 0 < Disk.size f disk → length (without f disk) < length disk
unfolding without Disk.size
length-without f [] h = absurd (omega arith)
length-without f ((g, bytes) ∷ disk) h = elim (Bool-cases (same_file f g)) [
  | inl same ↦ rw same (omega (arith, length-without_le f disk))
  | inr other ↦ rw other (omega (arith, length-without f disk (ground arith)))
]

size-without :
    (f g : FileName) (disk : Disk)
    → g.name ≢ f.name
    → Disk.size g (without f disk) ≡ Disk.size g disk
unfolding without Disk.size
size-without f g [] ne = refl
size-without f g ((k, bytes) ∷ disk) ne =
    ground (arith, size-without f g disk ne, bytes_eq_iff f.name k.name, bytes_eq_iff g.name k.name)

-- The numbers from `index` on.
pub vacancy :
    (n index : ℕ) (s : FileSink) (disk : Disk)
    → length disk ≤ n
    → (k : ℕ) × (k ≤ n) × (Disk.size (numbered s (index + k)) disk ≡ 0)
unfolding Disk.size
vacancy zero index s [] le = (0, omega arith, refl)
vacancy zero index s (x ∷ disk) le = absurd (omega arith)
vacancy (suc n) index s disk le = elim (Bool-cases (ltb 0 (Disk.size (numbered s index) disk))) [
  | inr none ↦
      let same : index + 0 ≡ index = omega arith in
      (0, omega arith, ap (λ i. Disk.size (numbered s i) disk) same ∙ ground arith)
  | inl some ↦
      let (k, bound, free) =
        vacancy n (suc index) s (without (numbered s index) disk)
          (omega (arith, length-without (numbered s index) disk (ground arith))) in
      let next : index + suc k ≡ suc index + k = omega arith in
      (
        suc k,
        omega (arith, bound),
        ap (λ i. Disk.size (numbered s i) disk) next
            ∙ sym (
                size-without (numbered s index) (numbered s (suc index + k)) disk
                  (λ same. absurd (omega (arith, numbered-injective s (suc index + k) index same))))
            ∙ free,
      )
]
