-- ===== src/Sink/Disk.antt =====
-- The file system as the sinks see it: who was given which bytes, newest first. The bytes of an
-- `std::ofstream` count as the file's when they are written, since every file is flushed before it
-- is closed, and the size of a file is read only where no stream on it is open.
use cpp_logger.Base.{
  ℕ, ◌≤◌, ap, Bool-cases, inl, inr, ◌+◌, ◌≡◌, ◌≢◌, Bool, true, ◌&&◌, List, [], ◌∷◌, ◌++◌, arith,
  length, if◌then◌else◌,
}
use cpp_logger.Base.Bytes.{bytes_eq, bytes_eq_iff}

pub record FileName : Type 0 where
  pub directory : List ℕ
  pub name : List ℕ

abbrev pub same_file : FileName → FileName → Bool
same_file f g = bytes_eq f.directory g.directory && bytes_eq f.name g.name

abbrev pub Disk : Type 0
Disk = List (FileName × List ℕ)

unfoldable pub size : FileName → Disk → ℕ
size f [] = 0
size f ((g, bytes) ∷ disk) = if same_file f g then size f disk + length bytes else size f disk

-- All bytes that were ever written, in the order of the writes.
unfoldable pub stream : Disk → List ℕ
stream [] = []
stream ((g, bytes) ∷ disk) = stream disk ++ bytes

pub size_self :
    (f : FileName) (bytes : List ℕ) (disk : Disk)
    → size f ((f, bytes) ∷ disk) ≡ size f disk + length bytes
unfolding size
size_self f bytes disk =
    ground (arith, bytes_eq_iff f.directory f.directory, bytes_eq_iff f.name f.name)

pub size_ne :
    (f g : FileName) (bytes : List ℕ) (disk : Disk)
    → f.name ≢ g.name
    → size f ((g, bytes) ∷ disk) ≡ size f disk
unfolding size
size_ne f g bytes disk h = ground (arith, bytes_eq_iff f.name g.name)

same_file-eq : (f g : FileName) → same_file f g ≡ true → f ≡ g
same_file-eq f g h =
    let d : f.directory ≡ g.directory = (bytes_eq_iff f.directory g.directory).0 (ground arith) in
    let n : f.name ≡ g.name = (bytes_eq_iff f.name g.name).0 (ground arith) in
    λ i. record { directory = d i; name = n i }

-- One more write leaves every file within a bound if the file it goes to stays within it.
pub size-le :
    (bound : ℕ) (f g : FileName) (bytes : List ℕ) (disk : Disk)
    → size f disk ≤ bound
    → size g disk + length bytes ≤ bound
    → size f ((g, bytes) ∷ disk) ≤ bound
unfolding size
size-le bound f g bytes disk h k = elim (Bool-cases (same_file f g)) [
  | inl same ↦ rw same (omega (arith, ap (λ h. size h disk) (same_file-eq f g same)))
  | inr other ↦ rw other h
]
