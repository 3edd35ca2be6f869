-- ===== src/Benchmark/Csv.antt =====
-- benchmark/common/BenchmarkHarness.cpp: `csvEscape`, and a reader of quoted fields that undoes it.
use cpp_logger.Base.{
  ℕ, append_assoc, ◌≡◌, inl, inr, refl, ap, Bool, true, false, ◌||◌, Option, some, none, List, [],
  ◌∷◌, ◌++◌, ◌==◌, if◌then◌else◌, arith, Bool-cases,
}

-- A comma, a quote, or one of the two line ends.
abbrev is_special : ℕ → Bool
is_special c = c == b',' || c == b'"' || c == b'\r' || c == b'\n'

-- `value.find_first_of(",\"\r\n") != npos`
unfoldable pub needs_quotes : List ℕ → Bool
needs_quotes [] = false
needs_quotes (c ∷ rest) = is_special c || needs_quotes rest

-- The loop of `csvEscape`: a quote is written twice.
unfoldable pub doubled : List ℕ → List ℕ
doubled [] = []
doubled (c ∷ rest) =
    let escaped : List ℕ = c ∷ doubled rest in if c == b'"' then b'"' ∷ escaped else escaped

unfoldable pub csv_escape : List ℕ → List ℕ
unfolding needs_quotes doubled
csv_escape value = if needs_quotes value then b'"' ∷ (doubled value ++ (b'"' ∷ [])) else value

abbrev cons : ℕ → Option (List ℕ × List ℕ) → Option (List ℕ × List ℕ)
cons c none = none
cons c (some (xs, rest)) = some (c ∷ xs, rest)

-- The inside of a quoted field: what it stands for, and what follows its last quote. The flag says
-- that a quote was read, which ends the field or is the first of two.
unfoldable pub read_quoted : Bool → List ℕ → Option (List ℕ × List ℕ)
read_quoted false [] = none
read_quoted true [] = some ([], [])
read_quoted false (c ∷ rest) =
    let inside = read_quoted false rest in
    let after = read_quoted true rest in if c == b'"' then after else cons c inside
read_quoted true (c ∷ rest) =
    let inside = read_quoted false rest in
    if c == b'"' then cons b'"' inside else some ([], c ∷ rest)

-- A field without quotes, up to a special character.
unfoldable pub read_plain : List ℕ → List ℕ × List ℕ
read_plain [] = ([], [])
read_plain (c ∷ rest) =
    let (xs, left) = read_plain rest in if is_special c then ([], c ∷ rest) else (c ∷ xs, left)

-- The first field of a line.
unfoldable pub read_field : List ℕ → Option (List ℕ × List ℕ)
unfolding read_quoted read_plain
read_field [] = some ([], [])
read_field (c ∷ rest) = if c == b'"' then read_quoted false rest else some (read_plain (c ∷ rest))

-- A character that may follow a field.
abbrev pub IsDelimiter : ℕ → Type 0
IsDelimiter d = (is_special d ≡ true) × ((d == b'"') ≡ false)

read_quoted-doubled :
    (value more : List ℕ) (d : ℕ)
    → (d == b'"') ≡ false
    → read_quoted false (doubled value ++ (b'"' ∷ (d ∷ more))) ≡ some (value, d ∷ more)
unfolding read_quoted doubled
read_quoted-doubled [] more d h = rw h refl
read_quoted-doubled (c ∷ rest) more d h = elim (Bool-cases (c == b'"')) [
  | inl quote ↦ rw (quote, read_quoted-doubled rest more d h) (ground arith)
  | inr plain ↦ rw (plain, read_quoted, plain, read_quoted-doubled rest more d h) refl
]

read_plain-append :
    (value more : List ℕ) (d : ℕ)
    → needs_quotes value ≡ false
    → is_special d ≡ true
    → read_plain (value ++ (d ∷ more)) ≡ (value, d ∷ more)
unfolding read_plain needs_quotes
read_plain-append [] more d h k = rw k refl
read_plain-append (c ∷ rest) more d h k = elim (Bool-cases (is_special c)) [
  | inl special ↦ absurd (ground arith)
  | inr plain ↦ rw (plain, read_plain-append rest more d (ground arith) k) refl
]

if_false : {A : Type 0} (b : Bool) (x y z : A) → b ≡ false → y ≡ z → (if b then x else y) ≡ z
if_false true x y z h e = cc
if_false false x y z h e = e

read_field-plain :
    (value more : List ℕ) (d : ℕ)
    → needs_quotes value ≡ false
    → IsDelimiter d
    → read_field (value ++ (d ∷ more)) ≡ some (value, d ∷ more)
unfolding read_field needs_quotes
read_field-plain [] more d h k =
    if_false (d == b'"') _ _ _ k.1 (ap some (read_plain-append [] more d h k.0))
read_field-plain (c ∷ rest) more d h k =
    let first : (c == b'"') ≡ false = ground arith in
    if_false (c == b'"') _ _ _ first (ap some (read_plain-append (c ∷ rest) more d h k.0))

-- A field that `csvEscape` wrote, with a delimiter after it, is read back as it was, and the reader
-- stops at the delimiter, whatever commas, quotes and line ends the field holds.
pub read_field-csv_escape :
    (value more : List ℕ) (d : ℕ)
    → IsDelimiter d
    → read_field (csv_escape value ++ (d ∷ more)) ≡ some (value, d ∷ more)
unfolding read_field csv_escape
read_field-csv_escape value more d k = elim (Bool-cases (needs_quotes value)) [
  | inl quoted ↦
      rw (quoted, append_assoc (doubled value) (b'"' ∷ []) (d ∷ more))
        (read_quoted-doubled value more d k.1)
  | inr plain ↦ rw plain (read_field-plain value more d plain k)
]
