-- ===== src/Benchmark/Results/Markers.antt =====
-- The markers in a text, told apart from the program's way to count them.
use mathlib.Core.Path.{subst}
use cpp_logger.Base.{
  ℕ, zero, suc, ◌+◌, ◌-◌, ◌≤◌, ◌≡◌, ◌≢◌, ap, refl, ◌∙◌, true, false, length, List, [], ◌∷◌, ◌++◌,
  inl, inr, arith, Bool-cases, drop,
}
use cpp_logger.Benchmark.Results.{starts_with, count_markers, count_lines}

-- `n` markers stand in a text one behind the other: each next one is the first that begins behind the
-- end of the one before, and behind the last there is no further one.
pub data Occurs (marker : List ℕ) : List ℕ → ℕ → Type 0 where
  nowhere :
      {text : List ℕ}
      → ((front back : List ℕ) → text ≢ front ++ (marker ++ back))
      → Occurs marker text 0
  first :
      {text : List ℕ} {n : ℕ} (front back : List ℕ)
      → text ≡ front ++ (marker ++ back)
      → ((f b : List ℕ) → text ≡ f ++ (marker ++ b) → length front ≤ length f)
      → Occurs marker back n
      → Occurs marker text (suc n)

abbrev pub OccursLines : List ℕ → List (List ℕ) → ℕ → Type 0
OccursLines marker [] n = n ≡ 0
OccursLines marker (l ∷ ls) n =
    (k : ℕ) × (j : ℕ) × Occurs marker l k × OccursLines marker ls j × (n ≡ k + j)

starts_with-splits :
    (marker text : List ℕ)
    → starts_with marker text ≡ true
    → text ≡ marker ++ drop (length marker) text
unfolding starts_with
starts_with-splits [] text h = refl
starts_with-splits (m ∷ ms) [] h = cc
starts_with-splits (m ∷ ms) (c ∷ cs) h =
    let same : m ≡ c = ground arith in let rest = starts_with-splits ms cs (ground arith) in cc

starts_with-append : (marker back : List ℕ) → starts_with marker (marker ++ back) ≡ true
unfolding starts_with
starts_with-append [] back = refl
starts_with-append (m ∷ ms) back = ground (arith, starts_with-append ms back)

-- No marker begins at the head of the text.
not_first :
    (marker front back : List ℕ) (c : ℕ) (cs : List ℕ)
    → starts_with marker (c ∷ cs) ≡ false
    → c ∷ cs ≡ front ++ (marker ++ back)
    → (rest : List ℕ) × (front ≡ c ∷ rest) × (cs ≡ rest ++ (marker ++ back))
not_first marker [] back c cs h e =
    let there : starts_with marker (c ∷ cs) ≡ true =
      ap (starts_with marker) e ∙ starts_with-append marker back in
    cc
not_first marker (d ∷ front) back c cs h e = (front, cc, cc)

Occurs-cons :
    (marker : List ℕ) (c : ℕ) (cs : List ℕ) (n : ℕ)
    → starts_with marker (c ∷ cs) ≡ false
    → Occurs marker cs n
    → Occurs marker (c ∷ cs) n
Occurs-cons marker c cs _ h (nowhere never) =
    nowhere
      (λ front back e. let (rest, f, t) = not_first marker front back c cs h e in never rest back t)
Occurs-cons marker c cs _ h (first front back e least o) =
    first (c ∷ front) back (ap (λ t. c ∷ t) e)
      (λ f b e.
        let (rest, s, t) = not_first marker f b c cs h e in
        omega (arith, least rest b t, ap (λ (xs : List ℕ). length xs) s))
      o

Occurs-head :
    (marker text : List ℕ) (n : ℕ)
    → starts_with marker text ≡ true
    → Occurs marker (drop (length marker) text) n
    → Occurs marker text (suc n)
Occurs-head marker text n h o =
    first [] (drop (length marker) text) (starts_with-splits marker text h) (λ f b e. omega arith) o

empty_line : (marker front back : List ℕ) → 1 ≤ length marker → [] ≢ front ++ (marker ++ back)
empty_line [] front back h = absurd (omega (arith, h))
empty_line (m ∷ ms) [] back h = λ e. cc
empty_line (m ∷ ms) (f ∷ fs) back h = λ e. cc

count_markers-Occurs :
    (marker : List ℕ) (skipped : ℕ) (text : List ℕ)
    → 1 ≤ length marker
    → Occurs marker (drop skipped text) (count_markers marker skipped text)
unfolding count_markers
count_markers-Occurs marker zero [] h = nowhere (λ front back. empty_line marker front back h)
count_markers-Occurs marker (suc skipped) [] h =
    nowhere (λ front back. empty_line marker front back h)
count_markers-Occurs marker (suc skipped) (c ∷ cs) h = count_markers-Occurs marker skipped cs h
count_markers-Occurs (m ∷ ms) zero (c ∷ cs) h =
    let marker : List ℕ = m ∷ ms in
    let rest : Occurs marker (drop (length ms) cs) (count_markers marker (length marker - 1) cs) =
      subst (λ k. Occurs marker (drop k cs) (count_markers marker (length marker - 1) cs))
        (omega arith) (count_markers-Occurs marker (length marker - 1) cs h) in
    elim (Bool-cases (starts_with marker (c ∷ cs))) [
      | inl here ↦ rw here (Occurs-head marker (c ∷ cs) _ here rest)
      | inr later ↦
          rw later (Occurs-cons marker c cs _ later (count_markers-Occurs marker zero cs h))
    ]
count_markers-Occurs [] zero (c ∷ cs) h = absurd (omega (arith, h))

pub count_lines-OccursLines :
    (marker : List ℕ) (ls : List (List ℕ))
    → 1 ≤ length marker
    → OccursLines marker ls (count_lines marker ls)
unfolding count_lines
count_lines-OccursLines marker [] h = refl
count_lines-OccursLines marker (l ∷ ls) h =
    (_, _, count_markers-Occurs marker zero l h, count_lines-OccursLines marker ls h, refl)
