-- ===== src/Logger/Worker/Gains.antt =====
-- Calls of every sink in turn, where no sink throws.
use cpp_logger.Base.{◌≡◌, refl, sym, ap, ◌∙◌, List, [], ◌∷◌, ◌++◌, append_assoc, append-nil}
use cpp_logger.Base.Outcome.{ok, Run}
use cpp_logger.Sink.{LogSink, Bytes, Batch}
use cpp_logger.Logger.Worker.{for_each, flush_sinks}

-- A sink that never throws, and what it has been given. `received` is the sink's own account.
pub record Reliable {S : Type 0} (sink : LogSink S) (received : S → List Bytes) : Type 0 where
  pub writes :
      (batch : Batch) (s : S)
      → (t : S) × (sink.write_batch batch s ≡ (ok tt, t)) × (received t ≡ received s ++ batch)
  pub flushes : (s : S) → (t : S) × (sink.flush s ≡ (ok tt, t)) × (received t ≡ received s ++ [])

module _ {S : Type 0} (received : S → List Bytes) where
  -- Every sink of the list has received `batch` more.
  abbrev pub Gains : Batch → List S → List S → Type 0
  Gains batch [] [] = Unit
  Gains batch [] (t ∷ ts) = ⊥
  Gains batch (s ∷ ss) [] = ⊥
  Gains batch (s ∷ ss) (t ∷ ts) = (received t ≡ received s ++ batch) × Gains batch ss ts

  pub Gains-trans :
      (b c : Batch) (ss ts us : List S) → Gains b ss ts → Gains c ts us → Gains (b ++ c) ss us
  Gains-trans b c [] [] [] h k = tt
  Gains-trans b c [] [] (u ∷ us) h k = k
  Gains-trans b c [] (t ∷ ts) us h k = absurd h
  Gains-trans b c (s ∷ ss) [] us h k = absurd h
  Gains-trans b c (s ∷ ss) (t ∷ ts) [] h k = absurd k
  Gains-trans b c (s ∷ ss) (t ∷ ts) (u ∷ us) h k = (
    k.0 ∙ ap (λ xs. xs ++ c) h.0 ∙ append_assoc (received s) b c,
    Gains-trans b c ss ts us h.1 k.1,
  )

  pub Gains-nothing : (ss : List S) → Gains [] ss ss
  Gains-nothing [] = tt
  Gains-nothing (s ∷ ss) = (sym (append-nil (received s)), Gains-nothing ss)

  -- A call that every sink answers well.
  pub for_each-Gains :
      (call : Run S (Unit {0})) (batch : Batch) (ss : List S)
      → ((s : S) → (t : S) × (call s ≡ (ok tt, t)) × (received t ≡ received s ++ batch))
      → (ts : List S) × (for_each call ss ≡ (ok tt, ts)) × Gains batch ss ts
  unfolding for_each
  for_each-Gains call batch [] h = ([], refl, tt)
  for_each-Gains call batch (s ∷ ss) h =
      let (t, e, g) = h s in
      let (ts, f, gs) = for_each-Gains call batch ss h in
      (t ∷ ts, rw (e, for_each, f) refl, (g, gs))

module _ {S : Type 0} (sink : LogSink S) (received : S → List Bytes)
    (good : Reliable sink received) where
  pub flush_sinks-Gains :
      (ss : List S) → (ts : List S) × (flush_sinks sink ss ≡ (ok tt, ts)) × Gains received [] ss ts
  unfolding flush_sinks
  flush_sinks-Gains ss = for_each-Gains received sink.flush [] ss good.flushes
