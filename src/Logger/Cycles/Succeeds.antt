-- ===== src/Logger/Cycles/Succeeds.antt =====
-- Which calls of `init` answer `true`.
use mathlib.Core.Path.{subst}
use cpp_logger.Base.{
  ◌≡◌, ◌≢◌, ◌⊎◌, ◌↔◌, inl, inr, refl, sym, ap, ◌∙◌, Bool, true, false, Option, none, some, List, [],
  ◌∷◌, Bool-cases, Option-cases, if◌then◌else◌,
}
use cpp_logger.Sink.{LogSink}
use cpp_logger.Logger.{LoggerConfig, Logger, Thread, absent, looping, finished}
use cpp_logger.Logger.Config.{rejects, non_null, IsAcceptable, rejects_iff}
use cpp_logger.Logger.Lifecycle.{
  Start, Init, started, append_sink, new_sinks, configured, launch, init_sinks, init_joined,
  init_checked, init,
}
use cpp_logger.Logger.Cycles.{Begins, init-Begins}

module _ {S : Type 0} where
  -- No sink of the user's is null.
  abbrev pub NoneNull : List (Option S) → Type 0
  NoneNull [] = Unit
  NoneNull (s ∷ ss) = (s ≢ none) × NoneNull ss

  -- The file sink and the console sink can be made where they are wanted, and the thread can be
  -- started.
  pub record CanStart (st : Start S) (c : LoggerConfig S) : Type 0 where
    pub file :
        (c.enable_file_sink ≡ false)
        ⊎ (st.file_sink c.base_path c.max_file_size c.write_batch_size ≢ none)
    pub console :
        (c.enable_console_sink ≡ false)
        ⊎ (st.console_sink c.console_stream c.write_batch_size ≢ none)
    pub thread : st.starts_thread ≡ true

  non_null-NoneNull : (ss : List (Option S)) (ts : List S) → non_null ss ≡ some ts → NoneNull ss
  unfolding non_null
  non_null-NoneNull [] ts h = tt
  non_null-NoneNull (none ∷ ss) ts h = cc
  non_null-NoneNull (some s ∷ ss) ts h = elim (Option-cases (non_null ss)) [
    | inl e ↦ let wrong = rw e at h in cc
    | inr (rest, e) ↦ (λ k. cc, non_null-NoneNull ss rest e)
  ]

  NoneNull-non_null : (ss : List (Option S)) → NoneNull ss → (ts : List S) × (non_null ss ≡ some ts)
  unfolding non_null
  NoneNull-non_null [] h = ([], refl)
  NoneNull-non_null (none ∷ ss) h = absurd (h.0 refl)
  NoneNull-non_null (some s ∷ ss) h =
      let (rest, e) = NoneNull-non_null ss h.1 in (s ∷ rest, rw e refl)

  -- A built-in sink, made where it is wanted.
  chosen : Bool → Option S → Option (List S) → Option (List S)
  chosen wanted s rest = if wanted then append_sink s rest else rest

  chosen-made :
      (wanted : Bool) (s : Option S) (rest : Option (List S)) (ss : List S)
      → chosen wanted s rest ≡ some ss
      → ((wanted ≡ false) ⊎ (s ≢ none)) × (rest ≢ none)
  unfolding chosen
  chosen-made false s rest ss e = (inl refl, λ k. cc)
  chosen-made true none rest ss e = cc
  chosen-made true (some s) none ss e = cc
  chosen-made true (some s) (some rest) ss e = (inr (λ k. cc), λ k. cc)

  made-chosen :
      (wanted : Bool) (s : Option S) (rest : List S)
      → (wanted ≡ false) ⊎ (s ≢ none)
      → (ss : List S) × (chosen wanted s (some rest) ≡ some ss)
  unfolding chosen
  made-chosen false s rest h = (rest, refl)
  made-chosen true (some s) rest h = (s ∷ rest, refl)
  made-chosen true none rest (inl h) = cc
  made-chosen true none rest (inr h) = absurd (h refl)

module _ {S : Type 0} (sink : LogSink S) (st : Start S) (c : LoggerConfig S) where
  new_sinks-chosen :
      (extra : List S)
      → new_sinks sink st c extra
        ≡ chosen c.enable_file_sink (st.file_sink c.base_path c.max_file_size c.write_batch_size) (
            chosen c.enable_console_sink
              (st.console_sink c.console_stream c.write_batch_size)
              (some extra))
  unfolding new_sinks chosen
  new_sinks-chosen extra = refl

  -- Only with a thread is the answer `true`.
  abbrev Threaded : Init S → Type 0
  Threaded (started m released) = st.starts_thread ≡ true
  Threaded _ = Unit

  launch-Threaded :
      (starts : Bool) (l : Logger S) (released : List S)
      → st.starts_thread ≡ starts
      → Threaded (launch sink starts l released)
  unfolding launch
  launch-Threaded true l released e = e
  launch-Threaded false l released e = tt

  sinks-Threaded :
      (l : Logger S) (released : List S) (made : Option (List S))
      → Threaded (init_sinks sink st c l released made)
  unfolding init_sinks
  sinks-Threaded l released none = tt
  sinks-Threaded l released (some made) = launch-Threaded st.starts_thread _ released refl

  checked-Threaded :
      (l : Logger S) (extra : List S) (t : Thread) → Threaded (init_checked sink st c l extra t)
  unfolding init_checked init_joined
  checked-Threaded l extra looping = tt
  checked-Threaded l extra absent = sinks-Threaded _ _ _
  checked-Threaded l extra finished = sinks-Threaded _ _ _

  init-Threaded : (l : Logger S) → Threaded (init sink st c l)
  unfolding init
  init-Threaded l = elim (Bool-cases (rejects l.running c)) [
    | inl bad ↦ rw bad tt
    | inr fine ↦ elim (Option-cases (non_null c.additional_sinks)) [
      | inl e ↦ rw (fine, e) tt
      | inr (extra, e) ↦ rw (fine, e) (checked-Threaded l extra l.worker)
    ]
  ]

  abbrev Starts : Init S → Type 0
  Starts i = (m : Logger S) × (released : List S) × (i ≡ started m released)

  launch-Starts :
      (starts : Bool) (l : Logger S) (released : List S)
      → starts ≡ true
      → Starts (launch sink starts l released)
  unfolding launch
  launch-Starts true l released e = (_, released, refl)
  launch-Starts false l released e = cc

  sinks-Starts :
      (l : Logger S) (released ss : List S) (made : Option (List S))
      → st.starts_thread ≡ true
      → made ≡ some ss
      → Starts (init_sinks sink st c l released made)
  unfolding init_sinks
  sinks-Starts l released ss none thread e = cc
  sinks-Starts l released ss (some made) thread e =
      launch-Starts st.starts_thread (configured sink l c made) released thread

  checked-Starts :
      (l : Logger S) (extra made : List S) (t : Thread)
      → t ≢ looping
      → st.starts_thread ≡ true
      → new_sinks sink st c extra ≡ some made
      → Starts (init_checked sink st c l extra t)
  unfolding init_checked init_joined
  checked-Starts l extra made looping n thread e = absurd (n refl)
  checked-Starts l extra made absent n thread e = sinks-Starts _ _ made _ thread e
  checked-Starts l extra made finished n thread e = sinks-Starts _ _ made _ thread e

  -- `init` answers `true` exactly if the logger does not run, the configuration is acceptable, no
  -- additional sink is null, no worker loops (one that has finished is joined), the file sink and the
  -- console sink can be made where the configuration wants them, and the thread can be started.
  pub init_succeeds_iff :
      (l : Logger S)
      → ((m : Logger S) × (released : List S) × (init sink st c l ≡ started m released)) ↔ (
          (l.running ≡ false)
          × IsAcceptable c
          × NoneNull c.additional_sinks
          × (l.worker ≢ looping)
          × CanStart st c)
  unfolding init
  init_succeeds_iff l = (
    λ (m, released, e).
        let b : Begins sink st c l m released = init-Begins sink st c l m released e in
        let (extra, f, g) = b.sinks in
        let (file, h) = chosen-made _ _ _ _ (sym (new_sinks-chosen extra) ∙ g) in
        let console : (c.enable_console_sink ≡ false)
            ⊎ (st.console_sink c.console_stream c.write_batch_size ≢ none) =
          elim (Option-cases (
            chosen c.enable_console_sink (st.console_sink c.console_stream c.write_batch_size)
              (some extra))) [
                | inl n ↦ absurd (h n)
                | inr (some_of, n) ↦ (chosen-made _ _ _ _ n).0
              ] in
        (
          b.stopped_before,
          b.acceptable,
          non_null-NoneNull _ extra f,
          b.joined,
          record { file = file; console = console; thread = subst Threaded e (init-Threaded l) },
        ),
    λ (stopped, ok, full, free, can).
        let (extra, f) = NoneNull-non_null c.additional_sinks full in
        let (console, g) =
          made-chosen c.enable_console_sink (st.console_sink c.console_stream c.write_batch_size)
            extra can.console in
        let (made, h) =
          made-chosen c.enable_file_sink
            (st.file_sink c.base_path c.max_file_size c.write_batch_size) console can.file in
        let fine = (rejects_iff c l.running).1 (stopped, ok) in
        let all : new_sinks sink st c extra ≡ some made =
          new_sinks-chosen extra ∙ ap (chosen c.enable_file_sink _) g ∙ h in
        let (m, released, e) = checked-Starts l extra made l.worker free can.thread all in
        (m, released, rw (fine, f) e),
  )
