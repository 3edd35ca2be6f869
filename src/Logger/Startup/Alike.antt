-- ===== src/Logger/Startup/Alike.antt =====
-- `init` depends on the sinks that it makes only by what it does with them: over other sinks that
-- correspond to them it does the same.
use cpp_logger.Base.{
  ◌≡◌, inl, inr, refl, ap, ◌∙◌, Bool, true, false, Option, none, some, List, [], ◌∷◌, ◌++◌, map,
  Bool-cases, Option-cases, if◌then◌else◌,
}
use cpp_logger.Sink.{LogSink}
use cpp_logger.Logger.{LoggerConfig, Logger, Thread, absent, looping, finished}
use cpp_logger.Logger.Config.{no_sinks, rejects, non_null}
use cpp_logger.Logger.Lifecycle.{
  Start, Init, refused, failed, started, close_sinks, append_sink, new_sinks, configured, launch,
  init_sinks, init_joined, init_checked, init,
}
use cpp_logger.Logger.Worker.Simulation.{with_sinks}

module _ {A B : Type 0} (first : LogSink A) (second : LogSink B) (renew : B → A) where
  abbrev renewed : Option B → Option A
  renewed none = none
  renewed (some b) = some (renew b)

  abbrev all_renewed : Option (List B) → Option (List A)
  all_renewed none = none
  all_renewed (some bs) = some (map renew bs)

  -- The same answers and the same configuration, for the other sinks.
  abbrev pub start_for : Start B → Start A
  start_for st = record {
    file_sink =
        λ path max_file_size batch_size. renewed (st.file_sink path max_file_size batch_size);
    console_sink = λ target batch_size. renewed (st.console_sink target batch_size);
    starts_thread = st.starts_thread;
  }

  abbrev pub config_for : LoggerConfig B → LoggerConfig A
  config_for c = record {
    base_path = c.base_path;
    min_level = c.min_level;
    max_file_size = c.max_file_size;
    queue_capacity = c.queue_capacity;
    overflow_policy = c.overflow_policy;
    write_batch_size = c.write_batch_size;
    flush_policy = c.flush_policy;
    flush_interval = c.flush_interval;
    flush_at_or_above = c.flush_at_or_above;
    enable_file_sink = c.enable_file_sink;
    enable_console_sink = c.enable_console_sink;
    console_stream = c.console_stream;
    additional_sinks = map renewed c.additional_sinks;
  }

  -- The second answer is the first one over sinks to which the first one's correspond.
  abbrev pub InitAlike : Init A → Init B → Type 0
  InitAlike refused y = y ≡ refused
  InitAlike Init.waits y = y ≡ Init.waits
  InitAlike (failed m r) y =
      (ms : List B) × (s : List B) × (y ≡ failed (with_sinks m ms) s) × (m.sinks ≡ map renew ms)
  InitAlike (started m r) y =
      (ms : List B) × (s : List B) × (y ≡ started (with_sinks m ms) s) × (m.sinks ≡ map renew ms)

  no_sinks-renewed : (ss : List (Option B)) → no_sinks (map renewed ss) ≡ no_sinks ss
  unfolding no_sinks
  no_sinks-renewed [] = refl
  no_sinks-renewed (s ∷ ss) = refl

  rejects-config_for :
      (running : Bool) (c : LoggerConfig B) → rejects running (config_for c) ≡ rejects running c
  unfolding rejects
  rejects-config_for running c = rw (no_sinks-renewed c.additional_sinks) refl

  non_null-renewed : (ss : List (Option B)) → non_null (map renewed ss) ≡ all_renewed (non_null ss)
  unfolding non_null
  non_null-renewed [] = refl
  non_null-renewed (none ∷ ss) = refl
  non_null-renewed (some s ∷ ss) = elim (Option-cases (non_null ss)) [
    | inl e ↦ rw (non_null-renewed ss, e) refl
    | inr (rest, e) ↦ rw (non_null-renewed ss, e) refl
  ]

  append_sink-renewed :
      (s : Option B) (rest : Option (List B))
      → append_sink (renewed s) (all_renewed rest) ≡ all_renewed (append_sink s rest)
  append_sink-renewed none rest = refl
  append_sink-renewed (some s) none = refl
  append_sink-renewed (some s) (some rest) = refl

  if-renewed :
      (b : Bool) (s : Option B) (rest : Option (List B))
      → (if b then append_sink (renewed s) (all_renewed rest) else all_renewed rest)
        ≡ all_renewed (if b then append_sink s rest else rest)
  if-renewed true s rest = append_sink-renewed s rest
  if-renewed false s rest = refl

  new_sinks-renewed :
      (st : Start B) (c : LoggerConfig B) (extra : List B)
      → new_sinks first (start_for st) (config_for c) (map renew extra)
        ≡ all_renewed (new_sinks second st c extra)
  unfolding new_sinks
  new_sinks-renewed st c extra =
      ap
        (λ rest.
          if c.enable_file_sink
          then append_sink (renewed (st.file_sink c.base_path c.max_file_size c.write_batch_size))
              rest
          else rest)
        (if-renewed c.enable_console_sink (st.console_sink c.console_stream c.write_batch_size)
          (some extra))
      ∙ if-renewed c.enable_file_sink (st.file_sink c.base_path c.max_file_size c.write_batch_size)
          _

  init_sinks-InitAlike :
      (st : Start B) (c : LoggerConfig B) (l : Logger A) (r : List A) (s : List B)
      (sinks : Option (List B))
      → InitAlike
          (init_sinks first
            (start_for st)
            (config_for c)
            (record l { worker = absent; sinks = [] })
            r
            (all_renewed sinks))
          (init_sinks second st c
            (record (with_sinks l []) { worker = absent; sinks = [] })
            s
            sinks)
  unfolding init_sinks launch configured
  init_sinks-InitAlike st c l r s none = ([], s, refl, refl)
  init_sinks-InitAlike st c l r s (some sinks) = go st.starts_thread
    where
      go :
          (starts : Bool)
          → InitAlike
              (launch first starts
                (configured first
                  (record l { worker = absent; sinks = [] })
                  (config_for c)
                  (map renew sinks))
                r)
              (launch second starts
                (configured second
                  (record (with_sinks l []) { worker = absent; sinks = [] })
                  c
                  sinks)
                s)
      go true = (sinks, s, refl, refl)
      go false = ([], s ++ close_sinks second sinks, refl, refl)

  init_checked-InitAlike :
      (st : Start B) (c : LoggerConfig B) (l : Logger A) (ts extra : List B) (w : Thread)
      → InitAlike
          (init_checked first (start_for st) (config_for c) l (map renew extra) w)
          (init_checked second st c (with_sinks l ts) extra w)
  unfolding init_checked init_joined
  init_checked-InitAlike st c l ts extra looping = refl
  init_checked-InitAlike st c l ts extra absent =
      rw (new_sinks-renewed st c extra)
        (init_sinks-InitAlike st c l _ _ (new_sinks second st c extra))
  init_checked-InitAlike st c l ts extra finished =
      rw (new_sinks-renewed st c extra)
        (init_sinks-InitAlike st c l _ _ (new_sinks second st c extra))

  -- Whatever `init` answers over the second kind of sinks, it answers over the first kind too, with the
  -- corresponding constructors and user's sinks, in the same state of the logger.
  pub init-InitAlike :
      (st : Start B) (c : LoggerConfig B) (l : Logger A) (ts : List B)
      → InitAlike (init first (start_for st) (config_for c) l) (init second st c (with_sinks l ts))
  unfolding init
  init-InitAlike st c l ts = elim (Bool-cases (rejects l.running c)) [
    | inl bad ↦ rw (rejects-config_for l.running c, bad) refl
    | inr fine ↦ elim (Option-cases (non_null c.additional_sinks)) [
      | inl e ↦
          rw (rejects-config_for l.running c, fine, non_null-renewed c.additional_sinks, e, init)
            refl
      | inr (extra, e) ↦
          rw (rejects-config_for l.running c, fine, non_null-renewed c.additional_sinks, e, init)
            (init_checked-InitAlike st c l ts extra l.worker)
    ]
  ]
