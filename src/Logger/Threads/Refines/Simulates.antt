-- ===== src/Logger/Threads/Refines/Simulates.antt =====
-- The threads of the logger, over sinks that never throw, implement the log of Logger/Spec.antt.
use mathlib.Core.Path.{subst}
use cpp_logger.Base.{
  ℕ, ◌<◌, ◌≡◌, ◌≢◌, inl, inr, refl, sym, ap, ◌∙◌, Bool, true, false, ◌&&◌, List, [], ◌∷◌, ◌++◌,
  append-nil, Bool-cases, word_mod, if◌then◌else◌,
}
use cpp_logger.Queue.{Push, push, push_waiting, close}
use cpp_logger.Queue.Handed.{handed_values, after_push-handed, pop_batch_for-Missed}
use cpp_logger.Queue.History
use cpp_logger.Queue.History.{handed, step, after_push, batched}
use cpp_logger.Queue.Outcomes.{push-Answers, push_waiting-Answers}
use cpp_logger.Queue.Taken.{pop_batch_for-Took}
use cpp_logger.Sink.{LogSink, Bytes}
use cpp_logger.Logger.{LogRecord, Logger, absent, looping, finished}
use cpp_logger.Logger.Config.{is_periodic}
use cpp_logger.Logger.Cycles.Stops.{StopAnswers, stop_joined-Answers}
use cpp_logger.Logger.Format.{Locale}
use cpp_logger.Logger.Lifecycle.{log_end, set_level, stop_request, stop_join, stopped}
use cpp_logger.Logger.Spec.{Does, nothing, writes, closes, Log-eq}
use cpp_logger.Logger.Worker.{Readings, Round, goes_on, leaves, batch_formatted, format_batch, idle}
use cpp_logger.Logger.Worker.Gains.{Reliable, Gains}
use cpp_logger.Logger.Worker.Rounds.{texts, batch_formatted-Served, idle-Idles}
use cpp_logger.Logger.Threads.{
  ready, holds, missed, System, trace_of, ends_log, ends_pop, ends_round, Step, begins, pushes,
  resumes, pops, works, idles, levels, stops, joins, inits, fails, Reach, later, begun, left_behind,
}
use cpp_logger.Logger.Threads.Conserved.{in_hands, Conserved, Reach-Conserved}
use cpp_logger.Logger.Threads.Invariant.{Inv, at_phase}
use cpp_logger.Logger.Threads.Order.{SameCycle}
use cpp_logger.Logger.Threads.Preserved.{Reach-Inv}
use cpp_logger.Logger.Threads.Preserved.Turns.{printable_hand}
use cpp_logger.Logger.Threads.Refines.{log_of, IsDone, IsDone-same, pushed-Does}
use cpp_logger.Logger.Threads.Steps.{pops_from-eq}
use cpp_logger.Logger.Threads.Refines.Steps.{Goes, pushes-Goes, pops-Goes}

module _ {S : Type 0} (sink : LogSink S) (received : S → List Bytes) (good : Reliable sink received)
    (locale : Locale) (hashes : (id : ℕ) → locale.thread_hash id < word_mod) where
  works-Goes :
      (s : System S) (now : Readings) (n : ℕ) (batch done after : List LogRecord)
      → Inv received locale s
      → s.logger.worker ≡ looping
      → s.phase ≡ holds n batch
      → IsDone s done
      → let t = ends_round s (
          batch_formatted sink locale now n batch s.logger
            (format_batch locale batch s.logger.cache)) in
        IsDone t after → Goes s done t after
  works-Goes s now n batch done after h w p d =
      let k = at_phase received locale s (holds n batch) h w p in
      let (c, ts, m, e, g, fresh) =
        batch_formatted-Served sink received good locale now n batch s.logger
          (printable_hand sink received good locale hashes (trace_of s) s.logger.write_batch_size
            s.logger.sinks s.given batch k)
          h.fresh in
      subst (λ r. IsDone (ends_round s r) after → Goes s done (ends_round s r) after) (sym e)
        (λ f. writes (
          Log-eq _ _ refl (ap (λ x. in_hands x (ready m)) w)
            (sym (append-nil after) ∙ ap (λ x. after ++ in_hands x (ready m)) (sym w) ∙ sym f ∙ d)
            refl refl refl refl))

  idles-Goes :
      (s : System S) (now : Readings) (n : ℕ) (done after : List LogRecord)
      → s.logger.worker ≡ looping
      → s.phase ≡ missed n
      → IsDone s done
      → let t = ends_round s (idle sink now n s.logger) in IsDone t after → Goes s done t after
  idles-Goes s now n done after w p d =
      let l : Logger S = s.logger in
      let (ts, m, e, g) = idle-Idles sink received good locale now n l in
      let answer : Bool → Round S = λ b.
        if b
        then leaves (record l { sinks = ts; worker = finished })
        else goes_on (record l { sinks = ts }) m in
      let none_before : in_hands l.worker s.phase ≡ [] = rw (w, p) refl in
      elim (Bool-cases l.queue.is_closed) [
        | inl closed ↦
            subst (λ r. IsDone (ends_round s r) after → Goes s done (ends_round s r) after)
              (sym (e ∙ ap answer closed))
              (λ f.
                let t : System S = ends_round s (answer true) in
                nothing (
                  Log-eq _ _ refl (sym none_before)
                    (IsDone-same s t done after d f refl (sym none_before)) refl refl refl refl))
        | inr open_still ↦
            subst (λ r. IsDone (ends_round s r) after → Goes s done (ends_round s r) after)
              (sym (e ∙ ap answer open_still))
              (λ f.
                let t : System S = ends_round s (answer false) in
                let none_after : in_hands l.worker (ready m) ≡ [] = rw w refl in
                nothing (
                  Log-eq _ _ refl (none_after ∙ sym none_before)
                    (IsDone-same s t done after d f refl (none_after ∙ sym none_before)) refl refl
                    refl refl))
      ]

  -- A step that leaves the log.
  same-Goes :
      (s t : System S) (done after : List LogRecord)
      → IsDone s done
      → IsDone t after
      → t.left ≡ s.left
      → in_hands t.logger.worker t.phase ≡ in_hands s.logger.worker s.phase
      → (after ≡ done → log_of t done ≡ log_of s done)
      → Goes s done t after
  same-Goes s t done after d f left hand e =
      let same : after ≡ done = IsDone-same s t done after d f (ap handed_values left) hand in
      nothing (ap (log_of t) same ∙ e same)

  -- What the step makes of the state, as a goal about that state.
  abbrev Becomes : System S → (done after : List LogRecord) → System S → Type 0
  Becomes s done after t = t.logger.worker ≢ absent → IsDone t after → Goes s done t after

  step-Becomes :
      {s t : System S} (st : Step sink locale s t) (done after : List LogRecord)
      → SameCycle sink locale st
      → Inv received locale s
      → IsDone s done
      → Becomes s done after t
  unfolding log_end set_level stop_request close step ends_log stop_join
  step-Becomes {s} (begins g r i b k e) done after c h d =
      let t : System S = record s { producers = begun g r ∷ s.producers } in
      subst (Becomes s done after) (sym e)
        (λ live f. same-Goes s t done after d f refl refl (λ x. refl))
  step-Becomes {s} (pushes front g r back e k) done after c h d =
      let p : Push LogRecord = push s.logger.queue g r in
      let t : System S = ends_log s (History.pushes g r) front back (left_behind g r p) in
      subst (Becomes s done after) (sym k) (λ live f.
        pushes-Goes s r p t done after refl
          (IsDone-same s t done after d f (after_push-handed (trace_of s) r p).0 refl)
          (pushed-Does s r p done (push-Answers s.logger.queue g r)))
  step-Becomes {s} (resumes front g r back e k) done after c h d =
      let p : Push LogRecord = push_waiting s.logger.queue g r in
      let t : System S = ends_log s (History.resumes g r) front back (left_behind g r p) in
      subst (Becomes s done after) (sym k) (λ live f.
        pushes-Goes s r p t done after refl
          (IsDone-same s t done after d f (after_push-handed (trace_of s) r p).0 refl)
          (pushed-Does s r p done (push_waiting-Answers s.logger.queue g r)))
  step-Becomes {s} (pops n timed_out w p e) done after c h d =
      let size : ℕ = s.logger.write_batch_size in
      let due : Bool = is_periodic s.logger.flush_policy && timed_out in
      subst (Becomes s done after)
        (ap (ends_pop s n) (sym (pops_from-eq s.logger timed_out)) ∙ sym e)
        (λ live f.
          pops-Goes s n due size _ done after w p (pop_batch_for-Took s.logger.queue size due)
            (pop_batch_for-Missed s.logger.queue size due) d f)
  step-Becomes {s} (works now n batch w p e) done after c h d =
      subst (Becomes s done after) (sym e) (λ live. works-Goes s now n batch done after h w p d)
  step-Becomes {s} (idles now n w p e) done after c h d =
      subst (Becomes s done after) (sym e) (λ live. idles-Goes s now n done after w p d)
  step-Becomes {s} (levels level e) done after c h d =
      let t : System S = record s { logger = set_level s.logger level } in
      subst (Becomes s done after) (sym e)
        (λ live f. same-Goes s t done after d f refl refl (λ x. refl))
  step-Becomes {s} (stops i e) done after c h d =
      let t : System S = record s { logger = stop_request s.logger; stopping = true } in
      subst (Becomes s done after) (sym e) (λ live f.
        closes
          (Log-eq _ _ refl refl (IsDone-same s t done after d f refl refl) refl refl refl refl))
  step-Becomes {s} (joins m released i b e) done after c h d =
      subst (Becomes s done after) (sym e) (λ live f.
        let a : StopAnswers sink s.logger s.logger.worker (stopped m released) =
          subst (StopAnswers sink s.logger s.logger.worker) b
            (stop_joined-Answers sink s.logger s.logger.worker) in
        absurd (live (ap (λ (k : Logger S). k.worker) a.2)))
  step-Becomes (inits st c m released n i b e) done after x h d = absurd x
  step-Becomes (fails st c m released i b e) done after x h d = absurd x

  -- What the sinks have been given in a state, and that the log goes on from `s` to `t`.
  pub record Refines (s t : System S) : Type 0 where
    pub done : List LogRecord
    pub after : List LogRecord
    pub gains : Gains received (texts locale done) s.given s.logger.sinks
    pub gains_after : Gains received (texts locale after) t.given t.logger.sinks
    pub does : Does (log_of s done) (log_of t after)

  -- If no sink throws, the threads of the logger implement the log of Logger/Spec.antt: the records in
  -- the queue are those that wait, those in the worker's hands are being written, and the texts of
  -- those that are written are what every sink has been given since `init`, no more and no less. Every
  -- step that any thread can make is a step of that log, or none: it takes a record in only where
  -- there is room, gives one up only as the overflow policy says and counts it, hands records over
  -- from the front, writes what was handed over, and takes nothing in once it is closed. (Not for the
  -- steps by which `init` begins a cycle and `stop` ends it. There is a worker before and after the
  -- step, looping or finished, and hashes of threads have 64 bits.)
  pub Step-Refines :
      {s t : System S}
      → Reach sink locale s
      → (st : Step sink locale s t) → SameCycle sink locale st
      → s.logger.worker ≢ absent
      → t.logger.worker ≢ absent
      → Refines s t
  Step-Refines {s} {t} r st c live live' =
      let a : Conserved sink received good locale hashes s =
        Reach-Conserved sink received good locale hashes r live in
      let b : Conserved sink received good locale hashes t =
        Reach-Conserved sink received good locale hashes (later r st) live' in
      record {
        done = a.done;
        after = b.done;
        gains = a.gains;
        gains_after = b.gains;
        does =
            step-Becomes st a.done b.done c (Reach-Inv sink received good locale hashes r) a.split
              live' b.split;
      }
