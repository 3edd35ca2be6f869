-- ===== src/Logger/Threads/Refines/Steps.antt =====
-- Each step of the logger's threads is one of the log, or none.
use mathlib.Core.Path.{subst}
use mathlib.Core.List.{append_cancel_right}
use cpp_logger.Base.{ℕ, ◌≡◌, refl, sym, ap, ◌∙◌, Bool, true, false, List, ◌++◌, map, append-nil}
use cpp_logger.Queue.{Push, Pop}
use cpp_logger.Queue.Handed.{handed_values, handed_values-append, handed_values-handed, Missed}
use cpp_logger.Queue.History.{handed, after_push, batched}
use cpp_logger.Queue.Taken.{Took}
use cpp_logger.Logger.{LogRecord, looping}
use cpp_logger.Logger.Spec.{Does}
use cpp_logger.Logger.Threads.{ready, System, trace_of, ends_pop, phase_after}
use cpp_logger.Logger.Threads.Conserved.{in_hands}
use cpp_logger.Logger.Threads.Refines.{log_of, IsDone, log_after, taken-Does}

module _ {S : Type 0} where
  -- The log goes on from `s`, `done` being written, to `t`.
  abbrev pub Goes : System S → List LogRecord → System S → List LogRecord → Type 0
  Goes s done t after = Does (log_of s done) (log_of t after)

  pub pushes-Goes :
      (s : System S) (r : LogRecord) (p : Push LogRecord) (t : System S)
      (done after : List LogRecord)
      → (step_log : log_of t after
          ≡ log_after s (after_push (trace_of s) r p) (in_hands s.logger.worker s.phase) after)
      → after ≡ done
      → Does
          (log_of s done)
          (log_after s (after_push (trace_of s) r p) (in_hands s.logger.worker s.phase) done)
      → Goes s done t after
  pushes-Goes s r p t done after e same d =
      subst (Does (log_of s done))
        (sym (
          e
          ∙ ap (log_after s (after_push (trace_of s) r p) (in_hands s.logger.worker s.phase)) same))
        d

  -- After a pop what was done is still what was done.
  took_done :
      (s : System S) (n : ℕ) (timed_out : Bool) (size : ℕ)
      (p : Pop LogRecord (List LogRecord × Bool)) (done after : List LogRecord)
      → s.logger.worker ≡ looping
      → s.phase ≡ ready n
      → Missed s.logger.queue size timed_out p
      → IsDone s done
      → handed_values (batched (trace_of s) p).left ≡ after ++ in_hands looping (phase_after n p)
      → after ≡ done
  unfolding batched
  took_done s n timed_out size (Pop.returns (xs, true) q x) done after w e miss d f =
      let all : handed_values s.left ≡ done =
        d ∙ ap (λ ys. done ++ ys) (rw (w, e) refl) ∙ append-nil done in
      append_cancel_right after done xs (
        sym f
        ∙ handed_values-append s.left (map handed xs)
        ∙ ap (λ ys. handed_values s.left ++ ys) (handed_values-handed xs)
        ∙ ap (λ ys. ys ++ xs) all)
  took_done s n timed_out size (Pop.returns (xs, false) q x) done after w e miss d f =
      let all : handed_values s.left ≡ done =
        d ∙ ap (λ ys. done ++ ys) (rw (w, e) refl) ∙ append-nil done in
      sym (append-nil after)
      ∙ sym f
      ∙ ap (λ ys. handed_values (s.left ++ map handed ys)) miss.0
      ∙ ap handed_values (append-nil s.left)
      ∙ all
  took_done s n timed_out size Pop.waits done after w e miss d f =
      let all : handed_values s.left ≡ done =
        d ∙ ap (λ ys. done ++ ys) (rw (w, e) refl) ∙ append-nil done in
      sym (append-nil after) ∙ sym f ∙ all

  pub pops-Goes :
      (s : System S) (n : ℕ) (timed_out : Bool) (size : ℕ)
      (p : Pop LogRecord (List LogRecord × Bool)) (done after : List LogRecord)
      → s.logger.worker ≡ looping
      → s.phase ≡ ready n
      → Took s.logger.queue size p
      → Missed s.logger.queue size timed_out p
      → IsDone s done
      → IsDone (ends_pop s n p) after
      → Goes s done (ends_pop s n p) after
  unfolding ends_pop
  pops-Goes s n timed_out size p done after w e took miss d f =
      let same : after ≡ done =
        took_done s n timed_out size p done after w e miss d
          (f ∙ ap (λ x. after ++ in_hands x (phase_after n p)) w) in
      subst (Does (log_of s done))
        (ap (log_after s (batched (trace_of s) p) (in_hands looping (phase_after n p))) (sym same)
          ∙ ap (λ x. log_after s (batched (trace_of s) p) (in_hands x (phase_after n p)) after)
              (sym w))
        (taken-Does s size timed_out p n done took miss w e)
