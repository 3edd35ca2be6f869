-- ===== src/Logger/Threads/Order.antt =====
-- The order of the records in one cycle of the logger.
pub mod Sublists
pub mod Kept
use mathlib.Core.Path.{subst}
use cpp_logger.Base.{
  ◌≡◌, refl, sym, ap, ◌∙◌, Bool, List, [], ◌∷◌, ◌++◌, map, append-nil, append_assoc,
}
use cpp_logger.Queue.{Push, Pop, push, push_waiting}
use cpp_logger.Queue.History.{Trace, handed, step, after_push, pushed, batched, front}
use cpp_logger.Queue.History
use cpp_logger.Queue
use cpp_logger.Sink.{LogSink}
use cpp_logger.Logger.Format.{Locale}
use cpp_logger.Logger.Lifecycle.{log_end, set_level}
use cpp_logger.Logger.Worker.{
  Round, goes_on, leaves, pops_from, batch_formatted, format_batch, idle,
}
use cpp_logger.Logger.Threads.{
  System, trace_of, ends_log, ends_pop, ends_round, Step, begins, pushes, resumes, pops, works,
  idles, levels, stops, joins, inits, fails,
}

-- One list after another.
abbrev pub IsPrefix {ℓ} : {A : Type ℓ} → List A → List A → Type ℓ
IsPrefix {A = A} xs ys = (more : List A) × (ys ≡ xs ++ more)

module _ {ℓ} {A : Type ℓ} where
  IsPrefix-refl : (xs : List A) → IsPrefix xs xs
  IsPrefix-refl xs = ([], sym (append-nil xs))

  IsPrefix-trans : (xs ys zs : List A) → IsPrefix xs ys → IsPrefix ys zs → IsPrefix xs zs
  IsPrefix-trans xs ys zs (a, e) (b, f) = (a ++ b, f ∙ ap (λ us. us ++ b) e ∙ append_assoc xs a b)

module _ {ℓ} {A : Type ℓ} where
  -- What has been taken in and what has left is only ever added to.
  pub record Extends (t u : Trace A) : Type ℓ where
    pub accepted : IsPrefix t.accepted u.accepted
    pub left : IsPrefix t.left u.left

  after_push-Extends : (t : Trace A) (v : A) (p : Push A) → Extends t (after_push t v p)
  unfolding after_push pushed
  after_push-Extends t v (Push.returns q Queue.enqueued x) = record {
    accepted = (v ∷ [], refl);
    left = IsPrefix-refl t.left;
  }
  after_push-Extends t v (Push.returns q Queue.dropped_newest x) = record {
    accepted = IsPrefix-refl t.accepted;
    left = IsPrefix-refl t.left;
  }
  after_push-Extends t v (Push.returns q Queue.dropped_oldest x) = record {
    accepted = (v ∷ [], refl);
    left = (front t.queue.items, refl);
  }
  after_push-Extends t v (Push.returns q Queue.closed x) = record {
    accepted = IsPrefix-refl t.accepted;
    left = IsPrefix-refl t.left;
  }
  after_push-Extends t v Push.waits = record {
    accepted = IsPrefix-refl t.accepted;
    left = IsPrefix-refl t.left;
  }
  after_push-Extends t v Push.undefined = record {
    accepted = IsPrefix-refl t.accepted;
    left = IsPrefix-refl t.left;
  }

  batched-Extends : (t : Trace A) (p : Pop A (List A × Bool)) → Extends t (batched t p)
  unfolding batched
  batched-Extends t (Pop.returns (xs, b) q x) = record {
    accepted = IsPrefix-refl t.accepted;
    left = (map handed xs, refl);
  }
  batched-Extends t Pop.waits = record {
    accepted = IsPrefix-refl t.accepted;
    left = IsPrefix-refl t.left;
  }

module _ {S : Type 0} where
  -- The same cycle, further on.
  pub record Continues (s t : System S) : Type 0 where
    pub accepted : IsPrefix s.accepted t.accepted
    pub left : IsPrefix s.left t.left
    pub given : t.given ≡ s.given

  stays :
      (s t : System S)
      → t.accepted ≡ s.accepted
      → t.left ≡ s.left
      → t.given ≡ s.given
      → Continues s t
  stays s t a l g = record {
    accepted = ([], a ∙ sym (append-nil s.accepted));
    left = ([], l ∙ sym (append-nil s.left));
    given = g;
  }

  round-Continues : (s : System S) (r : Round S) → Continues s (ends_round s r)
  round-Continues s (goes_on m n) = stays s _ refl refl refl
  round-Continues s (leaves m) = stays s _ refl refl refl
  round-Continues s Round.waits = stays s _ refl refl refl

module _ {S : Type 0} (sink : LogSink S) (locale : Locale) where
  -- A step that is not the end of an `init`.
  abbrev pub SameCycle : {s t : System S} → Step sink locale s t → Type 0
  SameCycle (inits st c m released n i e f) = ⊥
  SameCycle (fails st c m released i e f) = ⊥
  SameCycle _ = Unit

  step-Continues : {s t : System S} (st : Step sink locale s t) → SameCycle st → Continues s t
  unfolding ends_log ends_pop step log_end set_level
  step-Continues {s} (begins g r i b k f) c = subst (Continues s) (sym f) (stays s _ refl refl refl)
  step-Continues {s} (pushes before g r after e f) c =
      let x = after_push-Extends (trace_of s) r (push s.logger.queue g r) in
      subst (Continues s) (sym f) (record { accepted = x.accepted; left = x.left; given = refl })
  step-Continues {s} (resumes before g r after e f) c =
      let x = after_push-Extends (trace_of s) r (push_waiting s.logger.queue g r) in
      subst (Continues s) (sym f) (record { accepted = x.accepted; left = x.left; given = refl })
  step-Continues {s} (pops n timed_out w p f) c =
      let x = batched-Extends (trace_of s) (pops_from s.logger timed_out) in
      subst (Continues s) (sym f) (record { accepted = x.accepted; left = x.left; given = refl })
  step-Continues {s} (works now n batch w p f) c = subst (Continues s) (sym f) (
      round-Continues s (
        batch_formatted sink locale now n batch s.logger
          (format_batch locale batch s.logger.cache)))
  step-Continues {s} (idles now n w p f) c =
      subst (Continues s) (sym f) (round-Continues s (idle sink now n s.logger))
  step-Continues {s} (levels level f) c = subst (Continues s) (sym f) (stays s _ refl refl refl)
  step-Continues {s} (stops i f) c = subst (Continues s) (sym f) (stays s _ refl refl refl)
  step-Continues {s} (joins m released i e f) c =
      subst (Continues s) (sym f) (stays s _ refl refl refl)
  step-Continues (inits st c m released n i e f) x = absurd x
  step-Continues (fails st c m released i e f) x = absurd x

  -- Steps of one cycle.
  pub data During (s : System S) : System S → Type 0 where
    nothing : During s s
    and_then :
        {t u : System S} → During s t → (st : Step sink locale t u) → SameCycle st → During s u

  pub During-Continues : {s t : System S} → During s t → Continues s t
  During-Continues {s} nothing = stays s s refl refl refl
  During-Continues {s} (and_then {t} {u} d st c) =
      let before : Continues s t = During-Continues d in
      let here : Continues t u = step-Continues st c in
      record {
        accepted = IsPrefix-trans s.accepted t.accepted u.accepted before.accepted here.accepted;
        left = IsPrefix-trans s.left t.left u.left before.left here.left;
        given = here.given ∙ before.given;
      }
