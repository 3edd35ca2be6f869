-- ===== src/Benchmark/Producers/Reached.antt =====
-- What a group of producers can reach keeps the invariant.
use mathlib.Core.Path.{subst}
use cpp_logger.Base.{
  ℕ, suc, ◌≤◌, ◌≡◌, refl, sym, ap, ◌∙◌, Bool, true, false, Option, none, some, List, [], ◌∷◌, ◌++◌,
  arith, length, length-append, ltb, ◌==◌, if◌then◌else◌,
}
use cpp_logger.Base.Outcome.{Failure}
use cpp_logger.Benchmark.Producers.{
  Worker, Result, timing, launch_threw, failure_thrown, Main, launching, launch_failed, at_ready,
  at_completion, checking, returned, failing, joining, over, ProducerGroup, new_group, main_turn,
  checked, all_ended, Step, works, leads, Reach, start, later, preparing,
}
use cpp_logger.Benchmark.Producers.Places.{arrived, prepared, completed, GoesOn}
use cpp_logger.Benchmark.Producers.Counts.{
  arrived_of, prepared_of, completed_of, sum_of-append, AllFit, GoesOn-AllFit, AllFit-append,
}
use cpp_logger.Benchmark.Producers.Turns.{worker_turn-Turned}
use cpp_logger.Benchmark.Producers.Invariant.{AllDone, Ended, AtPlace, Inv}
use cpp_logger.Benchmark.Producers.Worked.{same_flags, works-Inv}

-- A turn of the thread that leads.
abbrev OptionInv : Option ProducerGroup → Type 0
OptionInv none = Unit
OptionInv (some t) = Inv t

-- What the leader does in either case.
cases :
    (t u : Option ProducerGroup) (flag : Bool)
    → (flag ≡ true → OptionInv t)
    → (flag ≡ false → OptionInv u)
    → OptionInv (if flag then t else u)
cases t u true h k = h refl
cases t u false h k = k refl

flags-Inv :
    (g t : ProducerGroup)
    → Inv g
    → t.workers ≡ g.workers
    → t.ready_workers ≡ g.ready_workers
    → t.prepared ≡ g.prepared
    → t.completed_workers ≡ g.completed_workers
    → t.thread_count ≡ g.thread_count
    → GoesOn g t
    → AtPlace t t.main
    → Inv t
flags-Inv g t i w r b d n k p = record {
  prepares = b ∙ i.prepares ∙ ap prepared_of (sym w);
  ready = r ∙ i.ready ∙ ap arrived_of (sym w);
  done = d ∙ i.done ∙ ap completed_of (sym w);
  fit = subst (AllFit t) (sym w) (GoesOn-AllFit g t g.workers k i.fit);
  few = omega (arith, i.few, n, ap (λ (ws : List Worker). length ws) w);
  at_place = p;
}

eq_of : (a b : ℕ) → (a == b) ≡ true → a ≡ b
eq_of a b h = ground arith

lt_of : (a b : ℕ) → ltb a b ≡ true → suc a ≤ b
lt_of a b h = ground arith

launch-Inv :
    (g : ProducerGroup)
    → Inv g
    → AtPlace g launching
    → g.main ≡ launching
    → suc (length g.workers) ≤ g.thread_count
    → Inv (record g { workers = g.workers ++ (record { place = preparing; sent = 0 } ∷ []) })
launch-Inv g i p m l =
    let new : Worker = record { place = preparing; sent = 0 } in
    let t : ProducerGroup = record g { workers = g.workers ++ (new ∷ []) } in
    record {
      ready = omega (arith, i.ready, sum_of-append (λ w. arrived w.place) g.workers (new ∷ []));
      prepares =
          omega (arith, i.prepares, sum_of-append (λ w. prepared w.place) g.workers (new ∷ []));
      done = omega (arith, i.done, sum_of-append (λ w. completed w.place) g.workers (new ∷ []));
      fit =
          AllFit-append t g.workers (new ∷ [])
            (GoesOn-AllFit g t g.workers (same_flags g t refl refl (λ s. s) (λ r. r)) i.fit)
            (refl, tt);
      few = omega (arith, l, length-append g.workers (new ∷ []));
      at_place = subst (AtPlace t) (sym m) p;
    }

ge_of : (a b : ℕ) → ltb a b ≡ false → b ≤ a
ge_of a b h = ground arith

failure-Inv :
    (g : ProducerGroup) (o : Option Failure)
    → Inv g
    → AllDone g o
    → Inv (record g { main = checked o })
failure-Inv g none i p =
    flags-Inv g (record g { main = returned }) i refl refl refl refl refl
      (same_flags g _ refl refl (λ s. s) (λ r. r)) p
failure-Inv g (some e) i p =
    flags-Inv g (record g { main = failing e }) i refl refl refl refl refl
      (same_flags g _ refl refl (λ s. s) (λ r. r)) p

over_of :
    (g : ProducerGroup) (r : Result)
    → AtPlace g (joining r)
    → AtPlace (record g { main = over r }) (over r)
over_of g timing p = p
over_of g launch_threw p = p
over_of g (failure_thrown e) p = p

release-Inv :
    (g : ProducerGroup) (r : Result)
    → Inv g
    → Ended (record g { release_workers = true; main = joining r }) r
    → Inv (record g { release_workers = true; main = joining r })
release-Inv g r i p =
    flags-Inv g (record g { release_workers = true; main = joining r }) i refl refl refl refl refl
      (same_flags g _ refl refl (λ s. s) (λ q. refl)) (p, refl)

main_turn-Inv :
    (launches : Bool) (g : ProducerGroup) (m : Main)
    → g.main ≡ m
    → Inv g
    → AtPlace g m
    → OptionInv (main_turn launches g m)
unfolding main_turn
main_turn-Inv launches g launching e i p =
    cases _ _ (ltb (length g.workers) g.thread_count)
      (λ l.
        cases _ _ launches (λ b. launch-Inv g i p e (lt_of (length g.workers) g.thread_count l))
          (λ b.
            flags-Inv g (record g { start_workers = true; main = launch_failed }) i refl refl refl
              refl refl (same_flags g _ refl refl (λ s. refl) (λ r. r)) refl))
      (λ l.
        flags-Inv g (record g { main = at_ready }) i refl refl refl refl refl
          (same_flags g _ refl refl (λ s. s) (λ r. r))
          (p, omega (arith, i.few, ge_of (length g.workers) g.thread_count l)))
main_turn-Inv launches g launch_failed e i p = release-Inv g launch_threw i p
main_turn-Inv launches g at_ready e i p =
    cases _ _ (g.ready_workers == g.thread_count)
      (λ h.
        flags-Inv g (record g { start_workers = true; main = at_completion }) i refl refl refl refl
          refl (same_flags g _ refl refl (λ s. refl) (λ r. r))
          (refl, p.1, eq_of g.ready_workers g.thread_count h))
      (λ h. tt)
main_turn-Inv launches g at_completion e i p =
    cases _ _ (g.completed_workers == g.thread_count)
      (λ h.
        flags-Inv g (record g { main = checking }) i refl refl refl refl refl
          (same_flags g _ refl refl (λ s. s) (λ r. r))
          (p, eq_of g.completed_workers g.thread_count h, refl))
      (λ h. tt)
main_turn-Inv launches g checking e i p = failure-Inv g g.worker_failure i p
main_turn-Inv launches g returned e i p = release-Inv g timing i p
main_turn-Inv launches g (failing x) e i p = release-Inv g (failure_thrown x) i p
main_turn-Inv launches g (joining r) e i p =
    cases _ _ (all_ended g.workers)
      (λ h.
        flags-Inv g (record g { main = over r }) i refl refl refl refl refl
          (same_flags g _ refl refl (λ s. s) (λ q. q)) (over_of g r p))
      (λ h. tt)
main_turn-Inv launches g (over r) e i p = tt

step-Inv : {g t : ProducerGroup} → Inv g → Step g t → Inv t
step-Inv {g} i (works before w after a u h e f k) =
    subst Inv (sym k)
      (works-Inv g before w after u h i e (worker_turn-Turned a g h w.sent w.place u f))
step-Inv {g} i (leads launches e) =
    subst OptionInv e (main_turn-Inv launches g g.main refl i i.at_place)

pub Reach-Inv : {threads messages n : ℕ} {g : ProducerGroup} → Reach threads messages n g → Inv g
unfolding new_group
Reach-Inv start = record {
  ready = refl;
  prepares = refl;
  done = refl;
  fit = tt;
  few = omega arith;
  at_place = refl;
}
Reach-Inv (later r s) = step-Inv (Reach-Inv r) s
