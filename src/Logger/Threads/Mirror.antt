-- ===== src/Logger/Threads/Mirror.antt =====
-- The logger's threads over the built-in sinks make the steps that they make over ledgers.
use mathlib.Core.Path.{subst}
use cpp_logger.Base.{◌≡◌, refl, sym, ap, ◌∙◌, false, List, []}
use cpp_logger.Sink.BuiltIn.{BuiltIn, Devices, built_in, printed}
use cpp_logger.Sink.BuiltIn.Ready.{IsWorking}
use cpp_logger.Logger.{Logger, Thread, absent, looping, finished, new_logger}
use cpp_logger.Logger.Format.{Locale}
use cpp_logger.Logger.Lifecycle.{
  stopped, stop_request, stop_join, stop_joined, set_level, log_begin, log_end, close_sinks, Init,
  refused, started, failed,
}
use cpp_logger.Logger.Startup.Alike.{start_for, config_for, InitAlike, init-InitAlike}
use cpp_logger.Logger.Worker.{Round, goes_on, leaves, pops_from, format_batch}
use cpp_logger.Logger.Worker.Printing.{
  Ledger, ledger, Agrees, opened, AllReady, opened-AllRelated, ledger-Simulates,
}
use cpp_logger.Logger.Worker.Simulation.{with_sinks, AllRelated, RoundAlike}
use cpp_logger.Logger.Worker.Simulation.Loop.{batch_formatted-RoundAlike, idle-RoundAlike}
use cpp_logger.Logger.Threads.{
  Phase, ready, System, ends_log, ends_pop, ends_round, ends_init, Step, begins, pushes, resumes,
  pops, works, idles, levels, stops, joins, inits, fails, initial, Reach, start, later,
}

-- The same system over other sinks, with what `init` had made of them.
abbrev pub lifted : System Ledger → List BuiltIn → List BuiltIn → System BuiltIn
lifted s ts gs = record {
  logger = with_sinks s.logger ts;
  phase = s.phase;
  producers = s.producers;
  stopping = s.stopping;
  accepted = s.accepted;
  left = s.left;
  refused = s.refused;
  given = gs;
}

-- The ledger of a sink whose printing begins.
abbrev account : BuiltIn → Ledger
account s = (printed s, [])

module _ (dev : Devices) (working : IsWorking dev) (locale : Locale) where
  -- Ledgers that the built-in sinks agree with.
  pub record Mirrors (t : System BuiltIn) : Type 0 where
    pub image : System Ledger
    pub reached : Reach ledger locale image
    pub sinks : List BuiltIn
    pub same : t ≡ lifted image sinks t.given
    pub related : AllRelated Agrees image.logger.sinks sinks
    pub given : image.given ≡ opened t.given

  mirrored :
      (s : System Ledger) (ts gs : List BuiltIn) (t : System BuiltIn)
      → Reach ledger locale s
      → t ≡ lifted s ts gs
      → AllRelated Agrees s.logger.sinks ts
      → s.given ≡ opened gs
      → Mirrors t
  mirrored s ts gs t reach f rel given =
      subst Mirrors (sym f) (record {
        image = s;
        reached = reach;
        sinks = ts;
        same = refl;
        related = rel;
        given = given;
      })

  -- The sinks after a round, which leaves what `init` had made.
  RoundMirrors :
      (s : System Ledger) (gs : List BuiltIn) (x : Round Ledger) (y : Round BuiltIn)
      (ts : List BuiltIn)
      → RoundAlike Agrees x y
      → AllRelated Agrees s.logger.sinks ts
      → (us : List BuiltIn) × (ends_round (lifted s ts gs) y ≡ lifted (ends_round s x) us gs)
        × AllRelated Agrees (ends_round s x).logger.sinks us
        × ((ends_round s x).given ≡ s.given)
  RoundMirrors s gs (goes_on m n) y ts (us, e, rs) r = (us, rw e refl, rs, refl)
  RoundMirrors s gs (leaves m) y ts (us, e, rs) r = (us, rw e refl, rs, refl)
  RoundMirrors s gs Round.waits y ts e r = (ts, rw e refl, r, refl)

  joined-Mirrors :
      (l : Logger Ledger) (ts : List BuiltIn) (w : Thread) (m : Logger BuiltIn)
      (released : List BuiltIn)
      → stop_joined (built_in dev) (with_sinks l ts) w ≡ stopped m released
      → (stop_joined ledger l w
          ≡ stopped (record l { worker = absent; sinks = [] }) (close_sinks ledger l.sinks))
        × (m ≡ with_sinks (record l { worker = absent; sinks = [] }) [])
  unfolding stop_joined
  joined-Mirrors l ts looping m released e = cc
  joined-Mirrors l ts absent m released e = (refl, cc)
  joined-Mirrors l ts finished m released e = (refl, cc)

  started_for :
      (x : Init Ledger) (m : Logger BuiltIn) (released : List BuiltIn)
      → InitAlike ledger (built_in dev) account x (started m released)
      → (k : Logger Ledger) × (r : List Ledger) × (ms : List BuiltIn) × (x ≡ started k r)
        × (m ≡ with_sinks k ms)
        × (k.sinks ≡ opened ms)
  started_for (started k r) m released (ms, s, e, f) = (k, r, ms, refl, cc, f)
  started_for (failed k r) m released (ms, s, e, f) = cc
  started_for refused m released e = cc
  started_for Init.waits m released e = cc

  failed_for :
      (x : Init Ledger) (m : Logger BuiltIn) (released : List BuiltIn)
      → InitAlike ledger (built_in dev) account x (failed m released)
      → (k : Logger Ledger) × (r : List Ledger) × (ms : List BuiltIn) × (x ≡ failed k r)
        × (m ≡ with_sinks k ms)
        × (k.sinks ≡ opened ms)
  failed_for (failed k r) m released (ms, s, e, f) = (k, r, ms, refl, cc, f)
  failed_for (started k r) m released (ms, s, e, f) = cc
  failed_for refused m released e = cc
  failed_for Init.waits m released e = cc

  -- The state after `init`.
  ends_init-Mirrors :
      (s : System Ledger) (ts gs : List BuiltIn) (t : System BuiltIn) (p : Phase)
      (k : Logger Ledger) (m : Logger BuiltIn) (ms : List BuiltIn)
      → Reach ledger locale (ends_init s k p)
      → t ≡ ends_init (lifted s ts gs) m p
      → m ≡ with_sinks k ms
      → k.sinks ≡ opened ms
      → AllReady t.given
      → Mirrors t
  unfolding ends_init
  ends_init-Mirrors s ts gs t p k m ms reach f e sinks new =
      let g : t ≡ lifted (ends_init s k p) ms ms = f ∙ ap (λ l. ends_init (lifted s ts gs) l p) e in
      let fresh : AllReady ms = subst (λ (x : System BuiltIn). AllReady x.given) g new in
      mirrored (ends_init s k p) ms ms t reach g
        (subst (λ ls. AllRelated Agrees ls ms) (sym sinks) (opened-AllRelated ms fresh)) sinks

  -- A step of the threads; `init` makes sinks that are ready.
  step-Mirrors :
      (s : System Ledger) (ts gs : List BuiltIn) (t : System BuiltIn)
      → Reach ledger locale s
      → AllRelated Agrees s.logger.sinks ts
      → s.given ≡ opened gs
      → Step (built_in dev) locale (lifted s ts gs) t
      → AllReady t.given
      → Mirrors t
  unfolding log_begin log_end ends_log ends_pop pops_from set_level stop_request stop_join
  step-Mirrors s ts gs t reach rel given (begins g r i int b f) new =
      mirrored _ ts gs t (later reach (begins g r i int b refl)) f rel given
  step-Mirrors s ts gs t reach rel given (pushes before g r after e f) new =
      mirrored _ ts gs t (later reach (pushes before g r after e refl)) f rel given
  step-Mirrors s ts gs t reach rel given (resumes before g r after e f) new =
      mirrored _ ts gs t (later reach (resumes before g r after e refl)) f rel given
  step-Mirrors s ts gs t reach rel given (pops n timed_out w p f) new =
      mirrored _ ts gs t (later reach (pops n timed_out w p refl)) f rel given
  step-Mirrors s ts gs t reach rel given (works now n batch w p f) new =
      let (us, e, rs, kept) =
        RoundMirrors s gs _ _ ts
          (batch_formatted-RoundAlike ledger (built_in dev) Agrees (ledger-Simulates dev working)
            locale now n batch s.logger ts (format_batch locale batch s.logger.cache) rel)
          rel in
      mirrored _ us gs t (later reach (works now n batch w p refl)) (f ∙ e) rs (kept ∙ given)
  step-Mirrors s ts gs t reach rel given (idles now n w p f) new =
      let (us, e, rs, kept) =
        RoundMirrors s gs _ _ ts
          (idle-RoundAlike ledger (built_in dev) Agrees (ledger-Simulates dev working) now n
            s.logger ts rel)
          rel in
      mirrored _ us gs t (later reach (idles now n w p refl)) (f ∙ e) rs (kept ∙ given)
  step-Mirrors s ts gs t reach rel given (levels level f) new =
      mirrored _ ts gs t (later reach (levels level refl)) f rel given
  step-Mirrors s ts gs t reach rel given (stops i f) new =
      mirrored _ ts gs t (later reach (stops i refl)) f rel given
  step-Mirrors s ts gs t reach rel given (joins m released i b f) new =
      let (e, k) = joined-Mirrors s.logger ts s.logger.worker m released b in
      mirrored _ [] gs t (later reach (joins _ (close_sinks ledger s.logger.sinks) i e refl))
        (f ∙ ap (λ l. record (lifted s ts gs) { logger = l; stopping = false }) k) tt given
  step-Mirrors s ts gs t reach rel given (inits st c m released n i b f) new =
      let (k, r, ms, x, e, sinks) = started_for _ m released (
        subst (InitAlike ledger (built_in dev) account _) b
          (init-InitAlike ledger (built_in dev) account st c s.logger ts)) in
      ends_init-Mirrors s ts gs t (ready n) k m ms
        (later reach (
          inits (start_for ledger (built_in dev) account st)
            (config_for ledger (built_in dev) account c) k r n i x refl))
        f e sinks new
  step-Mirrors s ts gs t reach rel given (fails st c m released i b f) new =
      let (k, r, ms, x, e, sinks) = failed_for _ m released (
        subst (InitAlike ledger (built_in dev) account _) b
          (init-InitAlike ledger (built_in dev) account st c s.logger ts)) in
      ends_init-Mirrors s ts gs t s.phase k m ms
        (later reach (
          fails (start_for ledger (built_in dev) account st)
            (config_for ledger (built_in dev) account c) k r i x refl))
        f e sinks new

  -- The states of the threads in which every `init` so far has made sinks that are ready.
  pub data ReadyReach : System BuiltIn → Type 0 where
    origin : ReadyReach (initial (built_in dev) locale)
    onward :
        {s t : System BuiltIn}
        → ReadyReach s
        → Step (built_in dev) locale s t
        → AllReady t.given
        → ReadyReach t

  pub ReadyReach-Mirrors : {t : System BuiltIn} → ReadyReach t → Mirrors t
  unfolding new_logger
  ReadyReach-Mirrors origin = record {
    image = initial ledger locale;
    reached = start;
    sinks = [];
    same = refl;
    related = tt;
    given = refl;
  }
  ReadyReach-Mirrors (onward {s} {t} r st new) =
      let h : Mirrors s = ReadyReach-Mirrors r in
      step-Mirrors h.image h.sinks s.given t h.reached h.related h.given
        (subst (λ x. Step (built_in dev) locale x t) h.same st) new
