-- ===== src/Logger/Startup.antt =====
-- `init` with the built-in sinks of src/LogSink.cpp.
pub mod Alike
pub mod Examples
use mathlib.Core.Path.{subst}
use cpp_logger.Base.{
  ℕ, ◌≡◌, inl, inr, refl, sym, ap, ◌∙◌, Bool, true, false, Option, none, some, List, [], ◌∷◌,
  Bool-cases, Option-cases, if◌then◌else◌,
}
use cpp_logger.Sink.Disk.{Disk}
use cpp_logger.Sink.Console
use cpp_logger.Sink.BuiltIn.{BuiltIn, Devices, built_in, make_file_sink, make_console}
use cpp_logger.Sink.BuiltIn.Ready.{IsReady, IsWorking}
use cpp_logger.Sink.BuiltIn.Made.{make_file_sink-IsReady, make_console-IsReady}
use cpp_logger.Sink.File.Success.{IsHealthy}
use cpp_logger.Logger.{LoggerConfig, Logger}
use cpp_logger.Logger.Config.{non_null}
use cpp_logger.Logger.Cycles.{Begins, init-Begins}
use cpp_logger.Logger.Lifecycle.{Start, started, append_sink, new_sinks, init}
use cpp_logger.Logger.Worker.Printing.{AllReady}

-- What `init` finds: the files, the number of questions asked before, the console streams, and whether
-- a thread can be started. (`reservePending` is all that the batch size is for.)
abbrev pub devices_start : Devices → Disk → ℕ → (cout cerr : Console.Output) → Bool → Start BuiltIn
devices_start dev disk clock cout cerr starts = record {
  file_sink = λ path max_file_size batch_size. make_file_sink dev disk clock path max_file_size;
  console_sink = λ target batch_size. make_console cout cerr target;
  starts_thread = starts;
}

append_sink-AllReady :
    (s : Option BuiltIn) (rest : Option (List BuiltIn)) (ss : List BuiltIn)
    → ((t : BuiltIn) → s ≡ some t → IsReady t)
    → ((ts : List BuiltIn) → rest ≡ some ts → AllReady ts)
    → append_sink s rest ≡ some ss
    → AllReady ss
append_sink-AllReady none rest ss h k e = cc
append_sink-AllReady (some t) none ss h k e = cc
append_sink-AllReady (some t) (some ts) ss h k e =
    let f : (t ∷ ts) ≡ ss = cc in subst AllReady f (h t refl, k ts refl)

chosen-AllReady :
    (b : Bool) (s : Option BuiltIn) (rest : Option (List BuiltIn)) (ss : List BuiltIn)
    → ((t : BuiltIn) → s ≡ some t → IsReady t)
    → ((ts : List BuiltIn) → rest ≡ some ts → AllReady ts)
    → (if b then append_sink s rest else rest) ≡ some ss
    → AllReady ss
chosen-AllReady true s rest ss h k e = append_sink-AllReady s rest ss h k e
chosen-AllReady false s rest ss h k e = k ss e

-- The sinks of a cycle that `init` has started without sinks of the user's, on files that work and
-- with good console streams, are ready: nothing is pending in them, their streams are good, and the
-- file sink's stream is open on the file of its name, whose size it knows.
pub init-AllReady :
    (dev : Devices) (disk : Disk) (clock : ℕ) (cout cerr : Console.Output) (starts : Bool)
    (c : LoggerConfig BuiltIn) (l m : Logger BuiltIn) (released : List BuiltIn)
    → IsHealthy dev.files
    → cout.good ≡ true
    → cerr.good ≡ true
    → c.additional_sinks ≡ []
    → init (built_in dev) (devices_start dev disk clock cout cerr starts) c l ≡ started m released
    → AllReady m.sinks
unfolding new_sinks non_null
init-AllReady dev disk clock cout cerr starts c l m released healthy h k only e =
    let st : Start BuiltIn = devices_start dev disk clock cout cerr starts in
    let b : Begins (built_in dev) st c l m released =
      init-Begins (built_in dev) st c l m released e in
    let (extra, f, made) = b.sinks in
    let user : some [] ≡ some extra = ap non_null (sym only) ∙ f in
    let no_more : (ts : List BuiltIn) → some extra ≡ some ts → AllReady ts =
      λ ts g. let same : [] ≡ ts = cc in subst AllReady same tt in
    chosen-AllReady c.enable_file_sink _ _ m.sinks
      (λ t g. (make_file_sink-IsReady dev disk clock c.base_path c.max_file_size t healthy g).0)
      (λ ts.
        chosen-AllReady c.enable_console_sink _ _ ts
          (λ t. make_console-IsReady cout cerr c.console_stream t h k) no_more)
      made
