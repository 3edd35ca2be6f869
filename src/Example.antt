-- ===== src/Example.antt =====
-- examples/example.cpp: the configuration of its logger, the messages of its threads, and how it ends.
use cpp_logger.Base.{
  ℕ, zero, suc, ◌≡◌, refl, Bool, true, false, List, [], ◌∷◌, ◌++◌, ltb, if◌then◌else◌,
}
use cpp_logger.Base.Bytes.{codes}
use cpp_logger.Base.Decimal.{decimal}
use cpp_logger.Queue.{block}
use cpp_logger.Sink.{Bytes, stdout}
use cpp_logger.Logger.{
  LogLevel, debug, info, warn, error, fatal, LoggerConfig, simple_config, default_max_file_size,
}
use cpp_logger.Logger.Config.{rejects}

-- The members that `main` sets; the others keep their initialisers.
unfoldable pub config : {S : Type 0} → LoggerConfig S
unfolding simple_config
config =
    record (simple_config (record { parent_path = codes "logs"; filename = codes "app" }) debug
      default_max_file_size) {
        queue_capacity = 8192;
        overflow_policy = block;
        enable_console_sink = false;
        console_stream = stdout;
      }

abbrev pub thread_count : ℕ
thread_count = 5

abbrev pub messages_per_thread : ℕ
messages_per_thread = 10_000

unfoldable pub message : (thread_index message_index : ℕ) → Bytes
message thread_index message_index =
    codes "thread " ++ (decimal thread_index ++ (codes " writes log " ++ decimal message_index))

-- The messages of a thread from one on, as many as `left` says.
unfoldable pub messages : (thread_index message_index left : ℕ) → List Bytes
unfolding message
messages thread_index message_index zero = []
messages thread_index message_index (suc left) =
    message thread_index message_index ∷ messages thread_index (suc message_index) left

-- The threads that were made, from the first on.
unfoldable pub threads : (thread_index left : ℕ) → List (List Bytes)
unfolding messages
threads thread_index zero = []
threads thread_index (suc left) =
    messages thread_index 0 messages_per_thread ∷ threads (suc thread_index) left

-- What `main` returns, what it logs itself, and what its threads log.
pub record Exit : Type 0 where
  pub code : ℕ
  pub logged : List (LogLevel × Bytes)
  pub of_threads : List (List Bytes)

-- `main`; `made` is how many threads can be made.
unfoldable pub main : (starts : Bool) → (made : ℕ) → Exit
unfolding threads
main false made = record { code = 1; logged = []; of_threads = [] }
main true made =
    let started : LogLevel × Bytes = (info, codes "async logger started") in
    if ltb made thread_count
    then record { code = 1; logged = started ∷ []; of_threads = threads 0 made }
    else record {
      code = 0;
      logged =
          started
          ∷ (warn, codes "all worker threads started, waiting for them to finish")
          ∷ (warn, codes "all worker threads finished")
          ∷ (error, codes "this is a test error message")
          ∷ (fatal, codes "this is a test fatal message")
          ∷ [];
      of_threads = threads 0 thread_count;
    }

-- The configuration passes the checks of `init` on a logger that does not run.
config-rejects : (S : Type 0) → rejects {S = S} false config ≡ false
unfolding config simple_config rejects
config-rejects S = refl
