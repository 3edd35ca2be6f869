-- ===== src/Lib.antt =====
-- cpp_logger: an asynchronous logger. Producers push records into a bounded queue; one worker thread
-- takes them in batches, formats them and hands them to sinks.
--
-- Which file models what:
--   Queue.antt            include/BlockingQueue.h, class BlockingQueue. A member function is a function
--                         on the record of the data members: what it does from where it has the mutex
--                         to its return or to its wait. `push` is pushLocked, `push_waiting` its second
--                         half, where a woken producer goes on.
--   Queue/History.antt    sequences of such calls, with what went in and what came out.
--   Queue/Threads.antt    the same calls by any number of threads, as a step relation with the two
--                         condition variables, notifications under way and spurious wakeups.
--   Sink.antt             include/LogSink.h: the interface, a record that the worker takes as a parameter.
--   Sink/File.antt        src/LogSink.cpp, class FileSink, over the files of Sink/Disk.antt.
--   Sink/Console.antt     src/LogSink.cpp, class ConsoleSink, over the bytes that each stream was given.
--   Sink/BuiltIn.antt     the interface for either of the two, and makeFileSink, makeConsoleSink.
--   Logger.antt           include/Logger.h: LogLevel, FlushPolicy, LoggerConfig, LogRecord, Logger.
--   Logger/Config.antt    src/Logger.cpp: isValid... and the checks at the head of Logger::init.
--   Logger/Lifecycle.antt src/Logger.cpp: Logger::init, stop, setLevel, shouldLog, logImpl. `log_begin`
--                         is the half of logImpl under the lock, `log_end` the push without it.
--   Logger/Format.antt    src/Logger.cpp: formatMessage, formatTime, levelToString, appendInteger.
--   Logger/Worker.antt    src/Logger.cpp: workerLoop, a round at a time, and flushSinks.
--   Logger/Cycles.antt    what holds over the cycles of init and stop.
--   Logger/Threads.antt    the whole logger with its threads: any number of producers in logImpl, the worker,
--                         init, stop and setLevel, a step being what happens between two points where
--                         another thread can come between. Where one store follows another at once,
--                         `running_` and the queue's `closed_` or the new worker, one step makes both.
--                         Below it, Sound and Stopping are about any sinks, Serving to Refines about sinks
--                         that never throw, Mirror and Printed about the built-in ones.
--   Logger/Spec.antt      the logger as a bounded buffer in front of a log: the specification that
--                         Logger/Threads/Refines.antt relates the threads to.
--   Logger/Calls.antt     log, logStatic and the LOG_ macros as whole calls, and the destructor.
--   Logger/Startup.antt   init over the built-in sinks.
--   Example.antt          examples/example.cpp: its configuration, its messages and its exit.
--   Benchmark.antt        benchmark/common/BenchmarkHarness.h and .cpp: the enumerations. Options has the
--                         parsers of option values and validateCommonOptions, Context makeRunContext,
--                         Csv csvEscape, Results the counts of inspectLogOutput and finalizeRun.
--   Benchmark/Producers.antt  ProducerGroup, with its producers and the thread that leads them as a step
--                         relation; Notices has what each of their turns notifies.
-- The modules below a component hold its proofs; the modules Examples hold tests and witnesses.
--
-- The parts meet as in the program: the logger's queue is a BlockingQueue of LogRecord, the worker is
-- written over any LogSink with state S, and init takes what the constructors of the built-in sinks
-- answer as a parameter, for which Logger/Startup.antt puts those constructors. What holds over any
-- sinks that never throw is carried over to the built-in ones by relating them to ledgers, sinks that
-- only keep what they are given (Logger/Worker/Printing.antt, Logger/Threads/Mirror.antt). Each
-- built-in sink has files or streams of its own, which nobody else writes to.
--
-- Parameters: the local date and time, the hash of a thread, the result of each file operation and how
-- much of a failed write is stored, the readings of the clock and whether a timed wait was over,
-- whether a thread can be started, and the sinks of the user.
--
-- Numbers: std::size_t has 64 bits. The generation and droppedCount_ wrap. Sizes of files and texts are
-- taken not to reach 2^64, nor fileIndex_ 2^31, times are not before the epoch, and the steady clock
-- plus the flush interval does not overflow. An enumerator that a cast can make and no name stands for
-- is the constructor `other`.
--
-- Fuel: only the loop of rollIfNeeded and workerLoop take fuel. For the first, 2 and the number of
-- writes that the files were made by and, for a batch, its length are enough, since a round that is
-- followed by another leaves a file with bytes behind; for the second, one round more than there are
-- queued records, once the queue is closed. A function that runs out says so (`unfinished`, `none`).
--
-- Files: bytes belong to a file from the write on, since every stream is flushed before it is closed or
-- a new one takes its place, and a size is read only where no stream is open on that file.
--
-- Exceptions are those of std::exception; one of another type ends the program and is not modelled, nor
-- is a failure to allocate memory. Destructors of sinks, the texts on std::cerr, moves and reserved
-- memory are not modelled, nor are instance(), the benchmark programs with their times and tables, and
-- the build.
pub mod Base
pub mod Queue
pub mod Sink
pub mod Logger
pub mod Example
pub mod Benchmark
