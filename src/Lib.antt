-- ===== src/Lib.antt =====
-- Nadikt: local dictation. The repository holds the text insertion experiment, the ASR engine
-- adapters of the product, and the benchmark that compares ASR models on a machine. This library
-- models the parts below and says how their definitions correspond to the code.
--
-- Base: what the modules share. Lists and tests over the native numbers, dicts as lists of pairs in
-- insertion order, ℤ over the native ℕ, JSON values, results, and `Exec`, the monad of a method
-- that changes its object and a world outside it and that returns or raises.
--
-- Insertion: experiments/windows_insertion/insertion_spike. `Contracts` has the data of
-- contracts.py and the three adapters as one record of functions on a world of any type, each of
-- which may return, raise an error with a code, raise another exception, or be interrupted.
-- `Boundary` has the fields of `InsertionService` as a record, the requests' attempted ids, the
-- retained results, the retained snapshots and the lock, and the calls of adapters, which are
-- recorded in a history for the theorems. `Service` has the methods of service.py, `deliver` with
-- its parts (`attempt`, `dispatch_direct`, `dispatch_with_clipboard` and the stages of the latter),
-- `restore_original`, `discard_original` and the two readers. `Run` has sequences of calls by a
-- client, and `Custody` an abstract machine of who holds the original clipboard, whose runs they
-- are. `Flow` and `Frame` say which calls of adapters a method makes and which fields it leaves.
-- The steps of one call are not interleaved with those of another thread: the lock is taken or not
-- when a call begins, and the model has both.
--
-- Windows: the adapters of experiments/windows_insertion/insertion_spike for Windows and its command
-- line. `Target` has windows_target.py: `WindowsTargetAdapter` over an interface of the system, and
-- in `Target/System` `CtypesWindowsTargetApi` with a record of the handles that it opens and closes.
-- `Injector` has windows_injector.py: `WindowsInputInjector` with its flag and a clock, and in
-- `Injector/System` `CtypesInputApi`; `Utf16` has the encoding that the injector and the clipboard
-- use. `Clipboard` has windows_clipboard.py: `WindowsClipboardAdapter`, whose states stand in a heap
-- (`Clipboard/Heap`) because a snapshot shares one with the adapter, and in `Clipboard/System`
-- `CtypesClipboardApi` with a record of the memory that it allocates, locks, frees and gives away.
-- `Cli` has cli.py: the parts of `run`, which `Cli/Running` puts together over the service of
-- Insertion and any adapters, with `create_runtime` in `Cli/Create`. What `input` yields is a list;
-- where it is used up the program still waits, which is a result of its own. The functions of
-- user32, kernel32 and advapi32, `sleep`, the clock and the terminal are parameters on worlds of any
-- type; what the theorems need of them are hypotheses (`Inserts`, `Inserted`, `Clock`, `Clipboard`,
-- `Readable`), each of which a concrete system in `Tests` meets.
--
-- Asr: src/nadikt/domain/ports/asr.py and src/nadikt/infrastructure/asr. `Ports` has the data with
-- the checks of their constructors; times are whole milliseconds. `Engine` has what the two engines
-- share. `Gigaam` and `Whisper` have one engine each: its fields as a record, and load, warm_up,
-- transcribe_segment, cancel and close. The SDK and the file system are parameters on a world of
-- any type.
--
-- Protocol: benchmarks/asr/worker_protocol.py, the messages between the benchmark's supervisor and
-- its worker processes. `Messages` has the data of version 2 and the sets of allowed words and keys,
-- `Encode` the `to_json` methods and `dumps_bounded`, `Decode` the parser of results and `Requests`
-- that of requests, both of version 2; `Version1` has the messages of version 1. `Python` has the
-- parts of Python and of its `json` that they use, as a parameter: printing and reading numbers and
-- texts, rounding, paths. A float is a decimal, an infinity or no number. Recursion on messages is
-- structural.
--
-- Evidence: benchmarks/asr/offline_evidence.py. `Records` has the evidence that a worker ran offline,
-- and its JSON; `Verdict` says when it passes.
--
-- Quality: benchmarks/asr/quality_metrics.py. `Levenshtein` has the rows of the distance and `Edits`
-- the scripts it minimises. `Tokens` and `Spans` have the tokens and the accepted variants, with the
-- regular expressions written out as scanners over lists of code points; NFKC and case folding are
-- a parameter, Unicode's tables being Python's. `Metrics` and `Reports` have the metrics, a rate
-- being the pair of its numerator and its denominator in place of a float.
--
-- Quality/Normalization: `normalize_coding_terms` of benchmarks/asr/coding_term_normalization.py, and
-- the metrics of its text. Which letter IGNORECASE takes for which is a parameter.
--
-- Benchmark: benchmarks/asr, the worker process and the process that supervises it. `Engines` has
-- the protocol AsrEngine as an interface, which both engines of Asr implement, and
-- `_engine_from_request`. `Wire` has the messages of both versions together. `Worker` has
-- benchmark_worker.py: `Sampling` one sample with its metrics (`Measures`), `Repeat` a run of
-- version 2, `Probing` one of version 1, and `Main` the choice between them and `main`, from the
-- text that it reads to its answer and exit code. `Privacy/Audit` has privacy_audit.py.
-- `Supervisor` has worker_supervisor.py: `Process` the data and the calls of the process, which are
-- recorded in a history for the theorems, and `Running` has `WorkerSupervisor.run` with its wait
-- (`Communicating`). The functions of subprocess, the sampler of resources (`_ResourceCollector`),
-- the clock, the reading of audio files, and the division and rounding of rates are parameters on a
-- world of any type.
--
-- Loops run over lists, but for two loops of the Windows adapters. The wait for released modifiers
-- has one step of fuel more than milliseconds to wait, since each step but the last one sleeps at
-- least one. The loop of `list_formats` takes its fuel from the caller, and any above the number of
-- formats is enough (`Clipboard/Listing`).
--
-- Not modelled: the prototypes and layouts that ctypes is told, argparse, and the command lines of
-- the benchmark; `_ResourceCollector` of worker_supervisor.py; the benchmark's runner, results,
-- manifests, package integrity, storage of the dataset, probes and measurements; the agent skills
-- of .opencode, which are another project's; logging and the `__repr__` methods.
pub mod Base
pub mod Insertion
pub mod Windows
pub mod Asr
pub mod Protocol
pub mod Evidence
pub mod Quality
pub mod Benchmark
