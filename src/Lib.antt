-- ===== src/Lib.antt =====
-- A model of the Python side of rlox, a library for reinforcement learning, and what is proved of
-- it. The parts, the code that they are about, and how they meet in the program:
--
-- - Config: python/rlox/config.py. A configuration class is a schema (Config/Mixin): its fields
--   with their defaults, its key aliases and the checks of `__post_init__`; Config/Schemas has the
--   21 classes that inherit from `ConfigMixin`, by groups. An instance is the dict of its fields. A
--   trainer builds an instance by `from_dict` or `merge`, so every algorithm starts here.
-- - Callbacks: python/rlox/callbacks.py. Each callback is a state and a function per hook:
--   EarlyStopping, Checkpoint, Timing, Evaluation; Chain is `CallbackList.on_step`. A training loop
--   calls them at every step and stops when one says so.
-- - Batch: python/rlox/batch.py. `RolloutBatch` as lists of rows and its division into minibatches.
-- - Collector: python/rlox/off_policy_collector.py. Steps of vectorised environments, the accounts of
--   episodes, and the calls of the replay buffer.
-- - GoExplore: python/rlox/exploration/go_explore.py. The bounded archive of cells.
-- - SelfPlay: python/rlox/self_play.py. The bounded pool of snapshots, matchmaking (uniform,
--   latest, or weighted by ratings) and ratings.
-- - Benchmark: python/rlox_agent/config.py. The constants of the agentic benchmark and
--   `validate_config`.
-- - Verifiers: python/rlox_agent/verifiers_adapter.py. Messages and Extraction turn a completion into
--   a program, by the two regular expressions as matchers; Rewards has the two backends and the
--   reward function, which asks the injector of Adversarial first.
-- - Adversarial: python/rlox_agent/adversarial_corpus.py. The corpus with its digest, the injector.
-- - Metrics: python/rlox_agent/metric_collector.py. The per-step records and their summary.
-- - Contagion: python/rlox_agent/contagion_detector.py. The monitor of the training process, which
--   reads the statistics of the same backend at every step.
-- - RloxVerify: environments/rlox_verify/rlox_verify/__init__.py. The embedded problems
--   (RloxVerify/Problems), loading MBPP and building the dataset (Dataset), and the environment's
--   reward function and factory (Environment), which use Verifiers and Adversarial.
-- - Reporting: python/rlox_agent/reporting.py. Bootstrap intervals, the guardrail on their overlaps
--   and the go/no-go verdicts.
-- - Distributed: python/rlox/distributed/pipeline.py. Collection is one round of the collector
--   thread, which makes a RolloutBatch; Threads is `Pipeline`: the thread's steps and the learner's
--   calls, in the order of a schedule. A step touches the queue or the stop event once; a put or a
--   get that waits is a step that finds no room, or no batch, and comes again.
-- - Prefetch: python/rlox/gpu_buffer.py. The bounded queue of prefetched batches.
-- - Pbt: python/rlox/pbt.py. The population, with the exploit and explore steps and the loop.
-- - Plugins: python/rlox/plugins.py. The registries, discovery, and look-up by name.
-- - Trainer: python/rlox/trainer.py. The registry of algorithms and their statuses; a trainer finds
--   its class there, its environment in the registry of Plugins. Evaluation is `Trainer.evaluate`
--   with the conversion of actions.
--
-- Base has what they share: lists measured by native numbers, bounded windows, dicts as association
-- lists, the results of calls that may raise. Each component's own modules hold its proofs, named
-- for what they prove, and its Tests the small runs.
--
-- Numbers: floats, and Python numbers in general, are a parameter, the record Base/Float; a theorem
-- that relies on their order says so by a hypothesis (`IsOrdered`, `IsStrictOrder`), which numbers
-- that are not NaN satisfy. Times are floats too. Counts and indices are natural numbers; differences that may be negative
-- are compared as sums. Texts are lists of code points where the code looks into them.
--
-- What other packages and the machine do is an argument: environments, policies and the advantage
-- estimator, the replay buffer of the Rust extension, the datasets package, the reader of /proc, the GPU sampler, the subprocess, the HTTP server, the random generator, JSON
-- and SHA-256.
--
-- Fuel: only the evaluation loops, of EvalCallback and of the trainer, can run forever, since an
-- environment may never end its episode. They take fuel, and with episodes of limited length a
-- stated amount of it is always enough. The
-- loop of the collector thread has no end of its own: a run of it is a finite schedule of steps, and
-- the theorems are about every schedule.
--
-- Not modelled: tensor code (networks, losses, the algorithms' updates), the Rust crates, file
-- formats (YAML, TOML, JSON texts), logging, display and deployment.
pub mod Base
pub mod Batch
pub mod Benchmark
pub mod Callbacks
pub mod Collector
pub mod Config
pub mod Contagion
pub mod Distributed
pub mod Adversarial
pub mod GoExplore
pub mod Metrics
pub mod Pbt
pub mod Plugins
pub mod Prefetch
pub mod Reporting
pub mod RloxVerify
pub mod SelfPlay
pub mod Trainer
pub mod Verifiers
