-- ===== src/Lib.antt =====
-- mkqd runs BullMQ-compatible queues with handlers written in Go or with executors that a configuration
-- names. This library models the core of it and proves what the parts promise one another.
--
-- The runtime (runtime.go) registers queues (register.go, executor.go) from code and from a configuration
-- (config.go), tunes each of them, launches a worker of the mkq library for each, and retires the workers
-- on shutdown. A worker hands its jobs to an executor: executor/httpexec posts a job to an endpoint or a
-- webhook, and executor/apdeliver signs an ActivityPub delivery (httpsig/httpsig.go), with keys from a
-- directory or from a remote signer. Both send through internal/httpsend, guarded by internal/safedial,
-- and both turn a response into one of three outcomes, of which a retry may carry the delay that the
-- server asks for (retry_after.go). The health listener (server.go) tells whether the runtime serves, and
-- the commands of cmd/mkqd run it, or look at the queues in Redis and change them.
--
-- Files, each with its children in the folder of its name:
--   Base          lists, texts as lists of bytes, association lists for maps, int64 values.
--   RetryAfter    retry_after.go: RetryAfterError as the constructor retry_after of Error, RetryAfter as
--                 with_retry_after, ParseRetryAfter, (*Runtime).retryDelay. A duration or a time is an
--                 integer of nanoseconds, and products wrap at 64 bits.
--   SafeDial      internal/safedial/safedial.go: IsPublic, CheckAddr, NewDialer's Control. An address is
--                 a number with its zone, and the predicates of net/netip are tests on numbers.
--   HttpSend      internal/httpsend/httpsend.go: ReadBody, Truncate, SignHMAC; HttpSend/Client NewClient.
--   Config        config.go: applyDefaults, Validate, the pool size, queueConfig; Config/Env has
--                 expandEnvNode and dedupe, Config/Yaml the node that DecodeStrict decodes, and
--                 Config/Load LoadConfig, ParseConfig and the YAML hooks.
--   Tuning        register.go: QueueOption, queueTuning, resolved, resolveTuning, workerOptionsFor.
--   Registry      register.go: Handle, HandleExecutor, register, buildConfiguredQueues,
--                 registeredQueues. The state is Queues, a part of Runtime. Registry/Executors has
--                 RegisterExecutor, the other operations of executor.go, and its Job.
--   HttpMessage   requests, responses and header maps of net/http, with names in lower case.
--   HttpSig       httpsig/httpsig.go: SignRequest, SigningString, Verify, ParseSignatureHeader,
--                 LocalSigner.Sign; HttpSig/Keys has ParsePrivateKey and NewLocalSigner.
--   HttpExec      executor/httpexec: send, classify, detail, mergeHeaders, the webhook's Execute;
--                 HttpExec/Setup has the options, the constructors and the "http" executor's Execute.
--   ApDeliver     executor/apdeliver/apdeliver.go: Execute; ApDeliver/Guarded puts newExecutor, New and
--                 Execute together over a network. ApDeliver/Asking and
--                 ApDeliver/Remote have (*remoteSigner).Sign of executor/apdeliver/remote.go, up to the
--                 request and from the answer on.
--   KeyCache      executor/apdeliver/signer.go: (*dirSigner).load and its cache, and side by side in
--                 KeyCache/Concurrent, where a call takes a turn at a time; KeyCache/DirSigner has
--                 its Sign, and KeyCache/Signers BuildSigner, its constructors, and New of apdeliver.go.
--   Lifecycle     runtime.go: Start, Run, Shutdown, stopWorkers, abortWorkers, drainWorker. The state is
--                 Runtime, with the calls to mkq recorded. Lifecycle/Goroutines has the goroutines of
--                 stopWorkers as a step relation: a step is a call of Drain or Stop by any of them; a
--                 history of calls of Start and Shutdown is run_ops.
--   Service       runtime.go: New, NewFromFile, universalOptions, warnPoolSize, Check, Queues,
--                 QueueTuning; Service/Daemon puts `mkqd run` together; Service/Health has the
--                 handlers of server.go, Service/Logger logging.go.
--   Cli           cmd/mkqd: Cli/Dispatch has the table of main.go, Cli/Inspect the commands of inspect.go
--                 and Cli/Admin those of admin.go, as functions on the state of a Redis, the record
--                 Cli/Redis, whose calls may fail. Cli/View and Cli/Text are what they show,
--                 Cli/Tables their tables, and Cli/Check the report of `mkqd check`. Cli/Flags has the Parse
--                 of package flag, and Cli/Typed the commands from the words that are typed on.
--   Examples      runs and theorems at concrete inputs.
--
-- A function of the source that may fail returns an option, a result type of its own or a Boolean, where
-- none, the error's constructor or false stands for the error. Of an error the model keeps what errors.Is
-- and errors.As see. Loops are structural recursion. IsPublic calls itself on an embedded IPv4 address;
-- its model counts two rounds, since an IPv4 address embeds no other.
--
-- Parameters stand for code outside the repository: http.ParseTime, net.SplitHostPort, netip.ParseAddr,
-- url.Parse, encoding/json, SHA-256, HMAC, base64, RSA, the HTTP client, the file system and the mkq
-- workers. What an outside call answers is fixed for a run, so the drains of a shutdown interleave with
-- one another but do not change what another one meets. Case folding and white space are those of ASCII.
-- A map is read in the order of the list that stands for it.
--
-- Not modelled: the reading of numbers and durations in flags and the writing of JSON in cmd/mkqd, the
-- listener and the mux of the health server, YAML decoding, contexts and their deadlines, Run's wait for a signal, and the tests.
pub mod Base
pub mod RetryAfter
pub mod SafeDial
pub mod HttpSend
pub mod Config
pub mod Tuning
pub mod Registry
pub mod HttpMessage
pub mod HttpSig
pub mod HttpExec
pub mod ApDeliver
pub mod KeyCache
pub mod Lifecycle
pub mod Service
pub mod Cli
pub mod Examples
