-- ===== src/Lib.antt =====
-- Oblak: a serverless platform in Go, and a verification library for it.
--
-- The server (internal/server) takes an uploaded archive, the analyzer (internal/analyzer) decides
-- whether it may leave quarantine, and the vm service (internal/vm) installs its dependencies and
-- runs it in Firecracker machines. The three programs share a PostgreSQL database
-- (internal/function, internal/invocation), MinIO buckets, and RabbitMQ queues. The development
-- follows a function from the message that announces its upload to the log of its invocation.
--
-- Prelude: tests on native numbers, lists, and Result, a value or an error with the monad that
--   stops at the first error. Text: byte strings, with what the code uses of package strings.
--   FilePath: what it uses of path/filepath on Unix. Sql: UPDATE, INSERT and SELECT on a table as a
--   list of rows.
-- Function, Invocation: model.go and store.go of internal/function and internal/invocation. A
--   statement gets whether the database executes it; ids are numbers, times are numbers.
-- Analyzer.Clam: internal/analyzer/av/clam.go. Analyzer.Unzipper:
--   internal/analyzer/orchestrator/unzipper.go, where an archive is the entries that the tar reader
--   gives. Analyzer.Llm: internal/analyzer/llm/qwen.go, with HTTP, JSON and prompts as parameters.
--   Analyzer.Tools: internal/analyzer/audit and internal/analyzer/sast. Analyzer.Orchestrator:
--   analyze_file is AnalyzeFile of internal/analyzer/orchestrator, over a record of the answers of
--   its services. Analyzer.Dast: internal/analyzer/dast, where Search and Fields are the text
--   functions of helpers.go, Report is parseBehaviorReport, Lines and Coverage are the lines that
--   the sandbox writes and what is read of them, and Sandbox is Detonate of visor.go.
--   Analyzer.Sanitizer: internal/analyzer/sanitizer. Analyzer.Config: internal/analyzer/config and
--   cmd/analyzer/main.go up to its wait for a signal. Analyzer.Queue: the exchange that
--   internal/analyzer/message/listener_config.go and internal/server/analyzerpublisher set up.
--   Analyzer.Listener: process_message is processMessage of
--   internal/analyzer/message/listener.go, over a World of tables, buckets and queues; consume is
--   its loop.
-- AgentProto: the messages of internal/agentproto/proto.go and their text; AgentProto.Conn sends and
--   receives them as lines. Agent: the jobs of
--   internal/agent, as the calls that they make and the messages that they send; Agent.Answers reads
--   the messages with the loop of Vm.Stream, and Agent.Flush is the order of the last calls.
-- Vm.Cid, Vm.Resource, Vm.Connect, Vm.Stream, Vm.Drive: cid.go, resource.go, Connect of vm.go,
--   logs.go and drive.go of internal/vm/vm. A drive gets a record of which of its calls succeed and
--   changes the list of the host's temporary files. Vm.Runner: execute and prepare_environment are
--   Execute and PrepareEnvironment of exec.go and prepare.go, with the events of a run in their
--   order. Vm.Machine: StartMachine and Stop of vm.go, with the caller and the watcher of a machine
--   as a step relation.
-- Vm.Service: prepare and execute of internal/vm/service, and Vm.Service.Workers the workers side
--   by side, as a step relation on the invocations and what each worker holds, which execute follows. Vm.Queue: the handlers
--   and dead letter publishers of internal/vm/queue/handler.go. Vm.Router: internal/vm/queue/router.go,
--   with the middleware of Watermill as a record of what its documentation promises; Vm.Router.Setup is
--   NewVmRouter. Vm.Config: internal/vm/config and internal/vm/queue/config.go.
-- Server.Extractor, Server.Quarantine: extractor.go and service.go of internal/server/extractor.
--   Server.Bus: internal/server/events/bus.go. Server.Auth: internal/server/middleware/auth.go, with
--   the header that internal/cli/client/client.go writes; the clock, the key store and the signature
--   are parameters. Server.AuthKeys: internal/server/authkey and internal/signing, over a record of
--   the cryptographic functions. Its child Signed is about the text that is signed. Server.Logs: internal/server/invocations/logs.go, and in its child
--   Written the log as the host writes it. Server.Reads: the joins of both stores. Server.Handlers
--   and Server.Upload: internal/server/handler. Server.Extraction: the workers of
--   internal/server/extractor/service.go with internal/server/analyzerpublisher. Server.Buckets:
--   internal/server/filestore. Server.Config: internal/server/config.
-- Cli.Config: internal/cli/config. Cli.Client: internal/cli/client. Cli.Upload: cmd/cli/upload.go.
--   Cli.Poll: cmd/cli/util/pollstatus.go. Cli.Configure: cmd/cli/configure.go.
-- System: the three programs together, as a step relation over the tables, the buckets, the buses and
--   the queues that they share, with the calls of the other modules as its steps. The statements of one
--   call on the table of the functions are steps of their own, so those of the others fall between. A
--   queue keeps what was sent, so that a message can be delivered again and in any order; a build that
--   was claimed can be settled whenever. So the steps allow more than the programs do, and what holds
--   after all of them holds of the programs. System.Calls is about the handlers as such steps.
--   System.Progress is about a message and its build as their handlers take them. System.Settings sets
--   the configurations of the programs side by side.
-- Examples: the theorems and the definitions at concrete inputs.
--
-- Every loop is recursion on the list that it reads, or on the twenty attempts of Connect, so no
-- fuel is needed: a loop that waits for time to pass, as the search for the log of the sandbox and
-- the polling of the client, reads the list of what it meets. Only the loop that receives messages
-- from a connection has fuel, one for each message, and the number of the messages sent is enough.
-- Context ids are numbers below 2^32 with the wrap-around written out; byte counts of the extraction
-- are natural numbers, which the limit keeps far below 2^63. Blanks that are trimmed from a text
-- are those of ASCII.
--
-- Not modelled: the set-up of the agent's system, the configuration of Firecracker and of the
-- containers, the connections of the publishers beside their topics, the commands of the client that
-- list and describe, and those of the administrator. The generated API and the wiring of libraries are
-- left out, and so is what Firecracker, Docker, gVisor, MinIO, RabbitMQ, clamd, semgrep, pip-audit, Ollama
-- and encoding/json do, which the definitions take as inputs.
mod Prelude
pub mod Examples
pub mod Text
pub mod FilePath
pub mod Sql
pub mod Agent
pub mod Function
pub mod Invocation
pub mod Analyzer
pub mod AgentProto
pub mod Vm
pub mod Server
pub mod Cli
pub mod System
