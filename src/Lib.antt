-- ===== src/Lib.antt =====
-- lazy-vllm: a proxy in front of vLLM servers, a router that decides whether a request thinks, and an
-- agent that runs graphs of model calls.
--
-- The proxy (proxy/internal) takes requests of the OpenAI and Anthropic APIs, chooses the backend
-- for the model that the body names, changes the body (a model name with -FLASH disables thinking, a
-- budget of thinking tokens is injected), and copies the response to the client. Where observations
-- are asked for, the response passes through a capture that removes the text between <obs> and
-- </obs> and keeps it. The router (router/internal) asks the model whether a request needs
-- reasoning, strips old thinking blocks from the conversation, and relays the request with the
-- verdict in it. The proxy logs each request as a session in a store that keeps every message once.
-- The agent (agent/internal) walks a graph whose nodes call a model, run its tools, fan out or answer.
--
-- Prelude: library names, tests on numbers, lists measured by native numbers, and what is left of a
-- list without some of its items. Text: searching,
-- cutting and trimming of lists, characters and their numbers.
--
-- Json: documents as the Go code sees them through encoding/json. Json/Structs decodes structs, and
-- Json/Codec is the text of documents, a parameter. Numbers that are not integers are kept by their text, field names match exactly, and a
-- Go map is its list of entries, of which the program sees no order.
--
-- Obs: `obsCapture` of proxy/internal/proxy/obs.go. The state is the record Capture, with the slices
-- written to the client in `out`; a text is its characters, where the source has bytes: the tags are
-- ASCII, so both find them at the same places. Obs is `handleTextDelta`, Obs/Stream the frames and
-- the rebuilding of events, Obs/Events `Write`, `drainSSE`, the handlers of events and `Finalize` of
-- a stream. The loop of `drainSSE` has fuel for each byte that waits, and each round takes two bytes
-- at least. Obs/View and Obs/Scan follow the text through the capture, Obs/Split says which tags are
-- found, Obs/Events/Frame and Obs/Events/Chunks compare ways to cut the bytes into writes. Obs/Whole
-- is the response that is not streamed, and Obs/Whole/Agreement compares the two. Obs/Inject is the
-- injection of the instruction and the reminders, and Obs/Inject/Roles what it leaves alone.
--
-- Config: proxy/internal/config/config.go, over an environment, a reader of numbers and one of JSON.
-- `EnvFloatOr` is left out (floating point).
--
-- Server: proxy/internal/proxy/server.go. Backends, Flash, Inject and Budget are about its parts.
-- The product of tokens and a fraction, in floating point, is a parameter, and so is what
-- encoding/json makes of a value that it reads into an `any` and writes again.
--
-- Router: router/internal/router/types.go; Router/Thinned and Router/Strip are about
-- `stripPriorThinkingBlocks`, and Json/Thinking says which blocks hold thinking.
-- Router/Classify is router/internal/router/classify.go, and Router/Handlers are the handlers of
-- router/internal/router/proxy.go, over an HTTP client that is a parameter; Router/Served is about
-- what they send.
--
-- Logger: proxy/internal/logger/parse.go. Logger is the messages of an Anthropic request as the
-- session log keeps them, with Logger/Calls about the results of tool calls, Logger/Messages those of
-- an OpenAI request, Logger/Outputs the responses that are not streamed and Logger/Streams those that
-- are. Logger/Tools is the map of the tool calls that a stream builds, Logger/Tools/Sorted their
-- order, and Logger/Streams/Calls is about what their pieces make up.
--
-- Store: the session store of proxy/internal/logger/compact.go. The tables are lists of rows, and
-- each operation is its SQL statement under the schema's keys, which hold on every connection here;
-- the database itself does not fail. The hash and the compressor are parameters, and the time and
-- the random bytes are arguments. Store/Hex and Store/Compress are the texts of hashes and the
-- compression, Store/Reads the queries, Store/Keep and Store/Steps the invariant, Store/Refines and
-- Store/Log the log that the store promises, Store/Schema and Store/Schema/Upgrade the migrations.
--
-- Agent: agent/internal/agent. Agent has the types of types.go, Agent/History is history.go and the
-- texts of llm.go, Agent/Model is `callModel` of llm.go over a `Host`, whose state passes along,
-- Agent/Anthropic and Agent/Anthropic/Wire are anthropic.go, with Agent/Anthropic/Turns and
-- Agent/Anthropic/RoundTrip about its two directions. Agent/Graph is executor.go: the types of a graph, Agent/Graph/Nodes what the
-- nodes do, Agent/Graph/Run `Run` and `runScatter`, Agent/Graph/Loop the tool loop of a chain,
-- Agent/Graph/Copies a scatter over copies of the state. A run
-- has fuel for the nodes it enters and the turns of a chain: a chain ends with fuel above any
-- measure that its turns with tools lower, and the registered graphs need two and three units. The
-- branches of a scatter run one after the other. Agent/Graph/Registry is
-- agent/internal/graphs/registry.go and agent/main.go behind the flags. Agent/Logging is the log of a
-- request, of disk_logger.go, with Agent/Logging/Disk, Agent/Logging/Reread and Agent/Logging/Files for
-- its documents and files, Agent/Logging/Stream the `streamLogger` of executor.go, Agent/Logging/Whole the log of other
-- responses, and Agent/Logging/Chunks and Agent/Logging/Agreement about the reading of a stream. A log
-- is not threaded through a run of a graph.
--
-- Server/Attribution: the middleware of proxy/internal/proxy/context.go; base64 is a parameter.
-- Proxy: proxy/internal/proxy/handlers.go, over the functions of Server, Obs and Logger. Proxy has
-- the choice of backend and body, token counts and forwarding, Proxy/Logging `forwardWithLogging`
-- with the session store, whose observation capture is that of Obs. Proxy/Choice is about the body
-- that is forwarded, Proxy/Logged, Proxy/Kept and Proxy/Transcript about what the store keeps.
-- The parsers of messages and of the output are arguments, as they are in the source; a server
-- counts no negative number of tokens. Proxy/Models is proxy/internal/proxy/models.go, with
-- Proxy/Models/Listed and Proxy/Models/Clones about it. Proxy/Mux and Proxy/Serve are the server of
-- proxy/main.go with a session log: the patterns of its mux, and the way from the middleware to the
-- handlers with their parsers; Proxy/Serve/Attributed is about attributed paths and
-- Proxy/Serve/Reading about requests that only read, and Proxy/Serve/Session about a conversation that
-- is served and then shown, with Store/Shown. Store/Ui is proxy/internal/logger/ui.go, and
-- Proxy/Memory is proxy/internal/proxy/memory_client.go.
--
-- Exporter: the shared memory that coretemp-exporter/main.go reads, and Exporter/Samples the samples of
-- a scrape. The mapping of the memory, floating point and the texts that are labels are parameters.
-- Exporter/Safe is about both.
--
-- Tests has concrete runs.
--
-- Not modelled: as input and output, the copying of streams, the start of the servers, the listeners
-- and the metrics; a server without a session log; and, in other languages, the memory service, the
-- synthetic user interface, the dashboards and the scripts.
pub mod Prelude
pub mod Json
pub mod Text
pub mod Obs
pub mod Config
pub mod Exporter
pub mod Server
pub mod Router
pub mod Logger
pub mod Store
pub mod Agent
pub mod Proxy
pub mod Tests
