-- ===== src/Lib.antt =====
-- Verification library of the Qoder model gateway: a proxy that accepts requests in the protocols
-- of Anthropic Messages, OpenAI chat completions and OpenAI Responses, and forwards them to one
-- upstream model service.
--
-- Upstream and Sse model what arrives from upstream: the chunks with their token accounting
-- (convert.go) and the reader of server-sent events (`readSSE` of proxy.go), to which each handler
-- gives a callback. Anthropic models the two replies of the Messages protocol in proxy.go: Stream
-- is `streamState` with its methods, Session is `streamAnthropic` over the bytes of a body, and
-- Collect is `collectAnthropic`. Retry is `callUpstream` of proxy.go. Model has the catalogue
-- entries of convert.go, the context windows of model_context.go and `modelResolver` of proxy.go.
-- Codec has the pure codecs: native_body_codec.go, native_codec_helpers.go, native_credential.go,
-- native_uuid.go and protocol_error.go. Request turns the requests of the three protocols into
-- upstream messages: Messages is `messagesToUpstream` of convert.go, Marker is `ensureCacheMarker`,
-- which works in place and so shows in the content that shares its parts, and Input has
-- `oaiToUpstream` of openai.go and `respToUpstream` of responses.go. Auth is `authManager` of
-- auth.go with `patLogin` of main.go: Store reads and writes the credential file, Login makes
-- contexts and logs in, Refresh refreshes the device token, and Operation has what others call,
-- with runs of any operations in any order. An operation that holds the lock is one step, since no
-- other runs between, and every file, network or clock access answers by the number of accesses
-- before it. Native prepares the requests: Infer is native_infer.go with the signature, and Context
-- has native_context.go and protocol_services.go. Runtime has the runtime fields of
-- native_runtime_fields.go and the model cache of native_model_cache.go; the redrawing of a padding
-- byte runs on fuel, which is enough when it is more than the zero bytes that come in a row. App is
-- the process: Guard is `localNativeGuard` of native_local.go, Config the flags with their check,
-- Run is `run` of app.go as the list of what it does, and Lifecycle is the interleaving of its
-- goroutines with the requests: what the process does by itself, and what comes from outside.
-- Server has what the handlers of proxy.go share: Session is `sessionFor`, Access is `authOK` and
-- `handleMessages` around the call of the upstream, Failures is `rememberBody`, `forgetBody` and
-- `dumpFailure`, and Catalog is `loadCatalog` of main.go. Chunks is `upstreamChunks` of openai.go.
-- Openai has `toolIndexer`, `streamOAI` and `collectOAI`, and Responses has `respStreamState`,
-- `streamResponses` and `collectResponses` of responses.go. Base has the shared names, lists and
-- texts; Tests has runs at concrete inputs.
--
-- A text is the list of its byte values. An `int` that can be negative is an integer of Base.Int,
-- and arithmetic on it wraps at 64 bits. A loop is structural recursion; the retry loop runs on the
-- number of attempts left, which starts at four. Callbacks pass their state, and the bytes written
-- to a client are the list of events. JSON, the network, the clock, AES and UTF-8 are parameters;
-- what a property needs of them is a named hypothesis.
--
-- Not modelled: logging, the headers of answers, the machine identifier, the routing of requests,
-- the use of a protocol context while `ctxMu` keeps it from being replaced, the body of
-- `buildUpstreamBody` but for its messages, and the WebAssembly tools, which compare this program
-- with another one.
mod Base
mod Tests
pub mod Upstream
pub mod Sse
pub mod Anthropic
pub mod Model
pub mod Codec
pub mod Retry
pub mod Chunks
pub mod Responses
pub mod Request
pub mod Openai
pub mod Auth
pub mod App
pub mod Native
pub mod Runtime
pub mod Server
