-- ===== src/Lib.antt =====
-- Local Agent Runtime: the sessions of a provider-neutral runtime for language models, from a
-- request of a consumer to the events that tell how its turn ended. A session belongs to a
-- profile, which names a model of a provider and its limits. Each turn plans a window of the
-- transcript that fits the model and the limits, calls the provider's adapter, streams its text
-- into bounded events, and ends with tool requests, a final text, a failure or a cancellation.
--
-- Failure models src/local_agent_runtime/errors.py: an exception is a value of `Failure`, and
-- code that may raise returns a `Result`. Effect is for methods that change an object and may
-- raise: what was written before the raise stays written. Json holds the values of the `json`
-- package and `json.dumps` with its separators and escapes. Contracts is contracts.py, with
-- reasoning.py in Contracts/Reasoning. Validation is validation.py.
--
-- Context is context.py. Context/Estimate has the estimates of tokens and characters,
-- Context/Turns cuts the transcript into turns, and Context/Plan is `plan_context` with one
-- function for each of its passes. Its children hold the proofs.
--
-- Session is the record and the event log of service.py (`SessionRecord`, `add_event`);
-- Session/Emitter is `_TextDeltaEmitter`; Session/Advance is `_advance` with `_context_window`,
-- `_prompt_measure` and `_plan_context`: the provider's call in Session/Advance, what follows
-- its answer in Session/Advance/Settle, the exception handlers in Session/Advance/Turn.
-- Session/Public is `public_dict`.
--
-- Service is `RuntimeService`: the table of sessions with `_record`, `_ensure_schedulable` and
-- `_schedule`; Service/Create and Service/Opening are `create_session`; Service/Requests has
-- `events`, `submit_tool_results`, `continue_session` and `cancel`; Service/ModelOptions and
-- Service/Listing are `_resolved_model_option` and `model_options`; Service/Activation has the
-- constructor, `set_adapter_activation` and `select_profile`. Service/Steps puts them together
-- as a step relation, in which what providers and ports answer is given with each step; its
-- child modules are about the services that steps lead to: their logs, their profiles, the number
-- of their sessions and of those that run. A request is one step, and so is a
-- turn. `create_session` waits for a provider's catalog before it touches the table, so it is
-- also split at its `await`: the admission may be that of an earlier service.
--
-- Configuration is configuration.py: Configuration/Connection checks a provider's endpoint,
-- command and credential, Configuration/Profile the parts of a profile, and Configuration/Load
-- puts them together as `load_configuration`, from the file to the values that the service is
-- given. Embeddings is embeddings.py: profiles and the identity of a vector space, the check of
-- vectors in Embeddings/Vectors, and `EmbeddingService.embed` in Embeddings/Service as a step
-- before its `await` and a step after it, which Embeddings/Service/Steps interleaves.
--
-- Adapters has what adapters/ makes of a request and of an answer: Adapters/Chat is
-- chat_codec.py, with `decode_chat` in Chat/Decode and `ChatStreamDecoder` in Chat/Stream;
-- Adapters/Cli is cli_codec.py; Adapters/EmbeddingCodec is embedding_codec.py;
-- Adapters/Transport and Adapters/Events are http_transport.py, the checks of an answer and the
-- two requests from a response's chunks; Adapters/LmStudio is
-- providers/lmstudio.py, whose two completions are in LmStudio/Body. Chat/Size,
-- Cli/Estimated, Cli/Planned and LmStudio/Planned relate the sizes that planning measures, or
-- estimates, to the requests that are sent; LmStudio/Grammar is about the schemas of tools.
--
-- Text that is measured is a list of code points; identifiers, keys and codes are strings. An
-- instant is a number of microseconds, read once in a request or turn. A usage count is an
-- integer in units of 10⁻⁹. `capacity * 0.05` and `len / 3` are float operations in the program
-- and exact quotients here, which `ceil` makes equal below 2 ** 48. Two loops run
-- on fuel: the printing of a decimal number, with one digit of fuel more than the number counts,
-- and the cutting of a stream into frames, with one frame of fuel more than there are bytes,
-- while each frame takes at least two.
--
-- Parameters stand for what is not the runtime's own: in the service, the adapter of a
-- provider, with what its calls return and the fragments it streams; the JSON parser, the value
-- of a number's text and the jsonschema package; SHA-256, floats, `urlparse`, `Path`, the
-- environment, the YAML loader with its check of keys, the HTTP client, regular expressions on a
-- provider's message, and the ports for selection and activation. No hypothesis is made on any
-- of them, but that windows can be measured where planning is said to return.
--
-- Not modelled: the HTTP gateway; the processes and the commands' own adapters, OpenRouter's
-- adapter, LM Studio's `discover_models`, the stores and the catalog; of `RuntimeService`,
-- `adapter_state`, `profile_state`, `shutdown` and `wait`; of `EmbeddingService`,
-- `profile_state`.
pub mod Base
pub mod Failure
pub mod Json
pub mod Contracts
pub mod Context
pub mod Validation
pub mod Effect
pub mod Session
pub mod Service
pub mod Embeddings
pub mod Adapters
pub mod Configuration
