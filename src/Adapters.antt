-- ===== src/Adapters.antt =====
-- The adapters' own logic: the wire formats of adapters/chat_codec.py, cli_codec.py and
-- embedding_codec.py, and what http_transport.py makes of a response.
pub mod Transport
pub mod EmbeddingCodec
pub mod Chat
pub mod Cli
pub mod LmStudio
pub mod Events
mod PlanTests
mod Tests
