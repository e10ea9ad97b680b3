-- ===== src/Adapter.antt =====
-- The provider adapters of app/multi_provider.py, as the functions of Forward call them: Checked has
-- the results of a translation, Payload what the two share, Reasoning the reasoning controls,
-- OpenAi and Anthropic the two adapters and AnthropicStream the translation of streamed answers.
pub mod Checked
pub mod Payload
pub mod Reasoning
pub mod OpenAi
pub mod Anthropic
pub mod Answer
pub mod AnthropicStream
pub mod Laws
pub mod Upstream
pub mod Turns
pub mod Sent
pub mod StreamText
pub mod Streamed
pub mod Make
pub mod Tests
