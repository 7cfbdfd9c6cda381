-- ===== src/Llm.antt =====
-- pan-llm/src: what surrounds the calls of language models.
pub mod Anthropic
pub mod Compactor
pub mod Decide
pub mod Download
pub mod Evaluator
pub mod Http
pub mod OpenAi
