-- ===== src/Gemini.antt =====
-- Gemini's environment file (src/gemini/env.rs).
pub mod Env
