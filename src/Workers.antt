-- ===== src/Workers.antt =====
-- workers/: the prompts that the worker is given.
pub mod Prompt
