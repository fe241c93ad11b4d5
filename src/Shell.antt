-- ===== src/Shell.antt =====
-- bash/pipe: the shell's tokenizer (tokenizer.h), and the parser and the plumbing of a pipeline
-- (bash.h).
pub mod Tokenizer
pub mod Parser
pub mod Pipeline
