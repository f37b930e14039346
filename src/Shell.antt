-- ===== src/Shell.antt =====
-- userland/apps/shell: from a command line to the list of pipelines that the shell runs.
pub mod Lexer
pub mod Parser
