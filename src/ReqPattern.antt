-- ===== src/ReqPattern.antt =====
-- cpworker/src/req_pattern.c: the pattern that tells requests from responses. A pattern is lexed and
-- parsed into a tree of conditions; a packet's addresses and ports decide its direction by it.
pub mod Lexer
pub mod Parser
pub mod Layers
pub mod Judge
mod Examples
