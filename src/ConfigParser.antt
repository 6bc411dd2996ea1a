-- ===== src/ConfigParser.antt =====
-- src/ConfigParser.cpp: the tokenizer, the token stream and the block parsers. A ConfigException is
-- `fatal_exception`; its message is not modelled. The stream is the list of the tokens that are
-- left, `_tokens` from `_pos` on. `resolve` stands for getaddrinfo on an IPv4 host name.
pub mod Tokens
pub mod Values
pub mod Directives
pub mod Blocks
pub mod Progress
pub mod Valid
