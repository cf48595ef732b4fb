-- ===== src/Sexpr.antt =====
-- worker/emi_worker/kicad/sexpr.py: the reader of KiCad's board files. `Tokens` is the tokenizer,
-- `Parser` the stack machine, `Tree` the nodes, and `Navigate` the helpers that read a node.
pub mod Tokens
pub mod Tree
pub mod Parser
pub mod Lexing
pub mod Ends
pub mod Writer
pub mod RoundTrip
pub mod Events
pub mod Accepts
pub mod Navigate
pub mod Unknown
mod Examples
