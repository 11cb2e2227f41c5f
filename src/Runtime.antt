-- ===== src/Runtime.antt =====
-- The parts of ocaml/byterun that this repository extends for embedding.
pub mod Bytecode
pub mod Channel
pub mod Dynlink
pub mod ExtTable
pub mod Fatal
pub mod Interp
pub mod Memory
