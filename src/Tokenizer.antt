-- ===== src/Tokenizer.antt =====
-- The tokenizer of src/tokenizer.cpp: byte-level BPE, the pretokenizer, and the special tokens.
pub mod Bytemap
pub mod Pretok
pub mod Bpe
pub mod Encode
pub mod Load
mod Tests
