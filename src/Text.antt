-- ===== src/Text.antt =====
-- Bytes and addresses as text: src/ethereum/ethereum.cpp, src/util/strutil.cpp and
-- src/include/util/byteutils.h. A C string is the list of its characters, without the zero behind them.
pub mod Checksum
pub mod Hexdump
pub mod Parsing
