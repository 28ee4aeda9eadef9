-- ===== src/Audit/Encoding.antt =====
-- The parts of Go's standard library that chain.go hashes with: decimal numbers (strconv), unsigned
-- varints (encoding/binary) and sorted texts (sort.Strings). A text is the list of its bytes.
pub mod Decimal
pub mod Varint
pub mod Keys
