-- ===== src/Encoding.antt =====
-- Encodings of the Go standard library that the program uses: encoding/binary and strconv.
pub mod Uvarint
pub mod Decimal
