-- ===== src/ByteReader.antt =====
-- src/byte_reader.hpp: class ByteReader. A function that returns false leaves the reader as it is,
-- which is `none` here; one that returns true gives its value and the reader behind it.
pub mod RoundTrip
mod Tests
use libaribtlv.Reader.{be16, be32}
use libaribtlv.Base.{
  ℕ, ◌+◌, ◌-◌, Option, none, some, ltb, if◌then◌else◌, length, take, drop, get_or, Bytes,
}

pub record ByteReader : Type 0 where
  pub bytes : Bytes
  pub position : ℕ

abbrev pub remaining : ByteReader → ℕ
remaining r = length r.bytes - r.position

-- The bytes from the position on.
abbrev pub current : ByteReader → Bytes
current r = drop r.position r.bytes

abbrev pub advance : ℕ → ByteReader → ByteReader
advance n r = record { bytes = r.bytes; position = r.position + n }

abbrev pub byte_at : ℕ → ByteReader → ℕ
byte_at i r = get_or (current r) i 0

unfoldable pub peek_u8 : ByteReader → Option ℕ
peek_u8 r = if ltb (remaining r) 1 then none else some (byte_at 0 r)

abbrev pub read_peeked : ByteReader → Option ℕ → Option (ℕ × ByteReader)
read_peeked r none = none
read_peeked r (some v) = some (v, advance 1 r)

unfoldable pub read_u8 : ByteReader → Option (ℕ × ByteReader)
read_u8 r = read_peeked r (peek_u8 r)

unfoldable pub read_u16 : ByteReader → Option (ℕ × ByteReader)
read_u16 r =
    if ltb (remaining r) 2 then none else some (be16 (byte_at 0 r) (byte_at 1 r), advance 2 r)

unfoldable pub read_u32 : ByteReader → Option (ℕ × ByteReader)
read_u32 r =
    if ltb (remaining r) 4
    then none
    else some (be32 (byte_at 0 r) (byte_at 1 r) (byte_at 2 r) (byte_at 3 r), advance 4 r)

unfoldable pub skip : ℕ → ByteReader → Option ByteReader
skip n r = if ltb (remaining r) n then none else some (advance n r)

-- read_bytes, and read_view, which gives the same bytes without a copy.
unfoldable pub read_bytes : ℕ → ByteReader → Option (Bytes × ByteReader)
read_bytes n r = if ltb (remaining r) n then none else some (take n (current r), advance n r)
