-- ===== src/ByteReader/RoundTrip.antt =====
-- What a sender writes field by field is read field by field.
use libaribtlv.Reader.{be16, be32}
use libaribtlv.Base.{
  ℕ, ◌/◌, ◌%◌, ◌≤◌, ◌<◌, ◌^◌, ◌≡◌, refl, ap, ◌∙◌, List, [], ◌∷◌, ◌++◌, some, ltb, false, length,
  take, drop, length-append, length-drop, drop-drop, take-append, drop-append, append_assoc, Bytes,
  All, arith,
}
use libaribtlv.ByteReader.{
  ByteReader, remaining, current, advance, peek_u8, read_u8, read_u16, read_u32, skip, read_bytes,
}

-- A field, with its value; of a skipped one the bytes do not matter.
pub data Field : Type 0 where
  u8_field u16_field u32_field : ℕ → Field
  bytes_field skipped_field : Bytes → Field

abbrev pub Fits : Field → Type 0
Fits (u8_field n) = Unit
Fits (u16_field n) = n < 2 ^ 16
Fits (u32_field n) = n < 2 ^ 32
Fits (bytes_field xs) = Unit
Fits (skipped_field xs) = Unit

abbrev pub write : Field → Bytes
write (u8_field n) = n ∷ []
write (u16_field n) = (n / 256) ∷ (n % 256) ∷ []
write (u32_field n) = (n / 16777216) ∷ (n / 65536 % 256) ∷ (n / 256 % 256) ∷ (n % 256) ∷ []
write (bytes_field xs) = xs
write (skipped_field xs) = xs

abbrev pub write_all : List Field → Bytes
write_all [] = []
write_all (f ∷ fs) = write f ++ write_all fs

-- The read of a field accepts it, and goes on behind it.
abbrev pub Reads : Field → ByteReader → Type 0
Reads (u8_field n) r = read_u8 r ≡ some (n, advance 1 r)
Reads (u16_field n) r = read_u16 r ≡ some (n, advance 2 r)
Reads (u32_field n) r = read_u32 r ≡ some (n, advance 4 r)
Reads (bytes_field xs) r = read_bytes (length xs) r ≡ some (xs, advance (length xs) r)
Reads (skipped_field xs) r = skip (length xs) r ≡ some (advance (length xs) r)

abbrev pub ReadsAll : List Field → ByteReader → Type 0
ReadsAll [] r = Unit
ReadsAll (f ∷ fs) r = Reads f r × ReadsAll fs (advance (length (write f)) r)

enough :
    (r : ByteReader) (xs post : Bytes)
    → current r ≡ xs ++ post
    → ltb (remaining r) (length xs) ≡ false
enough r xs post e =
    not_below (remaining r) (length xs)
      (omega (arith, length-drop r.position r.bytes, ap length e, length-append xs post))
  where
    not_below : (a b : ℕ) → b ≤ a → ltb a b ≡ false
    not_below a b h = ground arith

current-advance :
    (r : ByteReader) (xs post : Bytes)
    → current r ≡ xs ++ post
    → current (advance (length xs) r) ≡ post
current-advance r xs post e =
    drop-drop r.position (length xs) r.bytes ∙ ap (drop (length xs)) e ∙ drop-append xs post

read-write :
    (f : Field) (r : ByteReader) (post : Bytes) → Fits f → current r ≡ write f ++ post → Reads f r
unfolding read_u8 peek_u8 read_u16 read_u32 read_bytes skip
read-write (u8_field n) r post w e = rw (enough r (n ∷ []) post e) (rw e refl)
read-write (u16_field n) r post w e = rw (enough r ((n / 256) ∷ (n % 256) ∷ []) post e) (
    rw e
      (ap (λ v. some (v, advance 2 r)) (let v : be16 (n / 256) (n % 256) ≡ n = omega arith in v)))
read-write (u32_field n) r post w e =
    rw (enough r ((n / 16777216) ∷ (n / 65536 % 256) ∷ (n / 256 % 256) ∷ (n % 256) ∷ []) post e) (
      rw e (
        ap (λ v. some (v, advance 4 r))
          (let v : be32 (n / 16777216) (n / 65536 % 256) (n / 256 % 256) (n % 256) ≡ n =
              omega arith in
            v)))
read-write (bytes_field xs) r post w e =
    rw (enough r xs post e)
      (ap (λ v. some (v, advance (length xs) r)) (ap (take (length xs)) e ∙ take-append xs post))
read-write (skipped_field xs) r post w e = rw (enough r xs post e) refl

-- When the bytes at the position of a reader are those of fields that fit their widths, and then any
-- others, the reads of the fields all succeed, one behind the other, and give the values written.
pub reads-writes :
    (fs : List Field) (r : ByteReader) (post : Bytes)
    → All Fits fs
    → current r ≡ write_all fs ++ post
    → ReadsAll fs r
reads-writes [] r post w e = tt
reads-writes (f ∷ fs) r post w e = (
  read-write f r (write_all fs ++ post) w.0 joined,
  reads-writes fs (advance (length (write f)) r) post w.1
      (current-advance r (write f) (write_all fs ++ post) joined),
)
  where
    joined : current r ≡ write f ++ (write_all fs ++ post)
    joined = e ∙ append_assoc (write f) (write_all fs) post
