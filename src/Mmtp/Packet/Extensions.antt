-- ===== src/Mmtp/Packet/Extensions.antt =====
-- The entries of a multi-type extension header, written by a sender and read back.
use libaribtlv.Reader.{be16, be32}
use libaribtlv.Base.{
  ℕ, zero, suc, ◌+◌, ◌*◌, ◌/◌, ◌%◌, ◌<◌, ◌^◌, ◌≡◌, refl, ap, ◌∙◌, Bool, true, false, Option, none,
  some, List, [], ◌∷◌, ◌++◌, ltb, ◌==◌, length, take-append, drop-append, length-append, Bytes,
  arith, All,
}
use libaribtlv.Mmtp.Packet.{
  PacketExtensions, read_authenticated, read_scramble, read_entry, entry_done, read_entries,
}

-- What a sender puts into the header: the scramble system's identifier and the authenticated size, a
-- download, an item's fragment numbers, or an entry of another type.
pub data Extension : Type 0 where
  protection : Option ℕ → Option ℕ → Extension
  download : ℕ → Extension
  item : ℕ → ℕ → Extension
  other : ℕ → Bytes → Extension

abbrev pub bytes32 : ℕ → Bytes → Bytes
bytes32 n rest = (n / 16777216) ∷ (n / 65536 % 256) ∷ (n / 256 % 256) ∷ (n % 256) ∷ rest

abbrev pub kind_of : Extension → ℕ
kind_of (protection s a) = 1
kind_of (download n) = 2
kind_of (item n m) = 3
kind_of (other k b) = k

abbrev pub scramble_bytes : Option ℕ → Bytes → Bytes
scramble_bytes none rest = rest
scramble_bytes (some s) rest = s ∷ rest

abbrev pub authentication_bytes : Option ℕ → Bytes
authentication_bytes none = []
authentication_bytes (some n) = (n / 256) ∷ (n % 256) ∷ []

abbrev pub present : Option ℕ → ℕ
present none = 0
present (some n) = 1

abbrev pub body_of : Extension → Bytes
body_of (protection s a) =
    (present s * 4 + present a * 2) ∷ scramble_bytes s (authentication_bytes a)
body_of (download n) = bytes32 n []
body_of (item n m) = bytes32 n (bytes32 m [])
body_of (other k b) = b

abbrev pub authenticate : Option ℕ → PacketExtensions → PacketExtensions
authenticate none r = r
authenticate (some n) r = record r { authenticated_payload_size = some n }

-- What the entry means.
abbrev pub meaning : Extension → PacketExtensions → PacketExtensions
meaning (protection s a) r = authenticate a r
meaning (download n) r = record r { download_id = some n }
meaning (item n m) r = record r {
  item_fragment_number = some n;
  last_item_fragment_number = some m;
}
meaning (other k b) r = r

abbrev pub meanings : List Extension → PacketExtensions → PacketExtensions
meanings [] r = r
meanings (e ∷ es) r = meanings es (meaning e r)

abbrev pub Below : ℕ → Option ℕ → Type 0
Below n none = Unit
Below n (some k) = k < n

-- An entry whose type and size have room in their fields.
abbrev pub Fits : Extension → Type 0
Fits (protection s a) = Below 256 s × Below (2 ^ 16) a
Fits (download n) = n < 2 ^ 32
Fits (item n m) = (n < 2 ^ 32) × (m < 2 ^ 32)
Fits (other k b) = (3 < k) × (k < 2 ^ 15) × (length b < 2 ^ 16)

abbrev pub flag : Bool → ℕ
flag true = 32768
flag false = 0

abbrev pub entry : Bool → Extension → Bytes → Bytes
entry end e rest =
    ((kind_of e + flag end) / 256)
    ∷ ((kind_of e + flag end) % 256)
    ∷ (length (body_of e) / 256)
    ∷ (length (body_of e) % 256)
    ∷ (body_of e ++ rest)

-- The entries; the last may carry the end flag.
abbrev pub entries : Bool → List Extension → Bytes
entries closing [] = []
entries closing (e ∷ []) = entry closing e []
entries closing (e ∷ e' ∷ es) = entry false e (entries closing (e' ∷ es))

be16-bytes : (n : ℕ) → be16 (n / 256) (n % 256) ≡ n
be16-bytes n = omega arith

be32-bytes : (n : ℕ) → be32 (n / 16777216) (n / 65536 % 256) (n / 256 % 256) (n % 256) ≡ n
be32-bytes n = omega arith

kind_small : (e : Extension) → Fits e → kind_of e < 2 ^ 15
kind_small (protection s a) f = omega arith
kind_small (download n) f = omega arith
kind_small (item n m) f = omega arith
kind_small (other k b) f = f.1

flag_read : (b : Bool) (k : ℕ) → k < 2 ^ 15 → ((k + flag b) / 32768 % 2 == 1) ≡ b
flag_read true k h = ground arith
flag_read false k h = ground arith

kind_read : (b : Bool) (k : ℕ) → k < 2 ^ 15 → (k + flag b) % 32768 ≡ k
kind_read true k h = omega arith
kind_read false k h = omega arith

read_entry-body :
    (e : Extension) (r : PacketExtensions)
    → Fits e
    → read_entry (kind_of e) (body_of e) r ≡ some (meaning e r)
unfolding read_entry read_scramble read_authenticated
read_entry-body (protection none none) r f = refl
read_entry-body (protection none (some n)) r f =
    ap (λ k. some (record r { authenticated_payload_size = some k })) (be16-bytes n)
read_entry-body (protection (some s) none) r f = refl
read_entry-body (protection (some s) (some n)) r f =
    ap (λ k. some (record r { authenticated_payload_size = some k })) (be16-bytes n)
read_entry-body (download n) r f = ap (λ k. some (record r { download_id = some k })) (be32-bytes n)
read_entry-body (item n m) r f =
    ap
      (λ k. some (record r {
        item_fragment_number = some k;
        last_item_fragment_number =
            some (be32 (m / 16777216) (m / 65536 % 256) (m / 256 % 256) (m % 256));
      }))
      (be32-bytes n)
    ∙ ap
        (λ k. some (record r { item_fragment_number = some n; last_item_fragment_number = some k }))
        (be32-bytes m)
read_entry-body (other k b) r f =
    rw (differs 1 (omega arith), differs 2 (omega arith), differs 3 (omega arith)) refl
  where
    differs : (n : ℕ) → n < k → (k == n) ≡ false
    differs n h = ground arith

within : (u rest : Bytes) → ltb (length (u ++ rest)) (length u) ≡ false
within u rest = let e = length-append u rest in ground arith

-- One round of the loop on an entry.
read_entries-entry :
    (fuel : ℕ) (end : Bool) (e : Extension) (rest : Bytes) (r : PacketExtensions)
    → Fits e
    → read_entries (suc fuel) (entry end e rest) r
      ≡ entry_done end rest (read_entries fuel rest) (some (meaning e r))
unfolding read_entries
read_entries-entry fuel end e rest r f =
    rw (be16-bytes (kind_of e + flag end), be16-bytes (length (body_of e)))
      (rw
        (
          within (body_of e) rest,
          flag_read end (kind_of e) (kind_small e f),
          kind_read end (kind_of e) (kind_small e f),
          take-append (body_of e) rest,
          drop-append (body_of e) rest,
          read_entry-body e r f,
        )
        refl)

pub read_entries-entries :
    (fuel : ℕ) (closing : Bool) (es : List Extension) (r : PacketExtensions)
    → length (entries closing es) < fuel
    → All Fits es
    → read_entries fuel (entries closing es) r ≡ some (some (meanings es r))
unfolding read_entries
read_entries-entries zero closing es r h f = absurd (omega arith)
read_entries-entries (suc fuel) closing [] r h f = refl
read_entries-entries (suc fuel) true (e ∷ []) r h f = read_entries-entry fuel true e [] r f.0
read_entries-entries (suc fuel) false (e ∷ []) r h f =
    read_entries-entry fuel false e [] r f.0
    ∙ read_entries-entries fuel false [] (meaning e r) (omega arith) tt
read_entries-entries (suc fuel) closing (e ∷ e' ∷ es) r h f =
    read_entries-entry fuel false e (entries closing (e' ∷ es)) r f.0
    ∙ read_entries-entries fuel closing (e' ∷ es) (meaning e r)
        (omega (arith, length-append (body_of e) (entries closing (e' ∷ es)))) f.1
