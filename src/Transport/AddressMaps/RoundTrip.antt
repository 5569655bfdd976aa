-- ===== src/Transport/AddressMaps/RoundTrip.antt =====
-- A section of the address map table, as a sender writes it, is read back.

use libaribtlv.Transport.Data.{give}
use libaribtlv.Transport.AddressMaps.{parse_address_map}
use libaribtlv.Reader.{be16}
use libaribtlv.Base.{
  ℕ, ◌+◌, ◌-◌, ◌*◌, ◌/◌, ◌%◌, ◌≤◌, ◌<◌, ◌≡◌, refl, Bool, true, false, List, ◌∷◌, ◌++◌, ◌==◌, length,
  take, length-append, Bytes, All, arith,
}
use libaribtlv.Transport.AddressMaps.Services.{
  Service, IsService, write_services, services_of, take_front, ltb-false, be16-split,
  services_from-write,
}

-- A section before it is written. The checksum is not read here.
pub record Section : Type 0 where
  pub extension : ℕ
  pub version : ℕ
  pub current : Bool
  pub number : ℕ
  pub last : ℕ
  pub services : List Service
  pub checksum : Bytes

abbrev pub bit : Bool → ℕ
bit true = 1
bit false = 0

abbrev pub write_section : Section → Bytes
write_section t =
    let body = write_services t.services in
    0xfe
    ∷ (176 + (length body + 11) / 256)
    ∷ ((length body + 11) % 256)
    ∷ (t.extension / 256)
    ∷ (t.extension % 256)
    ∷ (192 + 2 * t.version + bit t.current)
    ∷ t.number
    ∷ t.last
    ∷ (length t.services * 64 / 256)
    ∷ (length t.services * 64 % 256)
    ∷ (body ++ t.checksum)

-- What the widths of its fields admit.
pub record IsSent (t : Section) : Type 0 where
  pub extension_fits : t.extension < 65536
  pub version_fits : t.version < 32
  pub in_order : t.number ≤ t.last
  pub last_fits : t.last < 256
  pub services_fit : length t.services < 1024
  pub are_services : All IsService t.services
  pub checksum_width : length t.checksum ≡ 4

version_bits : (v : ℕ) (c : Bool) → v < 32 → (192 + 2 * v + bit c) / 2 % 32 ≡ v
version_bits v true h = omega arith
version_bits v false h = omega arith

current_bit : (v : ℕ) (c : Bool) → ((192 + 2 * v + bit c) % 2 == 1) ≡ c
current_bit v true = ground arith
current_bit v false = ground arith

-- A section of the address map table that is written with services of either version of IP, with
-- prefixes in bounds and with its numbers in order, is read back with every field and every service,
-- and nothing is reported.
pub parse_address_map-write :
    (offset : ℕ) (t : Section)
    → IsSent t
    → parse_address_map (write_section t) offset
      ≡ give (record {
        table_id_extension = t.extension;
        version = t.version;
        current_next = t.current;
        section_number = t.number;
        last_section_number = t.last;
        services = services_of t.services;
        input_offset = offset;
      })
unfolding parse_address_map
parse_address_map-write offset t w =
    rw (ltb-false (length (write_section t)) 14 (omega (arith, size))) (
      rw (ltb-false t.last t.number w.in_order) (
        rw counted (
          rw payload (
            rw (services_from-write offset t.services w.are_services) (
              rw (be16-split t.extension) (
                rw (version_bits t.version t.current w.version_fits)
                  (rw (current_bit t.version t.current) refl)))))))
  where
    body : Bytes
    body = write_services t.services

    size : length (body ++ t.checksum) ≡ length body + 4
    size = omega (arith, length-append body t.checksum, w.checksum_width)

    counted :
        be16 (length t.services * 64 / 256) (length t.services * 64 % 256) / 64 ≡ length t.services
    counted = omega arith

    payload : take (length (write_section t) - 14) (body ++ t.checksum) ≡ body
    payload = take_front (length (write_section t) - 14) body t.checksum (omega (arith, size))
