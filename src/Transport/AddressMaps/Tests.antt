-- ===== src/Transport/AddressMaps/Tests.antt =====
-- A section with a service of either version of IP.
use libaribtlv.Base.{◌≡◌, refl, arith, true, false, [], ◌∷◌}
use libaribtlv.Transport.Data.{give}
use libaribtlv.Transport.AddressMaps.{parse_address_map}
use libaribtlv.Transport.AddressMaps.Services.{Service, services_of}
use libaribtlv.Transport.AddressMaps.RoundTrip.{
  Section, IsSent, write_section, parse_address_map-write,
}

abbrev old_service : Service
old_service = record {
  id = 1024;
  six = false;
  source = 192 ∷ 168 ∷ 1 ∷ 2 ∷ [];
  source_prefix = 32;
  destination = 224 ∷ 0 ∷ 0 ∷ 9 ∷ [];
  destination_prefix = 24;
  private_bytes = 5 ∷ [];
}

abbrev new_service : Service
new_service = record {
  id = 101;
  six = true;
  source = 32 ∷ 1 ∷ 13 ∷ 184 ∷ 0 ∷ 0 ∷ 0 ∷ 0 ∷ 0 ∷ 0 ∷ 0 ∷ 0 ∷ 0 ∷ 0 ∷ 0 ∷ 1 ∷ [];
  source_prefix = 128;
  destination = 255 ∷ 14 ∷ 0 ∷ 0 ∷ 0 ∷ 0 ∷ 0 ∷ 0 ∷ 0 ∷ 0 ∷ 0 ∷ 0 ∷ 0 ∷ 0 ∷ 0 ∷ 2 ∷ [];
  destination_prefix = 64;
  private_bytes = [];
}

abbrev both : Section
both = record {
  extension = 0;
  version = 3;
  current = true;
  number = 0;
  last = 1;
  services = old_service ∷ new_service ∷ [];
  checksum = 1 ∷ 2 ∷ 3 ∷ 4 ∷ [];
}

both-IsSent : IsSent both
both-IsSent = record {
  extension_fits = omega arith;
  version_fits = omega arith;
  in_order = omega arith;
  last_fits = omega arith;
  services_fit = omega arith;
  are_services = (
    record {
      id_fits = omega arith;
      source_width = refl;
      destination_width = refl;
      source_fits = omega arith;
      destination_fits = omega arith;
      loop_fits = omega arith;
    },
    (
      record {
        id_fits = omega arith;
        source_width = refl;
        destination_width = refl;
        source_fits = omega arith;
        destination_fits = omega arith;
        loop_fits = omega arith;
      },
      tt,
    ),
  );
  checksum_width = refl;
}

parse_address_map-write_example :
    parse_address_map (write_section both) 188
    ≡ give (record {
      table_id_extension = 0;
      version = 3;
      current_next = true;
      section_number = 0;
      last_section_number = 1;
      services = services_of both.services;
      input_offset = 188;
    })
parse_address_map-write_example = parse_address_map-write 188 both both-IsSent
