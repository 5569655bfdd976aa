-- ===== src/Mmtp/Packet/Tests.antt =====
-- Packets written and read.
use libaribtlv.Base.{◌≡◌, refl, true, false, some, [], ◌∷◌, arith}
use libaribtlv.Mmtp.Packet.Extensions.{protection, download}
use libaribtlv.Mmtp.Packet.RoundTrip.{Packet, write, handed, push-write}
use libaribtlv.Mmtp.Packet.Slices.{Sound, push-Sound}
use libaribtlv.Mmtp.Packet.{Handed, push}

-- A counter, two extensions, and a trailer behind the authenticated payload.
abbrev authentic : Packet
authentic = record {
  random_access = true;
  is_signalling = false;
  packet_id = 513;
  delivery_timestamp = 305419896;
  sequence = 4294967295;
  counter = some 7;
  extension = some (true, protection (some 9) (some 3) ∷ download 77 ∷ []);
  payload = 1 ∷ 2 ∷ 3 ∷ [];
  trailer = 250 ∷ 251 ∷ [];
}

push-write_example : push (write authentic) 1000 ≡ some (handed authentic 1000)
push-write_example = push-write authentic 1000 (record {
  id_fits = omega arith;
  timestamp_fits = omega arith;
  sequence_fits = omega arith;
  extension_fits = (omega arith, ((omega arith, omega arith), (omega arith, tt)));
  trails = refl;
})

push-Sound_example :
    (h : Handed) × (push
        (32 ∷ 2 ∷ 0 ∷ 9 ∷ 0 ∷ 0 ∷ 0 ∷ 0 ∷ 0 ∷ 0 ∷ 0 ∷ 1 ∷ 5 ∷ 6 ∷ 7 ∷ 8 ∷ 10 ∷ 11 ∷ [])
        50
      ≡ some h)
    × Sound (32 ∷ 2 ∷ 0 ∷ 9 ∷ 0 ∷ 0 ∷ 0 ∷ 0 ∷ 0 ∷ 0 ∷ 0 ∷ 1 ∷ 5 ∷ 6 ∷ 7 ∷ 8 ∷ 10 ∷ 11 ∷ []) h
push-Sound_example =
    push-Sound (32 ∷ 2 ∷ 0 ∷ 9 ∷ 0 ∷ 0 ∷ 0 ∷ 0 ∷ 0 ∷ 0 ∷ 0 ∷ 1 ∷ 5 ∷ 6 ∷ 7 ∷ 8 ∷ 10 ∷ 11 ∷ []) 50
