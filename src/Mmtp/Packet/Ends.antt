-- ===== src/Mmtp/Packet/Ends.antt =====
-- src/mmtp_parser.cpp: the loop over the extension entries ends.

use libaribtlv.Reader.{be16}
use libaribtlv.Base.{
  ℕ, zero, suc, ◌<◌, ◌≡◌, refl, Bool, true, false, if_both, Option, none, some, [], ◌∷◌, length,
  take, drop, length-drop, Bytes, arith,
}
use libaribtlv.Mmtp.Packet.{
  PacketExtensions, no_extensions, entry_done, read_entries, parse_packet_extensions, extended_by,
  read_extension_header,
}

abbrev pub Ends {ℓ} : {A : Type ℓ} → Option A → Type ℓ
Ends {A = A} o = (a : A) × (o ≡ some a)

entry_done-Ends :
    (end : Bool) (rest : Bytes) (continue : PacketExtensions → Option (Option PacketExtensions))
    (o : Option PacketExtensions)
    → ((r : PacketExtensions) → Ends (continue r))
    → Ends (entry_done end rest continue o)
entry_done-Ends end rest continue none k = (none, refl)
entry_done-Ends true rest continue (some r) k = (_, refl)
entry_done-Ends false rest continue (some r) k = k r

read_entries-Ends :
    (fuel : ℕ) (bytes : Bytes) (r : PacketExtensions)
    → length bytes < fuel
    → Ends (read_entries fuel bytes r)
unfolding read_entries
read_entries-Ends zero bytes r h = absurd (omega arith)
read_entries-Ends (suc fuel) [] r h = (_, refl)
read_entries-Ends (suc fuel) (a ∷ []) r h = (_, refl)
read_entries-Ends (suc fuel) (a ∷ b ∷ []) r h = (_, refl)
read_entries-Ends (suc fuel) (a ∷ b ∷ c ∷ []) r h = (_, refl)
read_entries-Ends (suc fuel) (a ∷ b ∷ c ∷ d ∷ rest) r h =
    if_both Ends _ (none, refl)
      (entry_done-Ends _ (drop size rest) (read_entries fuel (drop size rest)) _
        (λ s. read_entries-Ends fuel (drop size rest) s (omega (arith, length-drop size rest))))
  where
    size : ℕ
    size = be16 c d

parse_packet_extensions-Ends :
    (kind : ℕ) (bytes : Bytes) → Ends (parse_packet_extensions kind bytes)
unfolding parse_packet_extensions
parse_packet_extensions-Ends kind bytes =
    if_both Ends _ (_, refl)
      (read_entries-Ends (suc (length bytes)) bytes no_extensions (omega arith))

extended_by-Ends :
    (rest : Bytes) (o : Option (Option PacketExtensions)) → Ends o → Ends (extended_by rest o)
extended_by-Ends rest none e = cc e.1
extended_by-Ends rest (some none) e = (_, refl)
extended_by-Ends rest (some (some r)) e = (_, refl)

pub read_extension_header-Ends : (b : Bool) (rest : Bytes) → Ends (read_extension_header b rest)
unfolding read_extension_header
read_extension_header-Ends false rest = (_, refl)
read_extension_header-Ends true (b0 ∷ b1 ∷ b2 ∷ b3 ∷ rest) =
    if_both Ends _ (_, refl)
      (extended_by-Ends (drop (be16 b2 b3) rest)
        (parse_packet_extensions (be16 b0 b1) (take (be16 b2 b3) rest))
        (parse_packet_extensions-Ends (be16 b0 b1) (take (be16 b2 b3) rest)))
read_extension_header-Ends true (b0 ∷ b1 ∷ b2 ∷ []) = (_, refl)
read_extension_header-Ends true (b0 ∷ b1 ∷ []) = (_, refl)
read_extension_header-Ends true (b0 ∷ []) = (_, refl)
read_extension_header-Ends true [] = (_, refl)
