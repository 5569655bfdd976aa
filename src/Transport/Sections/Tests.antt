-- ===== src/Transport/Sections/Tests.antt =====
-- A stray byte before a part of a section, and a section in two packets.
use libaribtlv.Base.{ℕ, zero, suc, ◌≡◌, refl, arith, List, some, [], ◌∷◌, Bytes}
use libaribtlv.Transport.Crc.{crc32_mpeg, crc_from, crc_byte, crc_bits, crc_bit}
use libaribtlv.Transport.Sections.{
  SectionBuffer, process_sections, receive_all, plausible, checked, complete,
  find_complete_boundary,
}
use libaribtlv.Transport.Sections.Whole.{IsQuiet}
use libaribtlv.Transport.Sections.Delivery.{
  deliveries, offsets, nothing_received, receive_all-sections,
}
use libaribtlv.Transport.Sections.Sound.{IsSection, Sound, process_sections-Sound}

abbrev stray : SectionBuffer
stray = record { bytes = 7 ∷ 64 ∷ 176 ∷ 9 ∷ 0 ∷ []; origins = 100 ∷ 300 ∷ 300 ∷ 300 ∷ 300 ∷ [] }

process_sections-Sound_example : Sound stray (process_sections stray)
process_sections-Sound_example = process_sections-Sound stray refl

-- A section without content, and its bytes in two packets.
abbrev bare : Bytes
bare = 66 ∷ 176 ∷ 9 ∷ 0 ∷ 1 ∷ 193 ∷ 0 ∷ 0 ∷ 230 ∷ 129 ∷ 127 ∷ 193 ∷ []

abbrev cut_packets : List (Bytes × ℕ)
cut_packets =
    (66 ∷ 176 ∷ 9 ∷ 0 ∷ 1 ∷ [], 100) ∷ (193 ∷ 0 ∷ 0 ∷ 230 ∷ 129 ∷ 127 ∷ 193 ∷ [], 300) ∷ []

bare-IsSection : IsSection bare
unfolding plausible checked crc32_mpeg crc_from crc_byte crc_bits crc_bit
bare-IsSection = record { plausible_header = refl; exact = refl; passes = refl }

bare-IsQuiet : IsQuiet bare
unfolding find_complete_boundary complete plausible checked crc32_mpeg crc_from crc_byte crc_bits
    crc_bit
bare-IsQuiet zero h = refl
bare-IsQuiet (suc zero) h = refl
bare-IsQuiet (suc (suc zero)) h = refl
bare-IsQuiet (suc (suc (suc zero))) h = refl
bare-IsQuiet (suc (suc (suc (suc zero)))) h = refl
bare-IsQuiet (suc (suc (suc (suc (suc zero))))) h = refl
bare-IsQuiet (suc (suc (suc (suc (suc (suc zero)))))) h = refl
bare-IsQuiet (suc (suc (suc (suc (suc (suc (suc zero))))))) h = refl
bare-IsQuiet (suc (suc (suc (suc (suc (suc (suc (suc zero)))))))) h = refl
bare-IsQuiet (suc (suc (suc (suc (suc (suc (suc (suc (suc zero))))))))) h = refl
bare-IsQuiet (suc (suc (suc (suc (suc (suc (suc (suc (suc (suc zero)))))))))) h = refl
bare-IsQuiet (suc (suc (suc (suc (suc (suc (suc (suc (suc (suc (suc zero))))))))))) h = refl
bare-IsQuiet (suc (suc (suc (suc (suc (suc (suc (suc (suc (suc (suc (suc n)))))))))))) h =
    absurd (omega arith)

receive_all-sections_example :
    receive_all cut_packets nothing_received
    ≡ some (nothing_received, deliveries (bare ∷ []) (offsets cut_packets))
receive_all-sections_example =
    receive_all-sections cut_packets (bare ∷ [])
      (record { is_section = bare-IsSection; is_quiet = bare-IsQuiet }, tt) refl
