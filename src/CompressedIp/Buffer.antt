-- ===== src/CompressedIp/Buffer.antt =====
-- The TLV-SI of the transport: a packet is consumed, whatever waits before it.
use mathlib.Core.Path.{subst}
use libaribtlv.Base.{
  ℕ, ◌/◌, ◌%◌, ◌&&◌, ◌<◌, ◌≡◌, refl, sym, ap, ◌∙◌, ◌||◌, List, [], ◌∷◌, none, some, ltb, ◌==◌,
  if_both, length, length-append, Bytes, arith,
}
use libaribtlv.Transport.Sections.{
  SectionBuffer, Found, section, discarded, repeat, received, process_sections,
}
use libaribtlv.Transport.Sections.Sound.{Sound, process_sections-Sound}
use libaribtlv.Transport.Sections.Delivery.{length-repeat}
use libaribtlv.Transport.Nit.{u8_at, u16_at, parse_nit}
use libaribtlv.Transport.AddressMaps.{parse_address_map}
use libaribtlv.Transport.Data.{Logged, TableEvent}
use libaribtlv.Transport.Session.{
  TlvTransportParser, TransportEvent, accept_parsed, accept_nit, accept_address_map,
  process_section, deal, deal_with, consume_tlv_si,
}

-- What the transport's part keeps: the buffer of the sections.
accept_nit-buffer :
    (s : _) (p : TlvTransportParser) → (accept_nit s p).0.section_buffer ≡ p.section_buffer
unfolding accept_nit
accept_nit-buffer s p = refl

accept_address_map-buffer :
    (s : _) (p : TlvTransportParser) → (accept_address_map s p).0.section_buffer ≡ p.section_buffer
unfolding accept_address_map
accept_address_map-buffer s p = refl

accept_parsed-buffer :
    {S : Type 0} (f : S → TlvTransportParser → TlvTransportParser × List TableEvent) (r : Logged S)
    (p : TlvTransportParser)
    → ((s : S) → (f s p).0.section_buffer ≡ p.section_buffer)
    → (accept_parsed f r p).0.section_buffer ≡ p.section_buffer
accept_parsed-buffer f (es, none) p h = refl
accept_parsed-buffer f (es, some s) p h = h s

process_section-buffer :
    (bytes : Bytes) (input_offset : ℕ) (p : TlvTransportParser)
    → (process_section bytes input_offset p).0.section_buffer ≡ p.section_buffer
unfolding process_section
process_section-buffer bytes input_offset p =
    if_both Keeps (ltb (length bytes) 8 || u8_at bytes 1 / 128 % 2 == 0) refl (
      if_both Keeps (u8_at bytes 0 == 0x40 || u8_at bytes 0 == 0x41)
        (accept_parsed-buffer accept_nit (parse_nit bytes input_offset) p
          (λ s. accept_nit-buffer s p))
        (if_both Keeps (u8_at bytes 0 == 0xfe && u16_at bytes 3 == 0)
          (accept_parsed-buffer accept_address_map (parse_address_map bytes input_offset) p
            (λ s. accept_address_map-buffer s p))
          refl))
  where
    Keeps : TlvTransportParser × List TableEvent → Type 0
    Keeps r = r.0.section_buffer ≡ p.section_buffer

deal-buffer :
    (found : List Found) (p : TlvTransportParser)
    → (deal found p).0.section_buffer ≡ p.section_buffer
unfolding deal
deal-buffer [] p = refl
deal-buffer (discarded origin m ∷ rest) p = deal-buffer rest p
deal-buffer (section bytes origin ∷ rest) p =
    deal-buffer rest (process_section bytes origin p).0 ∙ process_section-buffer bytes origin p

-- An origin for each byte that waits, and less than the longest section.
abbrev pub IsBuffer : SectionBuffer → Type 0
IsBuffer b = (length b.origins ≡ length b.bytes) × (length b.bytes < 1024)

pub consume_tlv_si-Returns :
    (payload : Bytes) (input_offset : ℕ) (p : TlvTransportParser)
    → length p.section_buffer.origins ≡ length p.section_buffer.bytes
    → (q : TlvTransportParser) × (es : List TransportEvent) × (consume_tlv_si payload input_offset p
        ≡ some (q, es))
      × IsBuffer q.section_buffer
unfolding consume_tlv_si
consume_tlv_si-Returns payload input_offset p m = (
  (deal s.events (record p { section_buffer = s.rest })).0,
  (deal s.events (record p { section_buffer = s.rest })).1,
  ap (deal_with p) s.ends,
  subst IsBuffer (sym (deal-buffer s.events (record p { section_buffer = s.rest })))
      (s.marked, s.bounded),
)
  where
    b : SectionBuffer
    b = received payload input_offset p.section_buffer

    both : length b.origins ≡ length b.bytes
    both = omega (
      arith,
      m,
      length-append p.section_buffer.origins (repeat (length payload) input_offset),
      length-append p.section_buffer.bytes payload,
      length-repeat (length payload) input_offset,
    )

    s : Sound b (process_sections b)
    s = process_sections-Sound b both
