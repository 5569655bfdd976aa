-- ===== src/CompressedIp/Valid.antt =====
-- Every packet is consumed, and the tables of the parser stay within their limits.

use libaribtlv.PacketStates.Limit.{run_calls-Within}
use libaribtlv.Base.{
  ℕ, suc, ◌+◌, ◌-◌, drop, ◌/◌, ◌%◌, ◌≤◌, ◌<◌, ◌≡◌, refl, ap, false, Bool-cases, inl, inr, ◌⊎◌, List,
  [], ◌∷◌, Option, none, some, ltb, leb, ◌==◌, if_both, length, Bytes, arith,
}
use libaribtlv.Types.{Limits}
use libaribtlv.Transport.Nit.{u8_at, u16_at}
use libaribtlv.Transport.Flows.{FlowEvent, TransportNtpClock, consume_ipv6, observe_compressed_flow}
use libaribtlv.Transport.Session.{consume_tlv_si, consume_null, consume_ipv4}
use libaribtlv.CompressedIp.{
  MmtpCall, push_mmtp, MmtpCallback, states_of, CompressedIpParser, IpEvent, ip_error,
  unsupported_packet_type, of_transport, find_context, set_context, is_other_service, header_size,
  seeded, seed_all, make_context, context, push_context, push_payload, push_observed, push_mode,
  parse_compressed, with_transport, consume_clock, consume,
}
use libaribtlv.CompressedIp.Buffer.{IsBuffer, consume_tlv_si-Returns}

module _ (lim : Limits) where
  -- No more contexts and packet states than the limits admit, and a buffer of sections as above.
  pub record IsValid (p : CompressedIpParser) : Type 0 where
    pub few_contexts : length p.contexts ≤ lim.max_contexts
    pub few_states : p.active_packet_states ≤ lim.max_packet_states
    pub buffered : IsBuffer p.transport.section_buffer

  set_context-known :
      (id : ℕ) (m n : List MmtpCall) (xs : List (ℕ × List MmtpCall))
      → find_context id xs ≡ some n
      → length (set_context id m xs) ≡ length xs
  unfolding find_context set_context
  set_context-known id m n [] e = cc e
  set_context-known id m n ((k, l) ∷ xs) e = elim (Bool-cases (id == k)) [
    | inl y ↦ rw y refl
    | inr z ↦ rw z (ap suc (set_context-known id m n xs (rw z at e)))
  ]

  set_context-new :
      (id : ℕ) (m : List MmtpCall) (xs : List (ℕ × List MmtpCall))
      → length (set_context id m xs) ≤ suc (length xs)
  unfolding set_context
  set_context-new id m [] = omega arith
  set_context-new id m ((k, l) ∷ xs) =
      if_both (λ (r : List (ℕ × List MmtpCall)). length r ≤ suc (suc (length xs))) (id == k)
        (omega arith) (omega (arith, set_context-new id m xs))

  seed_all-length : (t : ℕ) (xs : List (ℕ × List MmtpCall)) → length (seed_all t xs) ≡ length xs
  unfolding seed_all
  seed_all-length t [] = refl
  seed_all-length t ((k, m) ∷ xs) = ap suc (seed_all-length t xs)

  pushed-IsValid :
      (during : List MmtpCallback) (id : ℕ) (payload : Bytes) (input_offset : ℕ)
      (p : CompressedIpParser) (o : Option (List MmtpCall))
      → find_context id p.contexts ≡ o
      → IsValid p
      → IsValid (push_context lim during id payload input_offset p (make_context lim id p o)).0
  pushed-IsValid during id payload input_offset p (some m) e v = record {
    few_contexts =
        rw (set_context-known id (push_mmtp payload input_offset ∷ m) m p.contexts e)
          v.few_contexts;
    few_states = run_calls-Within lim (states_of during) p.active_packet_states v.few_states;
    buffered = v.buffered;
  }
  pushed-IsValid during id payload input_offset p none e v =
      elim (Bool-cases (leb lim.max_contexts (length p.contexts))) [
        | inl y ↦ rw y v
        | inr z ↦ rw z (record {
          few_contexts = omega (
            arith,
            set_context-new id (push_mmtp payload input_offset ∷ seeded p.transport.latest_ntp)
                p.contexts,
            room (length p.contexts) z,
          );
          few_states = run_calls-Within lim (states_of during) p.active_packet_states v.few_states;
          buffered = v.buffered;
        })
      ]
    where
      room : (n : ℕ) → leb lim.max_contexts n ≡ false → n < lim.max_contexts
      room n h = ground arith

  push_payload-IsValid :
      (during : List MmtpCallback) (id : ℕ) (payload : Bytes) (input_offset size : ℕ)
      (p : CompressedIpParser)
      → IsValid p
      → IsValid (push_payload lim during id payload input_offset size p).0
  unfolding push_payload context
  push_payload-IsValid during id payload input_offset size p v =
      if_both (λ (r : CompressedIpParser × List IpEvent). IsValid r.0)
        (ltb (length payload - 3) size) v
        (pushed-IsValid during id (drop (3 + size) payload) input_offset p
          (find_context id p.contexts) refl v)

  push_observed-IsValid :
      (during : List MmtpCallback) (id sequence_number : ℕ) (payload : Bytes)
      (input_offset size : ℕ) (p : CompressedIpParser)
      → IsValid p
      → IsValid (push_observed lim during id sequence_number payload input_offset size p).0
  unfolding push_observed
  push_observed-IsValid during id sequence_number payload input_offset size p v =
      let o = observe_compressed_flow payload input_offset id sequence_number p.transport.flows in
      let q : CompressedIpParser = record p { transport = record p.transport { flows = o.0.0 } } in
      let w : IsValid q = record {
        few_contexts = v.few_contexts;
        few_states = v.few_states;
        buffered = v.buffered;
      } in
      if_both (λ (r : CompressedIpParser × List IpEvent). IsValid r.0) o.1
        (push_payload-IsValid during id payload input_offset size q w) w

  push_mode-IsValid :
      (during : List MmtpCallback) (id sequence_number : ℕ) (payload : Bytes)
      (input_offset mode : ℕ) (p : CompressedIpParser) (o : Option ℕ)
      → IsValid p
      → IsValid (push_mode lim during id sequence_number payload input_offset mode p o).0
  push_mode-IsValid during id sequence_number payload input_offset mode p none v = v
  push_mode-IsValid during id sequence_number payload input_offset mode p (some size) v =
      if_both (λ (r : CompressedIpParser × List IpEvent). IsValid r.0) (mode == 0x60)
        (push_observed-IsValid during id sequence_number payload input_offset size p v)
        (push_payload-IsValid during id payload input_offset size p v)

  parse_compressed-IsValid :
      (during : List MmtpCallback) (payload : Bytes) (input_offset : ℕ) (p : CompressedIpParser)
      → IsValid p
      → IsValid (parse_compressed lim during payload input_offset p).0
  unfolding parse_compressed
  parse_compressed-IsValid during payload input_offset p v =
      if_both (λ (r : CompressedIpParser × List IpEvent). IsValid r.0) (ltb (length payload) 3) v
        (if_both (λ (r : CompressedIpParser × List IpEvent). IsValid r.0)
          (is_other_service p.selected_service (u16_at payload 0 / 16)) v
          (push_mode-IsValid during (u16_at payload 0 / 16) (u16_at payload 0 % 16) payload
            input_offset (u8_at payload 2) p (header_size (u8_at payload 2)) v))

  consume_clock-IsValid :
      (o : FlowEvent ⊎ TransportNtpClock) (p : CompressedIpParser)
      → IsValid p
      → IsValid (consume_clock lim o p).0
  consume_clock-IsValid (inl e) p v = v
  consume_clock-IsValid (inr clock) p v = record {
    few_contexts = rw (seed_all-length clock.transmit_timestamp p.contexts) v.few_contexts;
    few_states = v.few_states;
    buffered = v.buffered;
  }

  -- The packet is consumed, and the parser is valid again.
  abbrev pub Consumes : Option (CompressedIpParser × List IpEvent) → Type 0
  Consumes o = (q : CompressedIpParser) × (es : List IpEvent) × (o ≡ some (q, es)) × IsValid q

  returns : (r : CompressedIpParser × List IpEvent) → IsValid r.0 → Consumes (some r)
  returns r v = (r.0, r.1, refl, v)

  -- Whatever the MMTP parser of its context calls back, every packet, of any type and content, is
  -- consumed, the loop over the TLV-SI included; and a parser with no more contexts and packet states
  -- than the limits admit, an origin for each byte of the TLV-SI that waits and fewer of these than the
  -- longest section has, has all this again.
  pub consume-IsValid :
      (during : List MmtpCallback) (packet_type : ℕ) (payload : Bytes) (input_offset : ℕ)
      (p : CompressedIpParser)
      → IsValid p
      → Consumes (consume lim during packet_type payload input_offset p)
  unfolding consume consume_null
  consume-IsValid during packet_type payload input_offset p v =
      if_both Consumes (packet_type == 0x01)
        (returns (p, of_transport (consume_ipv4 input_offset)) v)
        (if_both Consumes (packet_type == 0x02)
          (returns (consume_clock lim (consume_ipv6 payload input_offset) p)
            (consume_clock-IsValid (consume_ipv6 payload input_offset) p v))
          (if_both Consumes (packet_type == 0x03)
            (returns (parse_compressed lim during payload input_offset p)
              (parse_compressed-IsValid during payload input_offset p v))
            (if_both Consumes (packet_type == 0xfe) tlv_si (
              if_both Consumes (packet_type == 0xff)
                (returns (record p { transport = consume_null p.transport }, [])
                  (record {
                    few_contexts = v.few_contexts;
                    few_states = v.few_states;
                    buffered = v.buffered;
                  }))
                (returns (p, ip_error unsupported_packet_type input_offset ∷ []) v)))))
    where
      tlv_si : Consumes (with_transport lim p (consume_tlv_si payload input_offset p.transport))
      tlv_si =
          let (t, es, e, b) =
            consume_tlv_si-Returns payload input_offset p.transport v.buffered.0 in
          (
            record p { transport = t },
            of_transport es,
            ap (with_transport lim p) e,
            record { few_contexts = v.few_contexts; few_states = v.few_states; buffered = b },
          )
