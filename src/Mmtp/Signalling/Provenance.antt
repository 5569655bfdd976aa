-- ===== src/Mmtp/Signalling/Provenance.antt =====
-- Every unit has an origin: the loop over an aggregated body, the sequence tests, and all packets.
use mathlib.Core.Path.{subst}
use libaribtlv.Types.{Limits, discontinuity}
use libaribtlv.Base.{
  ℕ, zero, suc, ◌<◌, ◌^◌, ◌≡◌, refl, sym, ap, ◌∙◌, Bool, true, false, not, Bool-cases, if_both,
  if_with, inl, inr, Option, none, some, List, [], ◌∷◌, ◌++◌, append_assoc, ltb, ◌==◌, ==_iff, ◌||◌,
  if◌then◌else◌, length, take, drop, take-append-drop, Bytes, add_u32, arith, All, All-append,
  All-map,
}
use libaribtlv.Mmtp.Signalling.Origin.{
  Sub, Origin, Origin-later, carry, uncarry, Tracks, Good, Admitted, initial_other, not-false,
  refused-Tracks, receive_fragment-Good,
}
use libaribtlv.Mmtp.Signalling.Bounds.{Bounded, receive-Returns}
use libaribtlv.Mmtp.Signalling.{
  SignallingAssembler, Event, error, Payload, fragmentation, aggregation, length_extension,
  is_initial, admit, unit_length_of, aggregated_unit, aggregated, after_units, receive_aggregate,
  receive_admitted, receive_on, with_events, and_then, receive, receive_all, logged, fresh, is_nil,
  sequence_jump,
}

split_at : (n : ℕ) (xs rest : Bytes) → xs ++ rest ≡ xs ++ take n rest ++ drop n rest
split_at n xs rest =
    ap (λ l. xs ++ l) (sym (take-append-drop n rest))
    ∙ sym (append_assoc xs (take n rest) (drop n rest))

unit_length_of-prefix :
    (ext : Bool) (body : Bytes) {n : ℕ} {rest : Bytes}
    → unit_length_of ext body ≡ some (n, rest)
    → (prefix : Bytes) × (body ≡ prefix ++ rest)
unfolding unit_length_of
unit_length_of-prefix true (b0 ∷ b1 ∷ b2 ∷ b3 ∷ rest') e = (b0 ∷ b1 ∷ b2 ∷ b3 ∷ [], cc e)
unit_length_of-prefix true (b0 ∷ b1 ∷ b2 ∷ []) e = cc e
unit_length_of-prefix true (b0 ∷ b1 ∷ []) e = cc e
unit_length_of-prefix true (b0 ∷ []) e = cc e
unit_length_of-prefix true [] e = cc e
unit_length_of-prefix false (b0 ∷ b1 ∷ rest') e = (b0 ∷ b1 ∷ [], cc e)
unit_length_of-prefix false (b0 ∷ []) e = cc e
unit_length_of-prefix false [] e = cc e

module _ (lim : Limits) (h : List Payload) (p : Payload) where
  abbrev AllParts : Option (List Event × Bool) → Type 0
  AllParts none = Unit
  AllParts (some r) = All (Origin (p ∷ h)) r.0

  logged-AllParts :
      (e : Event) (o : Option (List Event × Bool))
      → Origin (p ∷ h) e
      → AllParts o
      → AllParts (logged e o)
  logged-AllParts e none x k = tt
  logged-AllParts e (some (es, done)) x k = (x, k)

  aggregated_unit-AllParts :
      (continue : Bytes → Option (List Event × Bool)) (before : Bytes) (o : Option (ℕ × Bytes))
      → aggregation p ≡ true
      → ((n : ℕ) (rest : Bytes)
          → o ≡ some (n, rest)
          → (prefix : Bytes) × (p.body ≡ before ++ prefix ++ rest)
            × AllParts (continue (drop n rest)))
      → AllParts (aggregated_unit lim p continue o)
  unfolding aggregated_unit
  aggregated_unit-AllParts continue before none g k = (Origin.reported, tt)
  aggregated_unit-AllParts continue before (some (n, rest)) g k =
      let (prefix, e, later) = k n rest refl in
      elim (Bool-cases (ltb (length rest) n || ltb lim.max_signalling_message n)) [
        | inl y ↦ rw y (Origin.reported, tt)
        | inr within ↦ rw within (
            logged-AllParts _ (continue (drop n rest))
              (Origin.part p (before ++ prefix) (drop n rest) (Sub.keep p (Sub.nil h)) g
                (e ∙ split_at n (before ++ prefix) rest))
              later)
      ]

  aggregated-AllParts :
      (fuel : ℕ) (before body : Bytes)
      → aggregation p ≡ true
      → p.body ≡ before ++ body
      → AllParts (aggregated fuel lim p body)
  unfolding aggregated
  aggregated-AllParts zero before body g e = tt
  aggregated-AllParts (suc fuel) before [] g e = tt
  aggregated-AllParts (suc fuel) before (x ∷ xs) g e =
      aggregated_unit-AllParts (aggregated fuel lim p) before
        (unit_length_of (length_extension p) (x ∷ xs)) g
        (λ n rest k.
          let (prefix, split) = unit_length_of-prefix (length_extension p) (x ∷ xs) k in
          let all : p.body ≡ before ++ prefix ++ rest =
            e ∙ ap (λ l. before ++ l) split ∙ sym (append_assoc before prefix rest) in
          (
            prefix,
            all,
            aggregated-AllParts fuel (before ++ prefix ++ take n rest) (drop n rest) g
                (all ∙ split_at n (before ++ prefix) rest),
          ))

  abbrev GoodResult : Option (SignallingAssembler × List Event) → Type 0
  GoodResult none = Unit
  GoodResult (some r) = Good (p ∷ h) r

  after_units-GoodResult :
      (a : SignallingAssembler) (o : Option (List Event × Bool))
      → aggregation p ≡ true
      → Admitted h p a
      → AllParts o
      → GoodResult (after_units a o)
  after_units-GoodResult a none g c k = tt
  after_units-GoodResult a (some (es, true)) g c k = (tt, k)
  after_units-GoodResult a (some (es, false)) g c k = (refused-Tracks lim h p a (inl g) c, k)

  receive_admitted-GoodResult :
      (a : SignallingAssembler) → Admitted h p a → GoodResult (receive_admitted lim p a)
  unfolding receive_admitted receive_aggregate
  receive_admitted-GoodResult a c =
      if_with GoodResult (aggregation p)
        (λ g.
          if_both GoodResult (not (fragmentation p == 0))
            (refused-Tracks lim h p a (inl g) c, (Origin.reported, tt))
            (after_units-GoodResult a _ g c
              (aggregated-AllParts (suc (length p.body)) [] p.body g refl)))
        (λ n. receive_fragment-Good lim h p a c)

  jump_events :
      (a : SignallingAssembler)
      → All (Origin (p ∷ h)) (
          if is_nil a.data_bytes then [] else error discontinuity p.input_offset sequence_jump ∷ [])
  jump_events a = elim (Bool-cases (is_nil a.data_bytes)) [
    | inl y ↦ rw y tt
    | inr n ↦ rw n (Origin.reported, tt)
  ]

  abbrev AdmitGood : Option (SignallingAssembler × List Event) → Type 0
  AdmitGood none = Unit
  AdmitGood (some r) = Admitted h p r.0 × All (Origin (p ∷ h)) r.1

  admit-AdmitGood : (a : SignallingAssembler) → Tracks h a → AdmitGood (admit p a)
  unfolding admit
  admit-AdmitGood a c =
      if_with AdmitGood (is_initial a.state)
        (λ i. ((refl, carry a.state (λ y. absurd (initial_other a.state i y))), tt))
        (λ n. if_both AdmitGood (p.sequence == a.last_sequence) tt (
          if_with AdmitGood (not (p.sequence == add_u32 a.last_sequence 1))
            (λ j. ((refl, tt), jump_events a))
            (λ f. (
              (
                refl,
                carry a.state (λ y. (
                  a.last_sequence,
                  uncarry a.state y c,
                  (==_iff p.sequence (add_u32 a.last_sequence 1)).0 (not-false _ f),
                )),
              ),
              tt,
            ))))

  with_events-GoodResult :
      (es : List Event) (o : Option (SignallingAssembler × List Event))
      → All (Origin (p ∷ h)) es
      → GoodResult o
      → GoodResult (with_events es o)
  with_events-GoodResult es none x k = tt
  with_events-GoodResult es (some (t, fs)) x k = (k.0, All-append (Origin (p ∷ h)) es fs x k.1)

  receive_on-GoodResult :
      (a : SignallingAssembler) (o : Option (SignallingAssembler × List Event))
      → Tracks h a
      → AdmitGood o
      → GoodResult (receive_on lim p a o)
  receive_on-GoodResult a none c k =
      (carry a.state (λ y. let (ps, g, sub) = uncarry a.state y c in (ps, g, Sub.skip p sub)), tt)
  receive_on-GoodResult a (some (b, es)) c k =
      with_events-GoodResult es (receive_admitted lim p b) k.1 (receive_admitted-GoodResult b k.0)

  pub receive-GoodResult : (a : SignallingAssembler) → Tracks h a → GoodResult (receive lim p a)
  unfolding receive
  receive-GoodResult a c = receive_on-GoodResult a (admit p a) c (admit-AdmitGood a c)

-- The packets received, newest first, on top of those before.
abbrev pub onto : List Payload → List Payload → List Payload
onto [] h = h
onto (p ∷ ps) h = onto ps (p ∷ h)

Origin-onto :
    (ps h : List Payload) (es : List Event) → All (Origin h) es → All (Origin (onto ps h)) es
Origin-onto [] h es k = k
Origin-onto (p ∷ ps) h es k =
    Origin-onto ps (p ∷ h) es (All-map (Origin h) (Origin (p ∷ h)) es (λ e x. Origin-later p e x) k)

receive_all-from :
    (lim : Limits) (ps h : List Payload) (a : SignallingAssembler)
    → lim.max_signalling_message < 2 ^ 64
    → Bounded lim a
    → Tracks h a
    → (t : SignallingAssembler) × (es : List Event) × (receive_all lim ps a ≡ some (t, es))
      × All (Origin (onto ps h)) es
      × Bounded lim t
unfolding receive_all
receive_all-from lim [] h a m bound c = (a, [], refl, tt, bound)
receive_all-from lim (p ∷ ps) h a m bound c =
    let (b, es, e, small) = receive-Returns lim p m a bound in
    let (keeps, origins) = subst (GoodResult lim h p) e (receive-GoodResult lim h p a c) in
    let (t, fs, f, later, last) = receive_all-from lim ps (p ∷ h) b m small keeps in
    (
      t,
      es ++ fs,
      ap (and_then (receive_all lim ps)) e ∙ ap (with_events es) f,
      All-append (Origin (onto ps (p ∷ h))) es fs (Origin-onto ps (p ∷ h) es origins) later,
      last,
    )

-- With a limit below 2 ^ 64, whatever packets a fresh assembler receives, reassembly ends with
-- no more than the limit buffered, and each unit handed on is the body of one unfragmented
-- packet, a part of the body of one aggregated packet, or the joined bodies of a first
-- fragment, of middle fragments and of a last one that were received in this order under
-- sequence numbers without a gap, where a packet refused in between takes a number and adds no
-- bytes.
pub receive_all-Origin :
    (lim : Limits) (ps : List Payload)
    → lim.max_signalling_message < 2 ^ 64
    → (t : SignallingAssembler) × (es : List Event) × (receive_all lim ps fresh ≡ some (t, es))
      × All (Origin (onto ps [])) es
      × Bounded lim t
receive_all-Origin lim ps m = receive_all-from lim ps [] fresh m (omega arith) tt
