-- ===== src/Mmtp/Signalling/Bounds.antt =====
-- Reassembly ends on every payload, and keeps what it buffers within the limit.
use mathlib.Core.Path.{subst}
use libaribtlv.Types.{Limits}
use libaribtlv.Base.{
  ℕ, zero, suc, ◌+◌, ◌≤◌, ◌<◌, ◌^◌, ◌≡◌, refl, ap, Bool, true, false, not, Bool-cases, if_both, inl,
  inr, Option, none, some, List, [], ◌∷◌, ◌++◌, ltb, ◌==◌, length, drop, length-append, length-drop,
  Bytes, sub_u64, add_u32, arith,
}
use libaribtlv.Mmtp.Signalling.{
  FragmentState, SignallingAssembler, Event, Payload, fragmentation, aggregation, length_extension,
  is_initial, is_collecting, is_skipping, append, admit, unit_length_of, aggregated_unit,
  aggregated, after_units, receive_aggregate, complete_unit, first_fragment, middle_fragment,
  last_fragment, receive_fragment, receive_admitted, receive_on, with_events, receive, logged,
}

-- The bytes after a length are fewer, by two at least.
pub unit_length_of-shorter :
    (ext : Bool) (body : Bytes) {n : ℕ} {rest : Bytes}
    → unit_length_of ext body ≡ some (n, rest)
    → length rest + 2 ≤ length body
unfolding unit_length_of
unit_length_of-shorter true (b0 ∷ b1 ∷ b2 ∷ b3 ∷ more) {n} {rest} e =
    let same : more ≡ rest = cc in omega (arith, ap length same)
unit_length_of-shorter true (b0 ∷ b1 ∷ b2 ∷ []) e = cc
unit_length_of-shorter true (b0 ∷ b1 ∷ []) e = cc
unit_length_of-shorter true (b0 ∷ []) e = cc
unit_length_of-shorter true [] e = cc
unit_length_of-shorter false (b0 ∷ b1 ∷ more) {n} {rest} e =
    let same : more ≡ rest = cc in omega (arith, ap length same)
unit_length_of-shorter false (b0 ∷ []) e = cc
unit_length_of-shorter false [] e = cc

-- A loop that ends.
abbrev pub Ends {ℓ} : {A : Type ℓ} → Option A → Type ℓ
Ends {A = A} o = (a : A) × (o ≡ some a)

logged-Ends : (e : Event) (o : Option (List Event × Bool)) → Ends o → Ends (logged e o)
logged-Ends e none h = cc h.1
logged-Ends e (some (es, done)) h = ((e ∷ es, done), refl)

aggregated_unit-Ends :
    (lim : Limits) (p : Payload) (continue : Bytes → Option (List Event × Bool))
    (o : Option (ℕ × Bytes))
    → ((n : ℕ) (rest : Bytes) → o ≡ some (n, rest) → Ends (continue (drop n rest)))
    → Ends (aggregated_unit lim p continue o)
unfolding aggregated_unit
aggregated_unit-Ends lim p continue none h = (_, refl)
aggregated_unit-Ends lim p continue (some (n, rest)) h =
    if_both Ends _ (_, refl) (logged-Ends _ (continue (drop n rest)) (h n rest refl))

pub aggregated-Ends :
    (fuel : ℕ) (lim : Limits) (p : Payload) (body : Bytes)
    → length body < fuel
    → Ends (aggregated fuel lim p body)
unfolding aggregated
aggregated-Ends zero lim p body h = absurd (omega arith)
aggregated-Ends (suc fuel) lim p [] h = (_, refl)
aggregated-Ends (suc fuel) lim p (x ∷ xs) h =
    aggregated_unit-Ends lim p (aggregated fuel lim p)
      (unit_length_of (length_extension p) (x ∷ xs))
      (λ n rest e.
        aggregated-Ends fuel lim p (drop n rest) (
          omega
            (arith, unit_length_of-shorter (length_extension p) (x ∷ xs) e, length-drop n rest)))

-- What is buffered is within the limit.
abbrev pub Bounded : Limits → SignallingAssembler → Type 0
Bounded lim a = length a.data_bytes ≤ lim.max_signalling_message

append-Bounded :
    (lim : Limits) (body : Bytes) (offset : ℕ) (a : SignallingAssembler)
    → lim.max_signalling_message < 2 ^ 64
    → Bounded lim a
    → Bounded lim (append lim body offset a).0
unfolding append
append-Bounded lim body offset a m h =
    elim (Bool-cases
      (ltb (sub_u64 lim.max_signalling_message (length a.data_bytes)) (length body))) [
        | inl y ↦ rw y (omega arith)
        | inr n ↦ rw n (let l = length-append a.data_bytes body in ground arith)
      ]

module _ (lim : Limits) (p : Payload) (m : lim.max_signalling_message < 2 ^ 64) where
  abbrev Safe : SignallingAssembler × List Event → Type 0
  Safe r = Bounded lim r.0

  middle_fragment-Bounded :
      (a : SignallingAssembler) → Bounded lim a → Safe (middle_fragment lim p a)
  unfolding middle_fragment
  middle_fragment-Bounded a h = if_both Safe (is_skipping a.state) h (
      if_both Safe (not (is_collecting a.state)) h (append-Bounded lim p.body p.input_offset a m h))

  last_fragment-Bounded : (a : SignallingAssembler) → Bounded lim a → Safe (last_fragment lim p a)
  unfolding last_fragment
  last_fragment-Bounded a h =
      if_both Safe (is_skipping a.state) (omega arith)
        (if_both Safe (not (is_collecting a.state)) h (omega arith))

  receive_fragment-Bounded :
      (a : SignallingAssembler) → Bounded lim a → Safe (receive_fragment lim p a)
  unfolding receive_fragment complete_unit first_fragment
  receive_fragment-Bounded a h = if_both Safe (fragmentation p == 0) (omega arith) (
      if_both Safe (fragmentation p == 1)
        (append-Bounded lim p.body p.input_offset
          (record a {
            data_bytes = [];
            input_offset = p.input_offset;
            state = FragmentState.collecting;
          })
          m (omega arith))
        (if_both Safe (fragmentation p == 2) (middle_fragment-Bounded a h)
          (if_both Safe (fragmentation p == 3) (last_fragment-Bounded a h) h)))

  -- The step ends, with what it buffers within the limit.
  abbrev pub Returns : Option (SignallingAssembler × List Event) → Type 0
  Returns o = (t : SignallingAssembler) × (es : List Event) × (o ≡ some (t, es)) × Bounded lim t

  after_units-Returns :
      (a : SignallingAssembler) (o : Option (List Event × Bool))
      → Ends o
      → Bounded lim a
      → Returns (after_units a o)
  after_units-Returns a none e h = cc e.1
  after_units-Returns a (some (es, true)) e h = (_, es, refl, h)
  after_units-Returns a (some (es, false)) e h = (a, es, refl, h)

  receive_admitted-Returns :
      (a : SignallingAssembler) → Bounded lim a → Returns (receive_admitted lim p a)
  unfolding receive_admitted receive_aggregate
  receive_admitted-Returns a h =
      if_both Returns (aggregation p)
        (if_both Returns (not (fragmentation p == 0)) (a, _, refl, h)
          (after_units-Returns a _
            (aggregated-Ends (suc (length p.body)) lim p p.body (omega arith)) h))
        (_, _, refl, receive_fragment-Bounded a h)

  with_events-Returns :
      (es : List Event) (o : Option (SignallingAssembler × List Event))
      → Returns o
      → Returns (with_events es o)
  with_events-Returns es none r = cc r.2
  with_events-Returns es (some (t, fs)) r =
      (t, es ++ fs, refl, subst (Bounded lim) (let same : r.0 ≡ t = cc r.2 in same) r.3)

  abbrev AfterAdmit : Option (SignallingAssembler × List Event) → Type 0
  AfterAdmit none = Unit
  AfterAdmit (some r) = Bounded lim r.0

  admit-Bounded : (a : SignallingAssembler) → Bounded lim a → AfterAdmit (admit p a)
  unfolding admit
  admit-Bounded a h = if_both AfterAdmit (is_initial a.state) h (
      if_both AfterAdmit (p.sequence == a.last_sequence) tt
        (if_both AfterAdmit (not (p.sequence == add_u32 a.last_sequence 1)) (omega arith) h))

  receive_on-Returns :
      (a : SignallingAssembler) (o : Option (SignallingAssembler × List Event))
      → Bounded lim a
      → AfterAdmit o
      → Returns (receive_on lim p a o)
  receive_on-Returns a none h k = (a, [], refl, h)
  receive_on-Returns a (some (b, es)) h k =
      with_events-Returns es (receive_admitted lim p b) (receive_admitted-Returns b k)

  -- `receive` ends on every payload, and what it buffers stays within the limit, so that the
  -- subtraction of `append` never wraps.
  pub receive-Returns :
      (a : SignallingAssembler)
      → Bounded lim a
      → (t : SignallingAssembler) × (es : List Event) × (receive lim p a ≡ some (t, es))
        × Bounded lim t
  unfolding receive
  receive-Returns a h = receive_on-Returns a (admit p a) h (admit-Bounded a h)
