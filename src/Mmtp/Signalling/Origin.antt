-- ===== src/Mmtp/Signalling/Origin.antt =====
-- Where a unit that the reassembly hands on comes from.
use mathlib.Core.Path.{subst}
use libaribtlv.Types.{Limits, ErrorCode}
use libaribtlv.Base.{
  ℕ, ◌<◌, ◌≡◌, refl, sym, Bool, true, false, not, Bool-cases, if_both, if_with, ◌⊎◌, inl, inr, List,
  [], ◌∷◌, ◌++◌, ltb, ◌==◌, ==_iff, length, Bytes, sub_u64, add_u32, arith, All, All-append,
}
use libaribtlv.Mmtp.Signalling.{
  FragmentState, SignallingAssembler, Message, Event, unit, error, Payload, fragmentation,
  aggregation, is_initial, is_collecting, is_skipping, append, complete_unit, first_fragment,
  middle_fragment, last_fragment, receive_fragment,
}

-- A choice of the packets received; both lists have the newest packet first.
pub data Sub : List Payload → List Payload → Type 0 where
  nil : (h : List Payload) → Sub [] h
  skip : {ps h : List Payload} (p : Payload) → Sub ps h → Sub ps (p ∷ h)
  keep : {ps h : List Payload} (p : Payload) → Sub ps h → Sub (p ∷ ps) (p ∷ h)

-- The packets from a first fragment on, with no gap in their sequence numbers: the bytes collected,
-- the offset of the first and the last sequence number. A packet that is refused in between, for an
-- aggregated body or an unknown indicator, counts in the sequence and adds nothing.
pub data Gathered : List Payload → Bytes → ℕ → ℕ → Type 0 where
  first : (p : Payload) → fragmentation p ≡ 1 → Gathered (p ∷ []) p.body p.input_offset p.sequence
  more :
      (p : Payload) {ps : List Payload} {d : Bytes} {o s : ℕ}
      → Gathered ps d o s
      → fragmentation p ≡ 2
      → p.sequence ≡ add_u32 s 1
      → Gathered (p ∷ ps) (d ++ p.body) o p.sequence
  refused :
      (p : Payload) {ps : List Payload} {d : Bytes} {o s : ℕ}
      → Gathered ps d o s
      → (aggregation p ≡ true) ⊎ (3 < fragmentation p)
      → p.sequence ≡ add_u32 s 1
      → Gathered (p ∷ ps) d o p.sequence

-- What justifies an event after the packets `h`.
pub data Origin (h : List Payload) : Event → Type 0 where
  reported : {c : ErrorCode} {o : ℕ} {m : Message} → Origin h (error c o m)
  complete :
      (p : Payload)
      → Sub (p ∷ []) h
      → fragmentation p ≡ 0
      → Origin h (unit p.packet_id p.body p.input_offset)
  part :
      (p : Payload) {d : Bytes} (before after : Bytes)
      → Sub (p ∷ []) h
      → aggregation p ≡ true
      → p.body ≡ before ++ d ++ after
      → Origin h (unit p.packet_id d p.input_offset)
  joined :
      (p : Payload) {ps : List Payload} {d : Bytes} {o s : ℕ}
      → Sub (p ∷ ps) h
      → Gathered ps d o s
      → fragmentation p ≡ 3
      → p.sequence ≡ add_u32 s 1
      → Origin h (unit p.packet_id (d ++ p.body) o)

pub Origin-later : {h : List Payload} (p : Payload) (e : Event) → Origin h e → Origin (p ∷ h) e
Origin-later p _ Origin.reported = Origin.reported
Origin-later p _ (Origin.complete q s f) = Origin.complete q (Sub.skip p s) f
Origin-later p _ (Origin.part q b a s g e) = Origin.part q b a (Sub.skip p s) g e
Origin-later p _ (Origin.joined q s g f e) = Origin.joined q (Sub.skip p s) g f e

-- A fact that only a collecting assembler carries.
abbrev pub Carries : FragmentState → Type 0 → Type 0
Carries FragmentState.initial X = Unit
Carries FragmentState.idle X = Unit
Carries FragmentState.collecting X = X
Carries FragmentState.skipping X = Unit

pub carry : {X : Type 0} (now : FragmentState) → (is_collecting now ≡ true → X) → Carries now X
carry FragmentState.initial x = tt
carry FragmentState.idle x = tt
carry FragmentState.collecting x = x refl
carry FragmentState.skipping x = tt

pub uncarry : {X : Type 0} (now : FragmentState) → is_collecting now ≡ true → Carries now X → X
uncarry FragmentState.initial c x = cc c
uncarry FragmentState.idle c x = cc c
uncarry FragmentState.collecting c x = x
uncarry FragmentState.skipping c x = cc c

-- A collecting assembler holds what was gathered from packets received.
abbrev pub Collected : List Payload → SignallingAssembler → ℕ → Type 0
Collected h a s = (ps : List Payload) × Gathered ps a.data_bytes a.input_offset s × Sub ps h

abbrev pub Tracks : List Payload → SignallingAssembler → Type 0
Tracks h a = Carries a.state (Collected h a a.last_sequence)

abbrev pub Good : List Payload → SignallingAssembler × List Event → Type 0
Good h r = Tracks h r.0 × All (Origin h) r.1

-- Once the tests of the sequence number are passed.
abbrev pub Admitted : List Payload → Payload → SignallingAssembler → Type 0
Admitted h p a =
    (a.last_sequence ≡ p.sequence)
    × Carries a.state ((s : ℕ) × Collected h a s × (p.sequence ≡ add_u32 s 1))

skipping_other : (now : FragmentState) → is_skipping now ≡ true → is_collecting now ≡ true → ⊥
skipping_other FragmentState.initial s c = cc s
skipping_other FragmentState.idle s c = cc s
skipping_other FragmentState.collecting s c = cc s
skipping_other FragmentState.skipping s c = cc c

pub initial_other : (now : FragmentState) → is_initial now ≡ true → is_collecting now ≡ true → ⊥
initial_other FragmentState.initial s c = cc c
initial_other FragmentState.idle s c = cc s
initial_other FragmentState.collecting s c = cc s
initial_other FragmentState.skipping s c = cc s

pub not-false : (b : Bool) → not b ≡ false → b ≡ true
not-false true e = refl
not-false false e = sym e

not-true : (b : Bool) → not b ≡ true → b ≡ true → ⊥
not-true true e f = cc e
not-true false e f = cc f

module _ (lim : Limits) (h : List Payload) (p : Payload) where
  -- The bytes gathered stand still while a packet is refused.
  pub refused-Tracks :
      (a : SignallingAssembler)
      → (aggregation p ≡ true) ⊎ (3 < fragmentation p)
      → Admitted h p a
      → Tracks (p ∷ h) a
  refused-Tracks a r (same, c) = carry a.state (λ y.
      let (s, (ps, g, sub), e) = uncarry a.state y c in
      (
        p ∷ ps,
        subst (Gathered (p ∷ ps) a.data_bytes a.input_offset) (sym same) (Gathered.refused p g r e),
        Sub.keep p sub,
      ))

  complete_unit-Good :
      (a : SignallingAssembler) → fragmentation p ≡ 0 → Good (p ∷ h) (complete_unit p a)
  unfolding complete_unit
  complete_unit-Good a f = (
    tt,
    All-append (Origin (p ∷ h)) _ _
        (if_both (All (Origin (p ∷ h))) (is_collecting a.state) (Origin.reported, tt) tt)
        (Origin.complete p (Sub.keep p (Sub.nil h)) f, tt),
  )

  first_fragment-Good :
      (a : SignallingAssembler)
      → fragmentation p ≡ 1
      → Admitted h p a
      → Good (p ∷ h) (first_fragment lim p a)
  unfolding first_fragment append
  first_fragment-Good a f (same, c) =
      elim (Bool-cases (ltb (sub_u64 lim.max_signalling_message 0) (length p.body))) [
        | inl y ↦ rw y (tt, (Origin.reported, tt))
        | inr n ↦ rw n (
          (
            p ∷ [],
            subst (Gathered (p ∷ []) p.body p.input_offset) (sym same) (Gathered.first p f),
            Sub.keep p (Sub.nil h),
          ),
          tt,
        )
      ]

  middle_fragment-Good :
      (a : SignallingAssembler)
      → fragmentation p ≡ 2
      → Admitted h p a
      → Good (p ∷ h) (middle_fragment lim p a)
  unfolding middle_fragment append
  middle_fragment-Good a f (same, c) =
      if_with (Good (p ∷ h)) (is_skipping a.state)
        (λ sk. (carry a.state (λ y. absurd (skipping_other a.state sk y)), tt))
        (λ ns.
          if_with (Good (p ∷ h)) (not (is_collecting a.state)) (λ nc. (tt, (Origin.reported, tt)))
            (λ co.
              elim (Bool-cases
                (ltb (sub_u64 lim.max_signalling_message (length a.data_bytes)) (length p.body))) [
                  | inl y ↦ rw y (tt, (Origin.reported, tt))
                  | inr n ↦ rw n (
                    carry a.state (λ y.
                        let (s, (ps, g, sub), e) = uncarry a.state y c in
                        (
                          p ∷ ps,
                          subst (Gathered (p ∷ ps) (a.data_bytes ++ p.body) a.input_offset)
                              (sym same) (Gathered.more p g f e),
                          Sub.keep p sub,
                        )),
                    tt,
                  )
                ]))

  last_fragment-Good :
      (a : SignallingAssembler)
      → fragmentation p ≡ 3
      → Admitted h p a
      → Good (p ∷ h) (last_fragment lim p a)
  unfolding last_fragment append
  last_fragment-Good a f (same, c) =
      if_with (Good (p ∷ h)) (is_skipping a.state) (λ sk. (tt, tt))
        (λ ns.
          if_with (Good (p ∷ h)) (not (is_collecting a.state))
            (λ nc. (
              carry a.state (λ y. absurd (not-true (is_collecting a.state) nc y)),
              (Origin.reported, tt),
            ))
            (λ co.
              elim (Bool-cases
                (ltb (sub_u64 lim.max_signalling_message (length a.data_bytes)) (length p.body))) [
                  | inl y ↦ rw y (tt, (Origin.reported, tt))
                  | inr n ↦ rw n (
                      let (s, (ps, g, sub), e) =
                        uncarry a.state (not-false (is_collecting a.state) co) c in
                      (tt, (Origin.joined p (Sub.keep p sub) g f e, tt)))
                ]))

  pub receive_fragment-Good :
      (a : SignallingAssembler) → Admitted h p a → Good (p ∷ h) (receive_fragment lim p a)
  unfolding receive_fragment
  receive_fragment-Good a c =
      if_with (Good (p ∷ h)) (fragmentation p == 0) (λ f. complete_unit-Good a (number 0 f))
        (λ n0.
          if_with (Good (p ∷ h)) (fragmentation p == 1) (λ f. first_fragment-Good a (number 1 f) c)
            (λ n1.
              if_with (Good (p ∷ h)) (fragmentation p == 2)
                (λ f. middle_fragment-Good a (number 2 f) c)
                (λ n2.
                  if_with (Good (p ∷ h)) (fragmentation p == 3)
                    (λ f. last_fragment-Good a (number 3 f) c)
                    (λ n3. (refused-Tracks a (inr (ground arith)) c, tt)))))
    where
      number : (k : ℕ) → (fragmentation p == k) ≡ true → fragmentation p ≡ k
      number k = (==_iff (fragmentation p) k).0
