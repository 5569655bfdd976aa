-- ===== src/Mmtp/Signalling/States.antt =====
-- The assemblers of all packet identifiers: their number, their bound, and that a payload changes
-- no assembler but its own.
use mathlib.Core.Path.{subst}
use libaribtlv.PacketStates.{StateCall, acquire_state, run_calls}
use libaribtlv.PacketStates.Limit.{acquire_state-Within, acquire_state-takes, run_calls-Within}
use libaribtlv.Types.{Limits}
use libaribtlv.Base.{
  suc, ◌+◌, ap, length, ◌⊎◌, ℕ, ◌≤◌, ◌<◌, ◌^◌, ◌≡◌, ◌≢◌, refl, sym, ◌∙◌, Bool, true, false,
  Bool-cases, if_both, inl, inr, Option, none, some, List, [], ◌∷◌, ◌==◌, ==_iff, Bytes, arith, All,
}
use libaribtlv.Mmtp.Signalling.Bounds.{Bounded, receive-Returns}
use libaribtlv.Mmtp.Signalling.{
  SignallingAssembler, Event, Payload, receive, fresh, Signalling, find, store, stored, if_acquired,
  dispatch, parse_signalling,
}

abbrev pub Table : Type 0
Table = List (ℕ × SignallingAssembler)

store-All :
    (P : SignallingAssembler → Type 0) (k : ℕ) (a : SignallingAssembler) (xs : Table)
    → P a
    → All (λ e. P e.1) xs
    → All (λ e. P e.1) (store k a xs)
unfolding store
store-All P k a [] pa h = (pa, tt)
store-All P k a ((i, b) ∷ xs) pa h =
    if_both (All (λ e. P e.1)) (i == k) (pa, h.1) (h.0, store-All P k a xs pa h.1)

find-All :
    (P : SignallingAssembler → Type 0) (k : ℕ) (xs : Table) {a : SignallingAssembler}
    → All (λ e. P e.1) xs
    → find k xs ≡ some a
    → P a
unfolding find
find-All P k [] h e = cc e
find-All P k ((i, b) ∷ xs) {a} h e = elim (Bool-cases (i == k)) [
  | inl y ↦ subst P (let same : b ≡ a = cc (rw y at e) in same) h.0
  | inr n ↦ find-All P k xs h.1 (rw n at e)
]

length-store_found :
    (k : ℕ) (a : SignallingAssembler) (xs : Table) {b : SignallingAssembler}
    → find k xs ≡ some b
    → length (store k a xs) ≡ length xs
unfolding find store
length-store_found k a [] e = cc e
length-store_found k a ((i, c) ∷ xs) e = elim (Bool-cases (i == k)) [
  | inl y ↦ rw y refl
  | inr n ↦ rw n (ap suc (length-store_found k a xs (rw n at e)))
]

length-store_new :
    (k : ℕ) (a : SignallingAssembler) (xs : Table)
    → find k xs ≡ none
    → length (store k a xs) ≡ length xs + 1
unfolding find store
length-store_new k a [] e = omega arith
length-store_new k a ((i, c) ∷ xs) e = elim (Bool-cases (i == k)) [
  | inl y ↦ cc (rw y at e)
  | inr n ↦ rw n (let l = length-store_new k a xs (rw n at e) in omega (arith, l))
]

differ : (m n : ℕ) → m ≢ n → (m == n) ≡ false
differ m n d = ground arith

-- An identifier other than the one stored finds what it found before.
find-store :
    (j k : ℕ) (a : SignallingAssembler) (xs : Table) → j ≢ k → find j (store k a xs) ≡ find j xs
unfolding find store
find-store j k a [] d = rw (differ k j (λ e. d (sym e))) refl
find-store j k a ((i, b) ∷ xs) d = elim (Bool-cases (i == k)) [
  | inl y ↦ let same : i ≡ k = (==_iff i k).0 y in rw (y, differ i j (λ e. d (sym e ∙ same))) refl
  | inr n ↦
      rw n (elim (Bool-cases (i == j)) [ inl y ↦ rw y refl | inr m ↦ rw m (find-store j k a xs d) ])
]

-- The assemblers are within the bound, and the number of states in use is within the limit.
pub record IsValid (lim : Limits) (s : Signalling) : Type 0 where
  pub bounded : All (λ e. Bounded lim e.1) s.assemblers
  pub limited : s.active ≤ lim.max_packet_states

-- Nothing is changed, or each new assembler has taken one state before the calls of the units.
abbrev pub Counted : Limits → List StateCall → Signalling → Signalling → Type 0
Counted lim during s t =
    (t ≡ s)
    ⊎ ((n : ℕ) × (length t.assemblers ≡ length s.assemblers + n)
        × (t.active ≡ run_calls lim during (s.active + n)))

module _ (lim : Limits) (during : List StateCall) (k : ℕ)
    (m : lim.max_signalling_message < 2 ^ 64) where
  -- The step ends in a valid state, with every other identifier's assembler as it was.
  abbrev pub Keeps : Signalling → Option (Signalling × List Event) → Type 0
  Keeps s o =
      (t : Signalling) × (es : List Event) × (o ≡ some (t, es))
      × IsValid lim t
      × Counted lim during s t
      × ((j : ℕ) → j ≢ k → find j t.assemblers ≡ find j s.assemblers)

  stay-Keeps : (s : Signalling) (es : List Event) → IsValid lim s → Keeps s (some (s, es))
  stay-Keeps s es v = (s, es, refl, v, inl refl, λ j d. refl)

  stored-Keeps :
      (s : Signalling) (n : ℕ) (p : Payload) (a : SignallingAssembler)
      → Bounded lim a
      → All (λ e. Bounded lim e.1) s.assemblers
      → n ≤ lim.max_packet_states
      → (c : ℕ) → n ≡ s.active + c
      → ((b : SignallingAssembler) → length (store k b s.assemblers) ≡ length s.assemblers + c)
      → Keeps s (stored lim during k (record s { active = n }) (receive lim p a))
  stored-Keeps s n p a bound all within c taken count =
      let (b, es, e, small) = receive-Returns lim p m a bound in
      rw e (
        record s { active = run_calls lim during n; assemblers = store k b s.assemblers },
        es,
        refl,
        record {
          bounded = store-All (Bounded lim) k b s.assemblers small all;
          limited = run_calls-Within lim during n within;
        },
        inr (c, count b, ap (run_calls lim during) taken),
        λ j d. find-store j k b s.assemblers d,
      )

  if_acquired-Keeps :
      (s : Signalling) (p : Payload) (x : ℕ × Bool)
      → p.packet_id ≡ k
      → find k s.assemblers ≡ none
      → x.0 ≤ lim.max_packet_states
      → (x.1 ≡ true → x.0 ≡ s.active + 1)
      → IsValid lim s
      → Keeps s (if_acquired lim during p s x)
  if_acquired-Keeps s p (active, false) i e h taken v = stay-Keeps s _ v
  if_acquired-Keeps s p (active, true) i e h taken v =
      subst
        (λ q. Keeps s (stored lim during q (record s { active = active }) (receive lim p fresh)))
        (sym i)
        (stored-Keeps s active p fresh (omega arith) v.bounded h 1 (taken refl)
          (λ b. length-store_new k b s.assemblers e))

  dispatch-Keeps :
      (s : Signalling) (p : Payload) (o : Option SignallingAssembler)
      → p.packet_id ≡ k
      → find k s.assemblers ≡ o
      → IsValid lim s
      → Keeps s (dispatch lim during p s o)
  unfolding dispatch
  dispatch-Keeps s p (some a) i e v =
      subst (λ q. Keeps s (stored lim during q s (receive lim p a))) (sym i)
        (stored-Keeps s s.active p a (find-All (Bounded lim) k s.assemblers v.bounded e) v.bounded
          v.limited 0 (omega arith)
          (λ b.
            length-store_found k b s.assemblers e
            ∙ (let same : length s.assemblers ≡ length s.assemblers + 0 = omega arith in same)))
  dispatch-Keeps s p none i e v =
      if_acquired-Keeps s p (acquire_state lim s.active) i e
        (acquire_state-Within lim s.active v.limited) (acquire_state-takes lim s.active) v

-- With a limit on messages below 2 ^ 64 and a valid state, in which every assembler is within
-- that limit and the packet states in use are within theirs: on every payload of any packet, and
-- whatever states the units emitted take and give back, `parse_signalling` ends in a valid state, with
-- the assemblers of all other packet identifiers as they were; and it changes nothing, or takes one
-- state for each new assembler before the units' calls.
pub parse_signalling-IsValid :
    (lim : Limits) (during : List StateCall) (k sequence : ℕ) (bytes : Bytes) (offset : ℕ)
    (s : Signalling)
    → lim.max_signalling_message < 2 ^ 64
    → IsValid lim s
    → (t : Signalling) × (es : List Event) × (parse_signalling lim during k sequence bytes offset s
        ≡ some (t, es))
      × IsValid lim t
      × Counted lim during s t
      × ((j : ℕ) → j ≢ k → find j t.assemblers ≡ find j s.assemblers)
unfolding parse_signalling
parse_signalling-IsValid lim during k sequence [] offset s m v = stay-Keeps lim during k m s _ v
parse_signalling-IsValid lim during k sequence (b0 ∷ []) offset s m v =
    stay-Keeps lim during k m s _ v
parse_signalling-IsValid lim during k sequence (b0 ∷ b1 ∷ body) offset s m v =
    dispatch-Keeps lim during k m s _ (find k s.assemblers) refl refl v
