-- ===== src/Transport/Assembly/Refines.antt =====
-- The assembly of one table against its specification: a partial map of sections by number, of which
-- a snapshot is taken when a section is new and every number has one.
use mathlib.Core.Path.{subst}
use libaribtlv.Transport.Assembly.Collect.{
  Above, Below, updated, gather, find-store, store-Above, store-Below, gather-length, gather-agree,
  present-gather, absent-gather,
}
use libaribtlv.Transport.Assembly.{Assembly, find, store, all_present, ready, already, accept}
use libaribtlv.Base.{
  ℕ, ◌+◌, ◌≤◌, ◌≡◌, refl, sym, ap, ◌∙◌, Bool, true, false, ◌&&◌, Bool-cases, inl, inr, Option, none,
  some, List, ◌==◌, if◌then◌else◌, arith,
}

and_false : (b : Bool) → (b && false) ≡ false
and_false true = refl
and_false false = refl

counted : {a b : ℕ} → a ≡ b → (a == b && true) ≡ true
counted e = ground arith

module _ {S : Type 0} where
  -- The list of an assembly is the map `f`, in rising order, with no number above the last.
  pub record Represents (f : ℕ → Option S) (a : Assembly S) : Type 0 where
    pub lookup : (n : ℕ) → find n a.sections ≡ f n
    pub rising : Above 0 a.sections
    pub within : Below (a.last_section_number + 1) a.sections

  -- What the specification keeps and what it hands on.
  abbrev pub next_map : (S → S → Bool) → ℕ → S → (ℕ → Option S) → ℕ → Option S
  next_map same number s f = if already same s (f number) then f else updated f number s

  abbrev pub next_snapshot : (S → S → Bool) → ℕ → S → ℕ → (ℕ → Option S) → Option (List (ℕ × S))
  next_snapshot same number s last f =
      if already same s (f number) then none else gather (updated f number s) 0 (last + 1)

  all_present-gather :
      (f : ℕ → Option S) (a : Assembly S)
      → Represents f a
      → (if all_present 0 (a.last_section_number + 1) a.sections then some a.sections else none)
        ≡ gather f 0 (a.last_section_number + 1)
  all_present-gather f a r =
      elim (Bool-cases (all_present 0 (a.last_section_number + 1) a.sections)) [
        | inl y ↦ rw y (
            sym (
              present-gather a.sections 0 (a.last_section_number + 1) a.sections (λ n l. refl)
                r.rising below y)
            ∙ agree)
        | inr n ↦ rw n (sym (absent-gather 0 (a.last_section_number + 1) a.sections n) ∙ agree)
      ]
    where
      agree :
          gather (λ n. find n a.sections) 0 (a.last_section_number + 1)
          ≡ gather f 0 (a.last_section_number + 1)
      agree = gather-agree (λ n. find n a.sections) f 0 (a.last_section_number + 1) r.lookup

      below : Below (0 + (a.last_section_number + 1)) a.sections
      below =
          subst (λ i. Below i a.sections)
            (let e : a.last_section_number + 1 ≡ 0 + (a.last_section_number + 1) = omega arith in e)
            r.within

  -- The count of sections says nothing that their presence does not.
  ready-all_present :
      (f : ℕ → Option S) (a : Assembly S)
      → Represents f a
      → ready a ≡ all_present 0 (a.last_section_number + 1) a.sections
  unfolding ready
  ready-all_present f a r =
      elim (Bool-cases (all_present 0 (a.last_section_number + 1) a.sections)) [
        | inl y ↦ rw y (
            counted (
              gather-length f 0 (a.last_section_number + 1) a.sections
                (sym (all_present-gather f a r) ∙ rw y refl)))
        | inr n ↦ rw n (and_false _)
      ]

  ready-gather :
      (f : ℕ → Option S) (a : Assembly S)
      → Represents f a
      → (if ready a then some a.sections else none) ≡ gather f 0 (a.last_section_number + 1)
  ready-gather f a r = rw (ready-all_present f a r) (all_present-gather f a r)

  store-Represents :
      (number : ℕ) (s : S) (f : ℕ → Option S) (a : Assembly S) (e : Bool)
      → number ≤ a.last_section_number
      → Represents f a
      → Represents (updated f number s) (record {
        last_section_number = a.last_section_number;
        sections = store number s a.sections;
        emitted = e;
      })
  store-Represents number s f a e h r = record {
    lookup = λ n.
        find-store n number s a.sections ∙ ap (λ o. if n == number then some s else o) (r.lookup n);
    rising = store-Above 0 number s a.sections (omega arith) r.rising;
    within = store-Below (a.last_section_number + 1) number s a.sections (omega arith) r.within;
  }

  -- For an assembly that represents a map and a section whose number is not above the last: the new
  -- assembly represents the map with the section, or the same map when the section was there with
  -- equal content; and a snapshot is handed on exactly when the section is not there already and
  -- every number up to the last then has one. It has each number's section once, in order.
  pub accept-Refines :
      (same : S → S → Bool) (number : ℕ) (s : S) (f : ℕ → Option S) (a : Assembly S)
      → number ≤ a.last_section_number
      → Represents f a
      → Represents (next_map same number s f) (accept same number s a).0
        × ((accept same number s a).1 ≡ next_snapshot same number s a.last_section_number f)
  unfolding accept
  accept-Refines same number s f a h r = elim (Bool-cases (already same s (f number))) [
    | inl y ↦ rw (r.lookup number) (rw y (r, refl))
    | inr n ↦ rw (r.lookup number) (
        rw n (
          store-Represents number s f a _ h r,
          ready-gather (updated f number s) _ (store-Represents number s f a false h r),
        ))
  ]
