-- ===== src/Transport/Assembly/Keyed.antt =====
-- The tables by their keys: what a section of one table does to each of them.

use libaribtlv.Transport.Assembly.Collect.{find-store}
use libaribtlv.Base.{
  Option, none, some, not, ◌||◌, ℕ, ◌≡◌, refl, sym, ap, ◌∙◌, Bool, true, false, ◌&&◌, Bool-cases,
  inl, inr, List, [], ◌∷◌, ◌==◌, ==_iff, if◌then◌else◌, arith,
}
use libaribtlv.Transport.Assembly.{
  TableKey, eq_bool, eq_key, superseded, Assembly, empty_assembly, purge, assembly_of, set_assembly,
  recount, is_nil, find, already, accept, accept_section,
}

and_parts : (a b : Bool) → (a && b) ≡ true → (a ≡ true) × (b ≡ true)
and_parts true b h = (refl, h)
and_parts false b h = cc h

eq_bool_sound : (a b : Bool) → eq_bool a b ≡ true → a ≡ b
eq_bool_sound true b h = sym h
eq_bool_sound false true h = cc h
eq_bool_sound false false h = refl

eq_bool_self : (a : Bool) → eq_bool a a ≡ true
eq_bool_self true = refl
eq_bool_self false = refl

==_self : (a : ℕ) → (a == a) ≡ true
==_self a = ground arith

eq_key_sound : (a b : TableKey) → eq_key a b ≡ true → a ≡ b
eq_key_sound a b h =
    let (front, c) =
      and_parts (a.table_id == b.table_id && a.extension == b.extension && a.version == b.version)
        (eq_bool a.current_next b.current_next) h in
    let (pair, v) =
      and_parts (a.table_id == b.table_id && a.extension == b.extension) (a.version == b.version)
        front in
    let (t, e) = and_parts (a.table_id == b.table_id) (a.extension == b.extension) pair in
    ap
      (λ x. record {
        table_id = x;
        extension = a.extension;
        version = a.version;
        current_next = a.current_next;
      })
      ((==_iff a.table_id b.table_id).0 t)
    ∙ ap
        (λ x. record {
          table_id = b.table_id;
          extension = x;
          version = a.version;
          current_next = a.current_next;
        })
        ((==_iff a.extension b.extension).0 e)
    ∙ ap
        (λ x. record {
          table_id = b.table_id;
          extension = b.extension;
          version = x;
          current_next = a.current_next;
        })
        ((==_iff a.version b.version).0 v)
    ∙ ap
        (λ x. record {
          table_id = b.table_id;
          extension = b.extension;
          version = b.version;
          current_next = x;
        })
        (eq_bool_sound a.current_next b.current_next c)

eq_key_self : (a : TableKey) → eq_key a a ≡ true
eq_key_self a =
    rw (==_self a.table_id)
      (rw (==_self a.extension) (rw (==_self a.version) (rw (eq_bool_self a.current_next) refl)))

superseded_self : (a : TableKey) → superseded a a ≡ false
superseded_self a =
    rw (==_self a.table_id)
      (rw (==_self a.extension) (rw (==_self a.version) (rw (eq_bool_self a.current_next) refl)))

-- A key of the same table and extension that is not the same key differs in the rest.
superseded_other :
    (key k : TableKey)
    → eq_key k key ≡ false
    → superseded key k ≡ (k.table_id == key.table_id && k.extension == key.extension)
superseded_other key k h =
    tail (k.table_id == key.table_id) (k.extension == key.extension) (k.version == key.version)
      (eq_bool k.current_next key.current_next) h
  where
    tail : (a b c d : Bool) → (a && b && c && d) ≡ false → (a && b && (not c || not d)) ≡ (a && b)
    tail a b c d h = ground arith

module _ {S : Type 0} where
  assembly_of-set :
      (k key : TableKey) (a : Assembly S) (t : List (TableKey × Assembly S))
      → assembly_of k (set_assembly key a t) ≡ (if eq_key k key then a else assembly_of k t)
  unfolding assembly_of set_assembly
  assembly_of-set k key a [] = refl
  assembly_of-set k key a ((j, b) ∷ rest) = elim (Bool-cases (eq_key key j)) [
    | inl y ↦
        let e : key ≡ j = eq_key_sound key j y in
        rw y (elim (Bool-cases (eq_key k j)) [
          | inl z ↦ rw z (ap (λ c. if c then a else b) (sym (ap (eq_key k) e ∙ z)))
          | inr z ↦ rw z (ap (λ c. if c then a else assembly_of k rest) (sym (ap (eq_key k) e ∙ z)))
        ])
    | inr y ↦ rw y (
        rw (assembly_of-set k key a rest) (elim (Bool-cases (eq_key k j)) [
          | inl z ↦ rw z (ap (λ c. if c then a else b) (sym (apart k j key z y)))
          | inr z ↦ rw z refl
        ]))
  ]
    where
      apart : (k j key : TableKey) → eq_key k j ≡ true → eq_key key j ≡ false → eq_key k key ≡ false
      apart k j key z y = elim (Bool-cases (eq_key k key)) [
        | inr n ↦ n
        | inl e ↦
            let same : key ≡ k = sym (eq_key_sound k key e) in
            let bad : true ≡ false = sym (ap (λ x. eq_key x j) same ∙ z) ∙ y in cc bad
      ]

  assembly_of-purge :
      (k key : TableKey) (t : List (TableKey × Assembly S))
      → assembly_of k (purge key t) ≡ (if superseded key k then empty_assembly else assembly_of k t)
  unfolding assembly_of purge
  assembly_of-purge k key [] = elim (Bool-cases (superseded key k)) [
    | inl y ↦ rw y refl
    | inr y ↦ rw y refl
  ]
  assembly_of-purge k key ((j, a) ∷ rest) = elim (Bool-cases (superseded key j)) [
    | inl y ↦ rw y (
        rw (assembly_of-purge k key rest) (elim (Bool-cases (eq_key k j)) [
          | inl z ↦
              let s : superseded key k ≡ true = ap (superseded key) (eq_key_sound k j z) ∙ y in
              rw s refl
          | inr z ↦ rw z refl
        ]))
    | inr y ↦ rw y (
        rw (assembly_of-purge k key rest) (elim (Bool-cases (eq_key k j)) [
          | inl z ↦
              let s : superseded key k ≡ false = ap (superseded key) (eq_key_sound k j z) ∙ y in
              rw s (rw z refl)
          | inr z ↦ rw z refl
        ]))
  ]

  -- The sections that stand under a key.
  abbrev pub held : TableKey → List (TableKey × Assembly S) → ℕ → Option S
  held k tables n = find n (assembly_of k tables).sections

  abbrev pub same_as : (S → S → Bool) → S → Option S → Bool
  same_as same s none = false
  same_as same s (some t) = same t s

  -- What a section with the number `number` of `last` leaves under its own key, at the number `n`.
  abbrev pub own_section : (S → S → Bool) → ℕ → ℕ → S → Assembly S → ℕ → Option S
  own_section same number last s old n =
      let before =
        λ (i : ℕ). if old.last_section_number == last then find i old.sections else none in
      if n == number then if same_as same s (before n) then before n else some s else before n

  find_kept :
      (n : ℕ) (b : Bool) (xs : List (ℕ × S))
      → find n (if not (is_nil xs) && not b then [] else xs) ≡ (if b then find n xs else none)
  unfolding find
  find_kept n true [] = refl
  find_kept n false [] = refl
  find_kept n true (x ∷ xs) = refl
  find_kept n false (x ∷ xs) = refl

  find-recount :
      (last n : ℕ) (a : Assembly S)
      → find n (recount last a).sections
        ≡ (if a.last_section_number == last then find n a.sections else none)
  unfolding recount
  find-recount last n a = find_kept n (a.last_section_number == last) a.sections

  find-accept :
      (same : S → S → Bool) (number n : ℕ) (s : S) (a : Assembly S)
      → find n (accept same number s a).0.sections ≡ (
          if n == number
          then if same_as same s (find n a.sections) then find n a.sections else some s
          else find n a.sections)
  unfolding accept
  find-accept same number n s a = elim (Bool-cases (already same s (find number a.sections))) [
    | inl y ↦ rw y (elim (Bool-cases (n == number)) [
      | inl z ↦
          let e : n ≡ number = (==_iff n number).0 z in
          rw z (
            let w : same_as same s (find n a.sections) ≡ true =
              same_as-already same s (find n a.sections)
              ∙ ap (λ i. already same s (find i a.sections)) e
              ∙ y in
            rw w refl)
      | inr z ↦ rw z refl
    ])
    | inr y ↦ rw y (
        find-store n number s a.sections ∙ elim (Bool-cases (n == number)) [
          | inl z ↦
              let e : n ≡ number = (==_iff n number).0 z in
              rw z (
                let w : same_as same s (find n a.sections) ≡ false =
                  same_as-already same s (find n a.sections)
                  ∙ ap (λ i. already same s (find i a.sections)) e
                  ∙ y in
                rw w refl)
          | inr z ↦ rw z refl
        ])
  ]
    where
      same_as-already :
          (same : S → S → Bool) (s : S) (o : Option S) → same_as same s o ≡ already same s o
      same_as-already same s none = refl
      same_as-already same s (some t) = refl

  -- For any tables, any section and any key and number, the section that stands there afterwards.
  -- Under the section's own key: at its number, the section, or the one there was if that is the same;
  -- at another number, what was there; where the sections there had another last number, they count
  -- as absent. Under any other key of the same table and extension, which differs in the version or in
  -- the current/next flag: none. Under the keys of other tables: what was there.
  pub accept_section-lookup :
      (same : S → S → Bool) (key : TableKey) (number last : ℕ) (s : S)
      (tables : List (TableKey × Assembly S)) (k : TableKey) (n : ℕ)
      → held k (accept_section same key number last s tables).0 n ≡ (
          if eq_key k key
          then own_section same number last s (assembly_of key tables) n
          else if k.table_id == key.table_id && k.extension == key.extension
          then none
          else held k tables n)
  unfolding accept_section find
  accept_section-lookup same key number last s tables k n =
      ap (λ (a : Assembly S). find n a.sections)
        (assembly_of-set k key
          (accept same number s (recount last (assembly_of key (purge key tables)))).0
          (purge key tables))
      ∙ elim (Bool-cases (eq_key k key)) [
        | inl y ↦ rw y (
            ap (λ x. find n (accept same number s (recount last x)).0.sections) own
            ∙ find-accept same number n s (recount last (assembly_of key tables))
            ∙ ap (λ o. if n == number then if same_as same s o then o else some s else o)
                (find-recount last n (assembly_of key tables)))
        | inr y ↦ rw y (
            ap (λ (a : Assembly S). find n a.sections) (assembly_of-purge k key tables)
            ∙ ap (λ c. find n (if c then empty_assembly else assembly_of k tables).sections)
                (superseded_other key k y)
            ∙ if_find n (k.table_id == key.table_id && k.extension == key.extension)
                (assembly_of k tables))
      ]
    where
      own : assembly_of key (purge key tables) ≡ assembly_of key tables
      own =
          assembly_of-purge key key tables
          ∙ ap (λ c. if c then empty_assembly else assembly_of key tables) (superseded_self key)

      if_find :
          (n : ℕ) (c : Bool) (a : Assembly S)
          → find n (if c then empty_assembly else a).sections
            ≡ (if c then none else find n a.sections)
      if_find n true a = refl
      if_find n false a = refl
