-- ===== src/Transport/Assembly.antt =====
-- src/tlv_transport_parser.cpp, accept_nit and accept_address_map: a table's sections are collected
-- by number until all are there. The two functions differ in the section's type, in what of it is
-- compared, and in the snapshot.
pub mod Collect
pub mod Refines
pub mod Keyed
mod Tests
use libaribtlv.Base.{
  ℕ, zero, suc, ◌+◌, Bool, true, false, not, ◌&&◌, ◌||◌, List, [], ◌∷◌, Option, none, some, ltb,
  ◌==◌, if◌then◌else◌, length,
}

pub record TableKey : Type 0 where
  pub table_id : ℕ
  pub extension : ℕ
  pub version : ℕ
  pub current_next : Bool

abbrev pub eq_bool : Bool → Bool → Bool
eq_bool true b = b
eq_bool false b = not b

abbrev pub eq_key : TableKey → TableKey → Bool
eq_key a b =
    a.table_id == b.table_id
    && a.extension == b.extension
    && a.version == b.version
    && eq_bool a.current_next b.current_next

-- Another version of the table, or its other current/next flag.
abbrev pub superseded : TableKey → TableKey → Bool
superseded key old =
    old.table_id == key.table_id
    && old.extension == key.extension
    && (not (old.version == key.version) || not (eq_bool old.current_next key.current_next))

module _ {S : Type 0} where
  -- A std::map by the section's number, in order.
  unfoldable pub find : ℕ → List (ℕ × S) → Option S
  find n [] = none
  find n ((k, s) ∷ rest) = if n == k then some s else find n rest

  unfoldable pub store : ℕ → S → List (ℕ × S) → List (ℕ × S)
  store n s [] = (n, s) ∷ []
  store n s ((k, t) ∷ rest) =
      let others = store n s rest in
      if ltb n k then (n, s) ∷ (k, t) ∷ rest else if n == k then (n, s) ∷ rest else (k, t) ∷ others

  unfoldable pub values : List (ℕ × S) → List S
  values [] = []
  values ((k, s) ∷ rest) = s ∷ values rest

  abbrev pub is_some : Option S → Bool
  is_some none = false
  is_some (some s) = true

  -- The numbers from `number` on, `count` of them, all have a section.
  unfoldable pub all_present : ℕ → ℕ → List (ℕ × S) → Bool
  all_present number zero sections = true
  all_present number (suc count) sections =
      is_some (find number sections) && all_present (number + 1) count sections

pub record Assembly (S : Type 0) : Type 0 where
  pub last_section_number : ℕ
  pub sections : List (ℕ × S)
  pub emitted : Bool

module _ {S : Type 0} where
  abbrev pub empty_assembly : Assembly S
  empty_assembly = record { last_section_number = 0; sections = []; emitted = false }

  unfoldable pub purge : TableKey → List (TableKey × Assembly S) → List (TableKey × Assembly S)
  purge key [] = []
  purge key ((k, a) ∷ rest) =
      let others = purge key rest in if superseded key k then others else (k, a) ∷ others

  unfoldable pub assembly_of : TableKey → List (TableKey × Assembly S) → Assembly S
  assembly_of key [] = empty_assembly
  assembly_of key ((k, a) ∷ rest) = if eq_key key k then a else assembly_of key rest

  unfoldable pub set_assembly :
      TableKey → Assembly S → List (TableKey × Assembly S) → List (TableKey × Assembly S)
  set_assembly key a [] = (key, a) ∷ []
  set_assembly key a ((k, b) ∷ rest) =
      let others = set_assembly key a rest in
      if eq_key key k then (k, a) ∷ rest else (k, b) ∷ others

  abbrev pub is_nil : List (ℕ × S) → Bool
  is_nil [] = true
  is_nil (x ∷ xs) = false

  -- The assembly without the sections of another count, and with this count.
  unfoldable pub recount : ℕ → Assembly S → Assembly S
  recount last a =
      let stale = not (is_nil a.sections) && not (a.last_section_number == last) in
      record {
        last_section_number = last;
        sections = if stale then [] else a.sections;
        emitted = if stale then false else a.emitted;
      }

  abbrev pub already : (S → S → Bool) → S → Option S → Bool
  already same s none = false
  already same s (some t) = same t s

  unfoldable pub ready : Assembly S → Bool
  ready a =
      length a.sections == a.last_section_number + 1
      && all_present 0 (a.last_section_number + 1) a.sections

  -- The snapshot's sections, in order of their numbers.
  unfoldable pub accept : (S → S → Bool) → ℕ → S → Assembly S → Assembly S × Option (List (ℕ × S))
  accept same number s a =
      if already same s (find number a.sections)
      then (a, none)
      else let stored = store number s a.sections in
        let done = ready (record {
          last_section_number = a.last_section_number;
          sections = stored;
          emitted = false;
        }) in
        (
          record { last_section_number = a.last_section_number; sections = stored; emitted = done },
          if done then some stored else none,
        )

  -- The whole function, the map of assemblies included.
  unfoldable pub accept_section :
      (S → S → Bool)
      → TableKey
      → ℕ
      → ℕ
      → S
      → List (TableKey × Assembly S)
      → List (TableKey × Assembly S) × Option (List (ℕ × S))
  accept_section same key number last s tables =
      let kept = purge key tables in
      let (a, snapshot) = accept same number s (recount last (assembly_of key kept)) in
      (set_assembly key a kept, snapshot)
