-- ===== src/Transport/Assembly/Tests.antt =====
-- A table of two sections of which the second arrives.
use libaribtlv.Base.{
  none, ◌&&◌, ℕ, true, List, if◌then◌else◌, ◌≡◌, refl, ◌==◌, false, Option, [], ◌∷◌, arith,
}
use libaribtlv.Transport.Assembly.{
  TableKey, eq_key, Assembly, assembly_of, find, accept, accept_section,
}
use libaribtlv.Transport.Assembly.Keyed.{held, own_section, accept_section-lookup}
use libaribtlv.Transport.Assembly.Refines.{Represents, next_map, next_snapshot, accept-Refines}

abbrev half : Assembly ℕ
half = record { last_section_number = 1; sections = (0, 10) ∷ []; emitted = false }

abbrev half_map : ℕ → Option ℕ
half_map n = find n half.sections

half-Represents : Represents half_map half
half-Represents = record {
  lookup = λ n. refl;
  rising = (omega arith, tt);
  within = (omega arith, tt);
}

accept-Refines_example :
    Represents (next_map ◌==◌ 1 20 half_map) (accept ◌==◌ 1 20 half).0
    × ((accept ◌==◌ 1 20 half).1 ≡ next_snapshot ◌==◌ 1 20 1 half_map)
accept-Refines_example = accept-Refines ◌==◌ 1 20 half_map half (omega arith) half-Represents

abbrev old_key : TableKey
old_key = record { table_id = 64; extension = 4; version = 1; current_next = true }

abbrev new_key : TableKey
new_key = record { table_id = 64; extension = 4; version = 2; current_next = true }

abbrev new_tables : List (TableKey × Assembly ℕ)
new_tables = (old_key, half) ∷ (new_key, half) ∷ []

accept_section-lookup_example : held new_key (accept_section ◌==◌ new_key 0 2 30 new_tables).0 1 ≡ (
    if eq_key new_key new_key
    then own_section ◌==◌ 0 2 30 (assembly_of new_key new_tables) 1
    else if new_key.table_id == new_key.table_id && new_key.extension == new_key.extension
    then none
    else held new_key new_tables 1)
accept_section-lookup_example = accept_section-lookup ◌==◌ new_key 0 2 30 new_tables new_key 1
