-- ===== src/Pclass/Hash.antt =====
-- The hash of a property: HashCalculator and IProperty of pclass. The hash of its type is a parameter.
use libki.Common.{ℕ, ◌+◌, ◌-◌, ◌*◌, ◌%◌, ◌^◌, [], ◌∷◌, ltb, bit_and, if◌then◌else◌}
use libki.Map.Names.{Name}
use libki.Pclass.PropertyList.{Property}

-- A character is signed; it goes into a number of 32 bits.
abbrev char_value : ℕ → ℕ
char_value c = if ltb c 128 then c else c + 2 ^ 32 - 2 ^ 8

unfoldable hash_loop : ℕ → Name → ℕ
hash_loop result [] = result
hash_loop result (c ∷ name) = hash_loop ((0x21 * result + char_value c) % 2 ^ 32) name

unfoldable calculate_property_hash : Name → ℕ
unfolding hash_loop
calculate_property_hash name = bit_and (hash_loop 0x1505 name) 0x7FFFFFFF

-- The constructor, without the entry in the property list.
unfoldable property : Name → ℕ → Property
unfolding calculate_property_hash
property name type_hash = record {
  m_name = name;
  m_full_hash = (calculate_property_hash name + type_hash) % 2 ^ 32;
}
