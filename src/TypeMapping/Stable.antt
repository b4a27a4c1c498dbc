-- ===== src/TypeMapping/Stable.antt =====
-- A type that comes out of the mapping is mapped to itself.
use duckdb_data.TypeMapping.{
  TypeMapping, unknown, to_upper, decimal_groups, stoul, decimal, is_one_of, rows, choose, named,
  of_normalized, map_data360_type,
}
use duckdb_data.Base.{
  ℕ, String, ◌≡◌, refl, sym, ap, ◌∙◌, subst, ◌⊎◌, inl, inr, Bool, true, false, Option, none, some,
  List, [], ◌∷◌, ◌++◌, map, arith, if◌then◌else◌, All, Bytes, codes, bytes_eq, starts_with, all_of,
  cut,
}

-- Mapped again, the type keeps its name and its format and is known.
abbrev pub IsStable : TypeMapping → Type 0
IsStable m =
    ((map_data360_type m.duckdb_type).duckdb_type ≡ m.duckdb_type)
    × ((map_data360_type m.duckdb_type).arrow_format ≡ m.arrow_format)
    × ((map_data360_type m.duckdb_type).lossy ≡ false)

to_upper_twice : (c : ℕ) → to_upper (to_upper c) ≡ to_upper c
unfolding to_upper
to_upper_twice c = ground arith

map-to_upper_twice : (s : Bytes) → map to_upper (map to_upper s) ≡ map to_upper s
map-to_upper_twice [] = refl
map-to_upper_twice (c ∷ s) = rw (to_upper_twice c, map-to_upper_twice s) refl

-- The mapping does not look at the case of letters.
pub map_data360_type-to_upper : (t : Bytes) → map_data360_type (map to_upper t) ≡ map_data360_type t
unfolding map_data360_type
map_data360_type-to_upper t = ap of_normalized (map-to_upper_twice t)

named-IsStable :
    (table : List (List String × TypeMapping)) (name : Bytes)
    → All (λ r. IsStable r.1) table
    → IsStable unknown
    → IsStable (named table name)
unfolding named
named-IsStable [] name h u = u
named-IsStable ((names, m) ∷ more) name h u =
    pick (is_one_of names name) (named-IsStable more name h.1 u)
  where
    pick : (b : Bool) → IsStable (named more name) → IsStable (if b then m else named more name)
    pick true rest = h.0
    pick false rest = rest

unknown-IsStable : IsStable unknown
unfolding map_data360_type of_normalized decimal_groups named bytes_eq starts_with to_upper
unknown-IsStable = (refl, refl, refl)

rows-IsStable : All (λ r. IsStable r.1) rows
unfolding map_data360_type of_normalized decimal_groups named bytes_eq starts_with to_upper decimal
    stoul cut all_of
rows-IsStable = (
  (refl, refl, refl),
  (
    (refl, refl, refl),
    (
      (refl, refl, refl),
      (
        (refl, refl, refl),
        (
          (refl, refl, refl),
          (
            (refl, refl, refl),
            ((refl, refl, refl), ((refl, refl, refl), ((refl, refl, refl), tt))),
          ),
        ),
      ),
    ),
  ),
)

-- A decimal that is not refused.
abbrev exact : Bytes → Bytes → Bytes → TypeMapping
exact name precision scale = record {
  duckdb_type = name;
  arrow_format = codes "d:" ++ (precision ++ (codes "," ++ scale));
  lossy = false;
}

decimal-cases :
    (name precision scale : Bytes)
    → (decimal name precision scale ≡ unknown)
      ⊎ (decimal name precision scale ≡ exact name precision scale)
unfolding decimal
decimal-cases name precision scale = ground arith

mapped_decimal :
    (t precision scale : Bytes)
    → decimal_groups (map to_upper t) ≡ some (precision, scale)
    → map_data360_type (map to_upper t) ≡ decimal (map to_upper t) precision scale
unfolding of_normalized map_data360_type
mapped_decimal t precision scale e =
    ap of_normalized (map-to_upper_twice t) ∙ ap (choose (map to_upper t)) e

decimal-IsStable :
    (t precision scale : Bytes)
    → decimal_groups (map to_upper t) ≡ some (precision, scale)
    → IsStable (decimal (map to_upper t) precision scale)
decimal-IsStable t precision scale e = elim (decimal-cases (map to_upper t) precision scale) [
  | inl u ↦ subst IsStable (sym u) unknown-IsStable
  | inr x ↦
      let same = mapped_decimal t precision scale e ∙ x in
      let stable : IsStable (exact (map to_upper t) precision scale) = (
        ap (λ (m : TypeMapping). m.duckdb_type) same,
        ap (λ (m : TypeMapping). m.arrow_format) same,
        ap (λ (m : TypeMapping). m.lossy) same,
      ) in
      subst IsStable (sym x) stable
]

chosen-IsStable :
    (t : Bytes) (groups : Option (Bytes × Bytes))
    → decimal_groups (map to_upper t) ≡ groups
    → IsStable (choose (map to_upper t) groups)
chosen-IsStable t none e = named-IsStable rows (map to_upper t) rows-IsStable unknown-IsStable
chosen-IsStable t (some (precision, scale)) e = decimal-IsStable t precision scale e

mapped :
    (t : Bytes) → map_data360_type t ≡ choose (map to_upper t) (decimal_groups (map to_upper t))
unfolding map_data360_type of_normalized
mapped t = refl

-- The type that MapData360Type gives, fed to it again, gives the same type and format, and is not
-- lossy: each DuckDB type is a name of itself.
pub map_data360_type-IsStable : (t : Bytes) → IsStable (map_data360_type t)
map_data360_type-IsStable t =
    subst IsStable (sym (mapped t)) (chosen-IsStable t (decimal_groups (map to_upper t)) refl)
