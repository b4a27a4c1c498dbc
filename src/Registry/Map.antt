-- ===== src/Registry/Map.antt =====
-- std::map with string keys: its entries in the order of iteration, which is that of the keys.
pub mod Laws
pub mod Counts
use duckdb_data.Base.{
  ℕ, ◌+◌, Bool, true, false, Option, none, some, List, [], ◌∷◌, if◌then◌else◌, Bytes, bytes_eq,
  bytes_lt,
}

module _ {ℓ} {V : Type ℓ} where
  unfoldable pub lookup : Bytes → List (Bytes × V) → Option V
  lookup k [] = none
  lookup k ((j, v) ∷ m) = if bytes_eq j k then some v else lookup k m

  -- count(k) != 0.
  abbrev pub has : Bytes → List (Bytes × V) → Bool
  has k m = elim (lookup k m) [ none ↦ false | some v ↦ true ]

  -- A write through the reference that `find` gave.
  unfoldable pub put : Bytes → V → List (Bytes × V) → List (Bytes × V)
  put k w [] = []
  put k w ((j, v) ∷ m) = if bytes_eq j k then (j, w) ∷ m else (j, v) ∷ put k w m

  -- emplace does nothing where the key is present.
  unfoldable pub emplace : Bytes → V → List (Bytes × V) → List (Bytes × V)
  emplace k w [] = (k, w) ∷ []
  emplace k w ((j, v) ∷ m) =
      if bytes_eq j k
      then (j, v) ∷ m
      else if bytes_lt k j
      then (k, w) ∷ (j, v) ∷ m
      else (j, v) ∷ emplace k w m

  unfoldable pub erase : Bytes → List (Bytes × V) → List (Bytes × V)
  erase k [] = []
  erase k ((j, v) ∷ m) = if bytes_eq j k then erase k m else (j, v) ∷ erase k m

  -- The first entry in iteration order whose value passes the test, taken out.
  unfoldable pub erase_first : (V → Bool) → List (Bytes × V) → Option (List (Bytes × V))
  erase_first p [] = none
  erase_first p ((j, v) ∷ m) =
      let later : Option (List (Bytes × V)) = elim (erase_first p m) [
        | none ↦ none
        | some m' ↦ some ((j, v) ∷ m')
      ] in
      if p v then some m else later

  -- The loop that erases what passes the test and steps over the rest.
  unfoldable pub erase_if : (V → Bool) → List (Bytes × V) → List (Bytes × V)
  erase_if p [] = []
  erase_if p ((j, v) ∷ m) = if p v then erase_if p m else (j, v) ∷ erase_if p m

  unfoldable pub count_if : (V → Bool) → List (Bytes × V) → ℕ
  count_if p [] = 0
  count_if p ((j, v) ∷ m) = (if p v then 1 else 0) + count_if p m
