-- ===== src/Registry/Map/Laws.antt =====
-- What the operations of the map keep: lookups and distinct keys.
use duckdb_data.Registry.Map.{lookup, put, emplace, erase, erase_first, erase_if}
use duckdb_data.Base.{
  ◌≡◌, refl, ◌≢◌, ◌⊎◌, inl, inr, Bool, true, false, none, some, List, [], ◌∷◌, arith, Option-cases,
  Bytes, bytes_eq_iff, bytes_eq_refl,
}

module _ {ℓ} {V : Type ℓ} where
  abbrev pub Distinct : List (Bytes × V) → Type ℓ
  Distinct [] = Unit
  Distinct ((j, v) ∷ m) = (lookup j m ≡ none) × Distinct m

  -- Lookups.

  pub lookup-put_self :
      (k : Bytes) (w v : V) (m : List (Bytes × V))
      → lookup k m ≡ some v
      → lookup k (put k w m) ≡ some w
  unfolding lookup put
  lookup-put_self k w v [] e = cc
  lookup-put_self k w v ((j, u) ∷ m) e = ground (arith, lookup-put_self k w v m)

  pub lookup-put_ne :
      (k j : Bytes) (w : V) (m : List (Bytes × V)) → k ≢ j → lookup j (put k w m) ≡ lookup j m
  unfolding lookup put
  lookup-put_ne k j w [] n = refl
  lookup-put_ne k j w ((i, u) ∷ m) n =
      ground (arith, bytes_eq_iff i k, bytes_eq_iff i j, lookup-put_ne k j w m n)

  pub lookup-put-none :
      (k j : Bytes) (w : V) (m : List (Bytes × V)) → lookup j m ≡ none → lookup j (put k w m) ≡ none
  unfolding lookup put
  lookup-put-none k j w [] e = refl
  lookup-put-none k j w ((i, u) ∷ m) e = ground (arith, lookup-put-none k j w m)

  pub lookup-emplace_self :
      (k : Bytes) (w : V) (m : List (Bytes × V))
      → lookup k m ≡ none
      → lookup k (emplace k w m) ≡ some w
  unfolding lookup emplace
  lookup-emplace_self k w [] e = rw (bytes_eq_refl k)
  lookup-emplace_self k w ((i, u) ∷ m) e =
      ground (arith, bytes_eq_refl k, lookup-emplace_self k w m)

  pub lookup-emplace_ne :
      (k j : Bytes) (w : V) (m : List (Bytes × V)) → k ≢ j → lookup j (emplace k w m) ≡ lookup j m
  unfolding lookup emplace
  lookup-emplace_ne k j w [] n = ground (arith, bytes_eq_iff k j)
  lookup-emplace_ne k j w ((i, u) ∷ m) n =
      ground (arith, bytes_eq_iff k j, lookup-emplace_ne k j w m n)

  pub lookup-erase_self : (k : Bytes) (m : List (Bytes × V)) → lookup k (erase k m) ≡ none
  unfolding lookup erase
  lookup-erase_self k [] = refl
  lookup-erase_self k ((i, u) ∷ m) = ground (arith, lookup-erase_self k m)

  pub lookup-erase_ne :
      (k j : Bytes) (m : List (Bytes × V)) → k ≢ j → lookup j (erase k m) ≡ lookup j m
  unfolding lookup erase
  lookup-erase_ne k j [] n = refl
  lookup-erase_ne k j ((i, u) ∷ m) n =
      ground (arith, bytes_eq_iff i k, bytes_eq_iff i j, lookup-erase_ne k j m n)

  pub lookup-erase-none :
      (k j : Bytes) (m : List (Bytes × V)) → lookup j m ≡ none → lookup j (erase k m) ≡ none
  unfolding lookup erase
  lookup-erase-none k j [] e = refl
  lookup-erase-none k j ((i, u) ∷ m) e = ground (arith, lookup-erase-none k j m)

  pub lookup-erase_if-none :
      (p : V → Bool) (j : Bytes) (m : List (Bytes × V))
      → lookup j m ≡ none
      → lookup j (erase_if p m) ≡ none
  unfolding lookup erase_if
  lookup-erase_if-none p j [] e = refl
  lookup-erase_if-none p j ((i, u) ∷ m) e = ground (arith, lookup-erase_if-none p j m)

  -- With distinct keys, what erase_if leaves under a key is what was there, unless it passed.
  pub lookup-erase_if :
      (p : V → Bool) (j : Bytes) (m : List (Bytes × V)) {v : V}
      → Distinct m
      → lookup j (erase_if p m) ≡ some v
      → (lookup j m ≡ some v) × (p v ≡ false)
  unfolding lookup erase_if
  lookup-erase_if p j [] d e = cc
  lookup-erase_if p j ((i, u) ∷ m) {v} d e =
      ground
        (arith, bytes_eq_iff i j, lookup-erase_if p j m {v = v} d.1, lookup-erase_if-none p j m)

  -- What erase_first takes out passed the test, and every other key keeps its value.
  pub lookup-erase_first :
      (p : V → Bool) (j : Bytes) (m m' : List (Bytes × V)) {v : V}
      → Distinct m
      → erase_first p m ≡ some m'
      → lookup j m ≡ some v
      → (lookup j m' ≡ some v) ⊎ ((lookup j m' ≡ none) × (p v ≡ true))
  unfolding lookup erase_first
  lookup-erase_first p j [] m' d e f = cc
  lookup-erase_first p j ((i, u) ∷ m) m' {v} d e f = elim (Option-cases (erase_first p m)) [
    | inl q ↦ ground (arith, bytes_eq_iff i j)
    | inr (n, q) ↦ ground (arith, bytes_eq_iff i j, lookup-erase_first p j m n {v = v} d.1 q)
  ]

  pub lookup-erase_first-none :
      (p : V → Bool) (j : Bytes) (m m' : List (Bytes × V))
      → erase_first p m ≡ some m'
      → lookup j m ≡ none
      → lookup j m' ≡ none
  unfolding lookup erase_first
  lookup-erase_first-none p j [] m' e f = cc
  lookup-erase_first-none p j ((i, u) ∷ m) m' e f = elim (Option-cases (erase_first p m)) [
    | inl q ↦ ground arith
    | inr (n, q) ↦ ground (arith, lookup-erase_first-none p j m n q)
  ]

  -- Distinct keys.

  pub put-Distinct : (k : Bytes) (w : V) (m : List (Bytes × V)) → Distinct m → Distinct (put k w m)
  unfolding lookup put
  put-Distinct k w [] d = tt
  put-Distinct k w ((j, v) ∷ m) d =
      ground (arith, put-Distinct k w m d.1, lookup-put-none k j w m d.0)

  pub emplace-Distinct :
      (k : Bytes) (w : V) (m : List (Bytes × V))
      → lookup k m ≡ none
      → Distinct m
      → Distinct (emplace k w m)
  unfolding lookup emplace
  emplace-Distinct k w [] e d = (refl, tt)
  emplace-Distinct k w ((j, v) ∷ m) e d =
      ground (arith, bytes_eq_iff j k, emplace-Distinct k w m, lookup-emplace_ne k j w m)

  pub erase-Distinct : (k : Bytes) (m : List (Bytes × V)) → Distinct m → Distinct (erase k m)
  unfolding erase
  erase-Distinct k [] d = tt
  erase-Distinct k ((j, v) ∷ m) d =
      ground (arith, erase-Distinct k m d.1, lookup-erase-none k j m d.0)

  pub erase_if-Distinct :
      (p : V → Bool) (m : List (Bytes × V)) → Distinct m → Distinct (erase_if p m)
  unfolding erase_if
  erase_if-Distinct p [] d = tt
  erase_if-Distinct p ((j, v) ∷ m) d =
      ground (arith, erase_if-Distinct p m d.1, lookup-erase_if-none p j m d.0)

  pub erase_first-Distinct :
      (p : V → Bool) (m m' : List (Bytes × V))
      → erase_first p m ≡ some m'
      → Distinct m
      → Distinct m'
  unfolding erase_first
  erase_first-Distinct p [] m' e d = cc
  erase_first-Distinct p ((i, u) ∷ m) m' e d = elim (Option-cases (erase_first p m)) [
    | inl q ↦ ground (arith)
    | inr (n, q) ↦
        ground (arith, erase_first-Distinct p m n q d.1, lookup-erase_first-none p i m n q d.0)
  ]
