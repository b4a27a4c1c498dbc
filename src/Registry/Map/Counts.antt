-- ===== src/Registry/Map/Counts.antt =====
-- What the operations of the map keep of every value, of the size, and of how many values pass a
-- test.
use duckdb_data.Registry.Map.{lookup, put, emplace, erase, erase_first, erase_if, count_if}
use duckdb_data.Base.{
  ℕ, suc, ◌+◌, ◌≤◌, ◌≡◌, refl, subst, inl, inr, Bool, not, none, some, List, [], ◌∷◌, arith,
  if◌then◌else◌, Bool-cases, Option-cases, length, Bytes, bytes_eq, bytes_lt,
}

abbrev pub as_number : Bool → ℕ
as_number b = if b then 1 else 0

module _ {ℓ} {V : Type ℓ} where
  abbrev pub AllValues {κ} : (V → Type κ) → List (Bytes × V) → Type κ
  AllValues P [] = Unit
  AllValues P ((j, v) ∷ m) = P v × AllValues P m

  pub AllValues-lookup {κ} :
      (P : V → Type κ) (k : Bytes) (m : List (Bytes × V)) {v : V}
      → AllValues P m
      → lookup k m ≡ some v
      → P v
  unfolding lookup
  AllValues-lookup P k [] h e = cc
  AllValues-lookup P k ((j, u) ∷ m) {v} h e = elim (Bool-cases (bytes_eq j k)) [
    | inl t ↦ subst P (ground arith) h.0
    | inr t ↦ AllValues-lookup P k m h.1 (ground arith)
  ]

  pub put-AllValues {κ} :
      (P : V → Type κ) (k : Bytes) (w : V) (m : List (Bytes × V))
      → AllValues P m
      → P w
      → AllValues P (put k w m)
  unfolding put
  put-AllValues P k w [] h p = tt
  put-AllValues P k w ((j, u) ∷ m) h p = elim (Bool-cases (bytes_eq j k)) [
    | inl t ↦ rw t (p, h.1)
    | inr t ↦ rw t (h.0, put-AllValues P k w m h.1 p)
  ]

  pub emplace-AllValues {κ} :
      (P : V → Type κ) (k : Bytes) (w : V) (m : List (Bytes × V))
      → AllValues P m
      → P w
      → AllValues P (emplace k w m)
  unfolding emplace
  emplace-AllValues P k w [] h p = (p, tt)
  emplace-AllValues P k w ((j, u) ∷ m) h p = elim (Bool-cases (bytes_eq j k)) [
    | inl t ↦ rw t h
    | inr t ↦ elim (Bool-cases (bytes_lt k j)) [
      | inl l ↦ rw (t, l) (p, h)
      | inr l ↦ rw (t, l) (h.0, emplace-AllValues P k w m h.1 p)
    ]
  ]

  pub erase-AllValues {κ} :
      (P : V → Type κ) (k : Bytes) (m : List (Bytes × V)) → AllValues P m → AllValues P (erase k m)
  unfolding erase
  erase-AllValues P k [] h = tt
  erase-AllValues P k ((j, u) ∷ m) h = elim (Bool-cases (bytes_eq j k)) [
    | inl t ↦ rw t (erase-AllValues P k m h.1)
    | inr t ↦ rw t (h.0, erase-AllValues P k m h.1)
  ]

  pub erase_if-AllValues {κ} :
      (P : V → Type κ) (p : V → Bool) (m : List (Bytes × V))
      → AllValues P m
      → AllValues P (erase_if p m)
  unfolding erase_if
  erase_if-AllValues P p [] h = tt
  erase_if-AllValues P p ((j, u) ∷ m) h = elim (Bool-cases (p u)) [
    | inl t ↦ rw t (erase_if-AllValues P p m h.1)
    | inr t ↦ rw t (h.0, erase_if-AllValues P p m h.1)
  ]

  some_injective : {x y : List (Bytes × V)} → some x ≡ some y → x ≡ y
  some_injective e = cc

  pub erase_first-AllValues {κ} :
      (P : V → Type κ) (p : V → Bool) (m m' : List (Bytes × V))
      → erase_first p m ≡ some m'
      → AllValues P m
      → AllValues P m'
  unfolding erase_first
  erase_first-AllValues P p [] m' e h = cc
  erase_first-AllValues P p ((j, u) ∷ m) m' e h = elim (Bool-cases (p u)) [
    | inl t ↦ subst (AllValues P) (some_injective (rw t at e)) h.1
    | inr t ↦ elim (Option-cases (erase_first p m)) [
      | inl q ↦ cc (rw (t, q) at e)
      | inr (n, q) ↦
          subst (AllValues P) (some_injective (rw (t, q) at e))
            (h.0, erase_first-AllValues P p m n q h.1)
    ]
  ]

  -- Sizes.

  pub length-put : (k : Bytes) (w : V) (m : List (Bytes × V)) → length (put k w m) ≡ length m
  unfolding put
  length-put k w [] = refl
  length-put k w ((j, u) ∷ m) = ground (arith, length-put k w m)

  pub length-emplace-le :
      (k : Bytes) (w : V) (m : List (Bytes × V)) → length (emplace k w m) ≤ length m + 1
  unfolding emplace
  length-emplace-le k w [] = omega arith
  length-emplace-le k w ((j, u) ∷ m) = ground (arith, length-emplace-le k w m)

  pub length-erase-le : (k : Bytes) (m : List (Bytes × V)) → length (erase k m) ≤ length m
  unfolding erase
  length-erase-le k [] = omega arith
  length-erase-le k ((j, u) ∷ m) = ground (arith, length-erase-le k m)

  pub length-erase_if-le : (p : V → Bool) (m : List (Bytes × V)) → length (erase_if p m) ≤ length m
  unfolding erase_if
  length-erase_if-le p [] = omega arith
  length-erase_if-le p ((j, u) ∷ m) = ground (arith, length-erase_if-le p m)

  pub length-erase_first :
      (p : V → Bool) (m m' : List (Bytes × V))
      → erase_first p m ≡ some m'
      → suc (length m') ≡ length m
  unfolding erase_first
  length-erase_first p [] m' e = cc
  length-erase_first p ((j, u) ∷ m) m' e = elim (Option-cases (erase_first p m)) [
    | inl q ↦ ground arith
    | inr (n, q) ↦ ground (arith, length-erase_first p m n q)
  ]

  -- Counts.

  pub count_if-put :
      (p : V → Bool) (k : Bytes) (w v : V) (m : List (Bytes × V))
      → lookup k m ≡ some v
      → count_if p (put k w m) + as_number (p v) ≡ count_if p m + as_number (p w)
  unfolding lookup put count_if
  count_if-put p k w v [] e = cc
  count_if-put p k w v ((j, u) ∷ m) e = elim (Bool-cases (bytes_eq j k)) [
    | inl t ↦ let same : u ≡ v = ground arith in rw (t, same) (omega arith)
    | inr t ↦ rw t (let rest = count_if-put p k w v m (ground arith) in omega arith)
  ]

  pub count_if-emplace-le :
      (p : V → Bool) (k : Bytes) (w : V) (m : List (Bytes × V))
      → count_if p (emplace k w m) ≤ count_if p m + as_number (p w)
  unfolding emplace count_if
  count_if-emplace-le p k w [] = omega arith
  count_if-emplace-le p k w ((j, u) ∷ m) = elim (Bool-cases (bytes_eq j k)) [
    | inl t ↦ rw t (omega arith)
    | inr t ↦ elim (Bool-cases (bytes_lt k j)) [
      | inl l ↦ rw (t, l) (omega arith)
      | inr l ↦ rw (t, l) (omega (arith, count_if-emplace-le p k w m))
    ]
  ]

  pub count_if-erase_first-le :
      (p q : V → Bool) (m m' : List (Bytes × V))
      → erase_first q m ≡ some m'
      → count_if p m' ≤ count_if p m
  unfolding erase_first count_if
  count_if-erase_first-le p q [] m' e = cc
  count_if-erase_first-le p q ((j, u) ∷ m) m' e = elim (Option-cases (erase_first q m)) [
    | inl t ↦ ground arith
    | inr (n, t) ↦ ground (arith, count_if-erase_first-le p q m n t)
  ]

  -- Where nothing passes the test of erase_first, everything passes the opposite test.
  pub erase_first-none-count_if :
      (p : V → Bool) (m : List (Bytes × V))
      → erase_first p m ≡ none
      → count_if (λ v. not (p v)) m ≡ length m
  unfolding erase_first count_if
  erase_first-none-count_if p [] e = refl
  erase_first-none-count_if p ((j, u) ∷ m) e = elim (Option-cases (erase_first p m)) [
    | inl t ↦ ground (arith, erase_first-none-count_if p m t)
    | inr (n, t) ↦ ground arith
  ]
