-- ===== src/Registry/Sweep.antt =====
-- What Create does before it enters a session: the sweep over the sessions, the eviction, and the
-- choice of an identifier.
use duckdb_data.Pkce.Base64.{RandomSource}
use duckdb_data.Registry.Map.{lookup, erase_first, count_if}
use duckdb_data.Registry.Map.Laws.{
  Distinct, erase_first-Distinct, lookup-erase_first, lookup-erase_first-none,
}
use duckdb_data.Registry.Map.Counts.{AllValues, length-erase_first, erase_first-none-count_if}
use duckdb_data.Registry.State.{Session, Registry}
use duckdb_data.Registry.Sessions.{
  is_terminal, is_active, expire_locked, expire_all, evict, fresh_id,
}
use duckdb_data.Registry.Sessions.Transitions.{SessionOk, expire_locked-Change}
use duckdb_data.Base.{
  ℕ, zero, suc, ◌+◌, ◌≤◌, ◌≡◌, refl, sym, subst, ◌⊎◌, inl, inr, true, false, Option, none, some,
  List, [], ◌∷◌, arith, leb, Bool-cases, Option-cases, length, Bytes, bytes_eq, ok,
}

abbrev pub active_count : List (Bytes × Session) → ℕ
active_count = count_if λ s. is_active s.status

abbrev pub swept : ℕ → List (Bytes × Session) → List (Bytes × Session)
swept now m = (expire_all now m).0

pub lookup-swept-none :
    (now : ℕ) (j : Bytes) (m : List (Bytes × Session))
    → lookup j m ≡ none
    → lookup j (swept now m) ≡ none
unfolding lookup expire_all
lookup-swept-none now j [] e = refl
lookup-swept-none now j ((i, s) ∷ m) e = ground (arith, lookup-swept-none now j m)

pub lookup-swept :
    (now : ℕ) (j : Bytes) (m : List (Bytes × Session)) {s : Session}
    → lookup j m ≡ some s
    → lookup j (swept now m) ≡ some (expire_locked s now true).0
unfolding lookup expire_all
lookup-swept now j [] e = cc
lookup-swept now j ((i, u) ∷ m) {s} e = elim (Bool-cases (bytes_eq i j)) [
  | inl t ↦ let same : u ≡ s = ground arith in rw (t, same)
  | inr t ↦ rw t (lookup-swept now j m (rw t at e))
]

pub swept-Distinct : (now : ℕ) (m : List (Bytes × Session)) → Distinct m → Distinct (swept now m)
unfolding expire_all
swept-Distinct now [] d = tt
swept-Distinct now ((i, s) ∷ m) d = (lookup-swept-none now i m d.0, swept-Distinct now m d.1)

pub swept-AllValues :
    (now : ℕ) (m : List (Bytes × Session))
    → AllValues SessionOk m
    → AllValues SessionOk (swept now m)
unfolding expire_all
swept-AllValues now [] a = tt
swept-AllValues now ((i, s) ∷ m) a =
    ((expire_locked-Change s now true).keeps_ok a.0, swept-AllValues now m a.1)

pub active_count-swept-le :
    (now : ℕ) (m : List (Bytes × Session)) → active_count (swept now m) ≤ active_count m
unfolding expire_all count_if
active_count-swept-le now [] = omega arith
active_count-swept-le now ((i, s) ∷ m) =
    omega (arith, (expire_locked-Change s now true).keeps_inactive, active_count-swept-le now m)

pub length-swept : (now : ℕ) (m : List (Bytes × Session)) → length (swept now m) ≡ length m
unfolding expire_all
length-swept now [] = refl
length-swept now ((i, s) ∷ m) = omega (arith, length-swept now m)

-- The eviction loop.

abbrev first_ended : List (Bytes × Session) → Option (List (Bytes × Session))
first_ended = erase_first λ s. is_terminal s.status

evict_below :
    (rounds : ℕ) (m : List (Bytes × Session)) → leb 32 (length m) ≡ false → evict (suc rounds) m ≡ m
evict_below rounds m t = unfold evict in rw (t, evict)

evict-none_ended :
    (rounds : ℕ) (m : List (Bytes × Session))
    → leb 32 (length m) ≡ true
    → first_ended m ≡ none
    → evict (suc rounds) m ≡ m
unfolding evict
evict-none_ended rounds m t e = rw (t, e, evict)

evict_one :
    (rounds : ℕ) (m n : List (Bytes × Session))
    → leb 32 (length m) ≡ true
    → first_ended m ≡ some n
    → evict (suc rounds) m ≡ evict rounds n
unfolding evict
evict_one rounds m n t e = rw (t, e, evict)

-- What every removal keeps, the loop keeps.
pub evict_inv {κ} :
    (P : List (Bytes × Session) → Type κ)
    → ((m n : List (Bytes × Session)) → first_ended m ≡ some n → P m → P n)
    → (rounds : ℕ) (m : List (Bytes × Session)) → P m
    → P (evict rounds m)
evict_inv P keep zero m h = unfold evict in h
evict_inv P keep (suc rounds) m h = elim (Bool-cases (leb 32 (length m))) [
  | inr t ↦ subst P (sym (evict_below rounds m t)) h
  | inl t ↦ elim (Option-cases (first_ended m)) [
    | inl e ↦ subst P (sym (evict-none_ended rounds m t e)) h
    | inr (n, e) ↦
        subst P (sym (evict_one rounds m n t e)) (evict_inv P keep rounds n (keep m n e h))
  ]
]

-- With as many rounds as sessions, more than 31 are left only where none of them has ended.
abbrev OnlyActive : List (Bytes × Session) → Type 0
OnlyActive m = 32 ≤ length m → active_count m ≡ length m

pub evict-OnlyActive :
    (rounds : ℕ) (m : List (Bytes × Session)) → length m ≤ rounds → OnlyActive (evict rounds m)
evict-OnlyActive zero m h = unfold evict in λ k. absurd (omega arith)
evict-OnlyActive (suc rounds) m h = elim (Bool-cases (leb 32 (length m))) [
  | inr t ↦ subst OnlyActive (sym (evict_below rounds m t)) (λ k. absurd (ground arith))
  | inl t ↦ elim (Option-cases (first_ended m)) [
    | inl e ↦
        subst OnlyActive (sym (evict-none_ended rounds m t e))
          (λ k. erase_first-none-count_if (λ s. is_terminal s.status) m e)
    | inr (n, e) ↦ subst OnlyActive (sym (evict_one rounds m n t e)) (
        evict-OnlyActive rounds n
          (omega (arith, length-erase_first (λ s. is_terminal s.status) m n e)))
  ]
]

-- A session that the loop takes out has ended; every other keeps its place in the map.
abbrev pub SurvivesOrEnded : Bytes → Session → List (Bytes × Session) → Type 0
SurvivesOrEnded j s m =
    Distinct m × ((lookup j m ≡ some s) ⊎ ((lookup j m ≡ none) × (is_terminal s.status ≡ true)))

pub evict-SurvivesOrEnded :
    (rounds : ℕ) (j : Bytes) (s : Session) (m : List (Bytes × Session))
    → Distinct m
    → lookup j m ≡ some s
    → SurvivesOrEnded j s (evict rounds m)
evict-SurvivesOrEnded rounds j s m d e = evict_inv (SurvivesOrEnded j s) keep rounds m (d, inl e)
  where
    keep :
        (m n : List (Bytes × Session))
        → first_ended m ≡ some n
        → SurvivesOrEnded j s m
        → SurvivesOrEnded j s n
    keep m n t (d, inl e) = (erase_first-Distinct _ m n t d, lookup-erase_first _ j m n d t e)
    keep m n t (d, inr (e, k)) =
        (erase_first-Distinct _ m n t d, inr (lookup-erase_first-none _ j m n t e, k))

-- An identifier that Create or StoreCredential takes is in neither map.
pub fresh_id_free :
    (rounds attempt : ℕ) (random : RandomSource) (r : Registry) (c : ℕ) (id : Bytes)
    → fresh_id rounds attempt random r ≡ ok (c ∷ id)
    → (lookup (c ∷ id) r.sessions ≡ none) × (lookup (c ∷ id) r.credentials ≡ none)
unfolding fresh_id
fresh_id_free zero attempt random r c id e = cc
fresh_id_free (suc rounds) attempt random r c id e =
    ground (arith, fresh_id_free rounds (attempt + 1) random r c id)
