-- ===== src/Pkce/Challenge/Compare.antt =====
-- The comparison that reads every byte is the equality of strings.
use Prim.Native.Nat.{bit_xor}
use duckdb_data.Base.Bits.{bit_or-eq_zero, bit_xor-eq_zero, bit_xor_self}
use duckdb_data.Pkce.Challenge.{differences, rounds, constant_time_equals}
use duckdb_data.Base.{
  ℕ, zero, suc, ◌≤◌, ◌≡◌, refl, ◌↔◌, true, [], ◌∷◌, arith, ==_iff, length, get_or, drop, Bytes,
}

-- A bit that is set stays set.
differences-eq_zero :
    (count : ℕ) (left right : Bytes) (d : ℕ) → differences count left right d ≡ 0 → d ≡ 0
unfolding differences
differences-eq_zero zero left right d e = e
differences-eq_zero (suc count) left right d e =
    (bit_or-eq_zero d _ (differences-eq_zero count _ _ _ e)).0

differences-eq :
    (count : ℕ) (left right : Bytes) (d : ℕ)
    → length left ≡ length right
    → length left ≤ count
    → differences count left right d ≡ 0
    → left ≡ right
unfolding differences
differences-eq count [] [] d s h e = refl
differences-eq count [] (y ∷ right) d s h e = absurd (omega arith)
differences-eq count (x ∷ left) [] d s h e = absurd (omega arith)
differences-eq zero (x ∷ left) (y ∷ right) d s h e = absurd (omega arith)
differences-eq (suc count) (x ∷ left) (y ∷ right) d s h e =
    let same =
      bit_xor-eq_zero x y (bit_or-eq_zero d _ (differences-eq_zero count left right _ e)).1 in
    let rest = differences-eq count left right _ (omega arith) (omega arith) e in cc

differences_self : (count : ℕ) (s : Bytes) → differences count s s 0 ≡ 0
unfolding differences
differences_self zero s = refl
differences_self (suc count) s =
    rw (bit_xor_self (get_or s 0 0)) (differences_self count (drop 1 s))

constant_time_equals-eq :
    (left right : Bytes) → constant_time_equals left right ≡ true → left ≡ right
unfolding constant_time_equals
constant_time_equals-eq left right h =
    let start = bit_xor (length left) (length right) in
    let all_zero : differences (rounds left right) left right start ≡ 0 = (==_iff _ 0).0 h in
    let first = differences-eq_zero (rounds left right) left right start all_zero in
    let sizes = bit_xor-eq_zero (length left) (length right) first in
    differences-eq (rounds left right) left right start sizes (ground arith) all_zero

constant_time_equals_self : (s : Bytes) → constant_time_equals s s ≡ true
unfolding constant_time_equals
constant_time_equals_self s =
    rw (bit_xor_self (length s)) ((==_iff _ 0).1 (differences_self (rounds s s) s))

-- ConstantTimeEquals is true exactly for equal strings, of whatever lengths.
pub constant_time_equals_iff :
    (left right : Bytes) → (constant_time_equals left right ≡ true) ↔ (left ≡ right)
constant_time_equals_iff left right =
    (constant_time_equals-eq left right, λ e. rw e (constant_time_equals_self right))
