-- ===== src/Registry/Valid/Create.antt =====
-- Create keeps the invariant: the eviction makes room, and the new identifier is free.
use duckdb_data.Pkce.Base64.{RandomSource}
use duckdb_data.Registry.Map.Laws.{Distinct, emplace-Distinct, erase_first-Distinct}
use duckdb_data.Registry.Map.Counts.{
  AllValues, emplace-AllValues, erase_first-AllValues, length-emplace-le, count_if-emplace-le,
  count_if-erase_first-le,
}
use duckdb_data.Registry.State.{Session, Registry, AuthStartRequest, Failure}
use duckdb_data.Registry.Sessions.{
  is_active, evict, fresh_id, new_session, create_entry, create, create_with_ttl, ttl_request,
}
use duckdb_data.Registry.Sessions.Transitions.{SessionOk}
use duckdb_data.Registry.Sweep.{
  active_count, swept, swept-AllValues, swept-Distinct, active_count-swept-le, evict_inv,
  evict-OnlyActive, fresh_id_free,
}
use duckdb_data.Registry.Valid.{SessionsOk, IsValid}
use duckdb_data.Base.{
  ℕ, ◌+◌, ◌-◌, ◌^◌, ◌≤◌, ◌<◌, ◌≡◌, refl, inl, inr, false, ◌||◌, Option, List, [], ◌∷◌, arith, ltb,
  leb, ◌==◌, Bool-cases, length, Bytes, is_empty, Result, ok, err,
}

-- The sessions that Create keeps.
abbrev pub kept : ℕ → List (Bytes × Session) → List (Bytes × Session)
kept now m = evict (length (swept now m)) (swept now m)

kept-SessionsOk :
    (now : ℕ) (m : List (Bytes × Session))
    → SessionsOk m
    → SessionsOk (kept now m) × (length (kept now m) ≤ 31)
kept-SessionsOk now m v = (
  record {
    each_ok = all_ok;
    distinct = all_distinct;
    few_active = active;
    few = omega (arith, size);
  },
  size,
)
  where
    rounds : ℕ
    rounds = length (swept now m)

    all_ok : AllValues SessionOk (kept now m)
    all_ok =
        evict_inv (AllValues SessionOk) (λ a b e h. erase_first-AllValues SessionOk _ a b e h)
          rounds (swept now m) (swept-AllValues now m v.each_ok)

    all_distinct : Distinct (kept now m)
    all_distinct =
        evict_inv Distinct (λ a b e h. erase_first-Distinct _ a b e h) rounds (swept now m)
          (swept-Distinct now m v.distinct)

    active : active_count (kept now m) ≤ 4
    active =
        evict_inv (λ x. active_count x ≤ 4)
          (λ a b e h. omega (arith, count_if-erase_first-le (λ s. is_active s.status) _ a b e, h))
          rounds (swept now m) (omega (arith, active_count-swept-le now m, v.few_active))

    size : length (kept now m) ≤ 31
    size = elim (Bool-cases (leb 32 (length (kept now m)))) [
      | inl t ↦
          let all = evict-OnlyActive rounds (swept now m) (omega arith) (ground arith) in
          absurd (ground (arith, active, all))
      | inr t ↦ ground arith
    ]

new_session-SessionOk :
    (q : AuthStartRequest)
    → is_empty q.expected_state ≡ false
    → is_empty q.pkce_verifier ≡ false
    → SessionOk (new_session q)
new_session-SessionOk q e p = ((e, p, refl), refl)

create_entry-IsValid :
    (r : Registry) (q : AuthStartRequest) (owners : List ℕ) (attempt : ℕ) (random : RandomSource)
    (rounds : ℕ) (id : Result Failure Bytes)
    → fresh_id rounds attempt random r ≡ id
    → SessionOk (new_session q)
    → active_count r.sessions < 4
    → length r.sessions ≤ 31
    → IsValid r
    → IsValid (create_entry r q owners id).registry
create_entry-IsValid r q owners attempt random rounds (err x) f o a l v = unfold create_entry in v
create_entry-IsValid r q owners attempt random rounds (ok []) f o a l v = unfold create_entry in v
create_entry-IsValid r q owners attempt random rounds (ok (c ∷ id)) f o a l v =
    unfold create_entry in
    record {
      sessions_ok = record {
        each_ok =
            emplace-AllValues SessionOk (c ∷ id) (new_session q) r.sessions v.sessions_ok.each_ok o;
        distinct =
            emplace-Distinct (c ∷ id) (new_session q) r.sessions
              (fresh_id_free rounds attempt random r c id f).0 v.sessions_ok.distinct;
        few_active = omega (
          arith,
          count_if-emplace-le (λ s. is_active s.status) (c ∷ id) (new_session q) r.sessions,
          a,
        );
        few = omega (arith, length-emplace-le (c ∷ id) (new_session q) r.sessions, l);
      };
      credentials_ok = v.credentials_ok;
    }

pub create-IsValid :
    (r : Registry) (q : AuthStartRequest) (now : ℕ) (random : RandomSource)
    → IsValid r
    → IsValid (create r q now random).registry
unfolding create
create-IsValid r q now random v =
    elim (Bool-cases
      (is_empty q.expected_state || is_empty q.pkce_verifier || q.expires_at_monotonic_ms == 0)) [
        | inl t ↦ rw t v
        | inr t ↦ elim (Bool-cases (leb q.expires_at_monotonic_ms now)) [
          | inl u ↦ rw (t, u) v
          | inr u ↦ elim (Bool-cases (leb 4 (active_count (kept now r.sessions)))) [
            | inl w ↦ rw (t, u, w) valid'
            | inr w ↦
                rw (t, u, w)
                  (create_entry-IsValid r' q _ 0 random 16 _ refl
                    (new_session-SessionOk q (ground arith) (ground arith)) (ground arith) ok_kept.1
                    valid')
          ]
        ]
      ]
  where
    r' : Registry
    r' = record r { sessions = kept now r.sessions }

    ok_kept : SessionsOk (kept now r.sessions) × (length (kept now r.sessions) ≤ 31)
    ok_kept = kept-SessionsOk now r.sessions v.sessions_ok

    valid' : IsValid r'
    valid' = record { sessions_ok = ok_kept.0; credentials_ok = v.credentials_ok }

pub create_with_ttl-IsValid :
    (r : Registry) (state verifier : Bytes) (ttl : ℕ) (owner : Option ℕ) (now later : ℕ)
    (random : RandomSource)
    → IsValid r
    → IsValid (create_with_ttl r state verifier ttl owner now later random).registry
unfolding create_with_ttl
create_with_ttl-IsValid r state verifier ttl owner now later random v =
    elim (Bool-cases (ttl == 0 || ltb (2 ^ 64 - 1 - now) ttl)) [
      | inl t ↦ rw t v
      | inr t ↦
          rw t (create-IsValid r (ttl_request state verifier (now + ttl) owner) later random v)
    ]
