-- ===== src/Registry/Eviction.antt =====
-- What Create does to a session that was there before.
use duckdb_data.Registry.Map.{lookup, emplace}
use duckdb_data.Registry.Map.Laws.{Distinct, lookup-emplace_self, lookup-emplace_ne}
use duckdb_data.Registry.State.{Session, Registry, AuthStartRequest, Failure}
use duckdb_data.Pkce.Base64.{RandomSource}
use duckdb_data.Registry.Sessions.{
  is_terminal, is_completing, expire_locked, fresh_id, new_session, create_entry, create,
  create_with_ttl, ttl_request,
}
use duckdb_data.Registry.Sessions.Transitions.{Change, Change-refl, expire_locked-Change}
use duckdb_data.Registry.Sweep.{
  active_count, swept, lookup-swept, swept-Distinct, evict-SurvivesOrEnded, fresh_id_free,
}
use duckdb_data.Registry.Valid.Create.{kept}
use duckdb_data.Base.{
  ℕ, ◌+◌, ◌-◌, ◌^◌, ◌≤◌, ◌≡◌, refl, sym, ap, ◌∙◌, subst, ◌⊎◌, inl, inr, true, false, ◌||◌, Option,
  none, some, List, [], ◌∷◌, arith, ltb, leb, ◌==◌, Bool-cases, length, Bytes, bytes_eq, is_empty,
  bytes_eq_iff, Result, ok, err,
}

-- The session had ended, or its time was over and nobody was completing it.
abbrev pub IsEvictable : ℕ → Session → Type 0
IsEvictable now s =
    (is_terminal s.status ≡ true) ⊎ ((s.expires_at_ms ≤ now) × (is_completing s.status ≡ false))

-- Create took the session out, and it may have given its identifier to its own one.
abbrev pub Evicted : Bytes → Session → AuthStartRequest → ℕ → Registry → Type 0
Evicted id s q now r' =
    IsEvictable now s
    × ((lookup id r'.sessions ≡ none) ⊎ (lookup id r'.sessions ≡ some (new_session q)))

-- `Follows` by what the lookup gives.
abbrev OnLookup : Session → AuthStartRequest → ℕ → Option Session → Type 0
OnLookup s q now x =
    ((s' : Session) × (x ≡ some s') × Change s s')
    ⊎ (IsEvictable now s × ((x ≡ none) ⊎ (x ≡ some (new_session q))))

-- The session `s` still stands under `id`, changed by one call at most.
abbrev pub Stays : Bytes → Session → Registry → Type 0
Stays id s r' = (s' : Session) × (lookup id r'.sessions ≡ some s') × Change s s'

-- What Create does to the session `s` that stood under `id`.
abbrev pub Follows : Bytes → Session → AuthStartRequest → ℕ → Registry → Type 0
Follows id s q now r' = Stays id s r' ⊎ Evicted id s q now r'

pub same_Stays :
    (id : Bytes) (s : Session) (r' : Registry) → lookup id r'.sessions ≡ some s → Stays id s r'
same_Stays id s r' e = (s, e, Change-refl s)

none_ne_some : {s : Session} → ◌≡◌ {A = Option Session} none (some s) → ⊥
none_ne_some e = cc

-- A session that Create evicts had ended, or was overdue and nobody's to complete.
expire_locked-IsEvictable :
    (s : Session) (now : ℕ)
    → is_terminal (expire_locked s now true).0.status ≡ true
    → IsEvictable now s
unfolding expire_locked
expire_locked-IsEvictable s now h = ground (arith, h)

kept-Follows :
    (r : Registry) (id : Bytes) (s : Session) (q : AuthStartRequest) (now : ℕ)
    → Distinct r.sessions
    → lookup id r.sessions ≡ some s
    → Follows id s q now (record r { sessions = kept now r.sessions })
kept-Follows r id s q now d e =
    elim (evict-SurvivesOrEnded (length (swept now r.sessions)) id (expire_locked s now true).0
      (swept now r.sessions) (swept-Distinct now r.sessions d)
      (lookup-swept now id r.sessions e)).1 [
        | inl f ↦ inl ((expire_locked s now true).0, f, expire_locked-Change s now true)
        | inr (f, t) ↦ inr (expire_locked-IsEvictable s now t, inl f)
      ]

-- A new entry stands under an identifier that no session had.
entered-Follows :
    (r : Registry) (q : AuthStartRequest) (new id : Bytes) (s : Session) (now : ℕ)
    → lookup new r.sessions ≡ none
    → Follows id s q now r
    → Follows id s q now (record r { sessions = emplace new (new_session q) r.sessions })
entered-Follows r q new id s now free f = elim (Bool-cases (bytes_eq new id)) [
  | inl t ↦ taken ((bytes_eq_iff new id).0 t) f
  | inr t ↦
      subst (λ x. OnLookup s q now x)
        (sym (
          lookup-emplace_ne new id (new_session q) r.sessions
            (λ e. cc (sym t ∙ (bytes_eq_iff new id).1 e))))
        f
]
  where
    here : lookup new (emplace new (new_session q) r.sessions) ≡ some (new_session q)
    here = lookup-emplace_self new (new_session q) r.sessions free

    taken :
        new ≡ id
        → Follows id s q now r
        → Follows id s q now (record r { sessions = emplace new (new_session q) r.sessions })
    taken e (inl (u, k, c)) = absurd (none_ne_some (sym free ∙ ap (λ x. lookup x r.sessions) e ∙ k))
    taken e (inr (n, k)) =
        inr (n, inr (ap (λ x. lookup x (emplace new (new_session q) r.sessions)) (sym e) ∙ here))

create_entry-Follows :
    (r : Registry) (q : AuthStartRequest) (owners : List ℕ) (rounds : ℕ) (random : RandomSource)
    (new : Result Failure Bytes) (id : Bytes) (s : Session) (now : ℕ)
    → fresh_id rounds 0 random r ≡ new
    → Follows id s q now r
    → Follows id s q now (create_entry r q owners new).registry
unfolding create_entry
create_entry-Follows r q owners rounds random (err x) id s now e f = f
create_entry-Follows r q owners rounds random (ok []) id s now e f = f
create_entry-Follows r q owners rounds random (ok (c ∷ new)) id s now e f =
    entered-Follows r q (c ∷ new) id s now (fresh_id_free rounds 0 random r c new e).0 f

pub create-Follows :
    (r : Registry) (q : AuthStartRequest) (now : ℕ) (random : RandomSource) (id : Bytes)
    (s : Session)
    → Distinct r.sessions
    → lookup id r.sessions ≡ some s
    → Follows id s q now (create r q now random).registry
unfolding create
create-Follows r q now random id s d e =
    let r' = record r { sessions = kept now r.sessions } in
    let after : Follows id s q now r' = kept-Follows r id s q now d e in
    elim (Bool-cases
      (is_empty q.expected_state || is_empty q.pkce_verifier || q.expires_at_monotonic_ms == 0)) [
        | inl t ↦ rw t (inl (same_Stays id s r e))
        | inr t ↦ elim (Bool-cases (leb q.expires_at_monotonic_ms now)) [
          | inl u ↦ rw (t, u) (inl (same_Stays id s r e))
          | inr u ↦ elim (Bool-cases (leb 4 (active_count (kept now r.sessions)))) [
            | inl w ↦ rw (t, u, w) after
            | inr w ↦ rw (t, u, w) (create_entry-Follows r' q _ 16 random _ id s now refl after)
          ]
        ]
      ]

pub create_with_ttl-Follows :
    (r : Registry) (state verifier : Bytes) (ttl : ℕ) (owner : Option ℕ) (now later : ℕ)
    (random : RandomSource) (id : Bytes) (s : Session)
    → Distinct r.sessions
    → lookup id r.sessions ≡ some s
    → Follows id s
        (ttl_request state verifier (now + ttl) owner)
        later
        (create_with_ttl r state verifier ttl owner now later random).registry
unfolding create_with_ttl
create_with_ttl-Follows r state verifier ttl owner now later random id s d e =
    elim (Bool-cases (ttl == 0 || ltb (2 ^ 64 - 1 - now) ttl)) [
      | inl t ↦ rw t (inl (same_Stays id s r e))
      | inr t ↦
          rw t
            (create-Follows r (ttl_request state verifier (now + ttl) owner) later random id s d e)
    ]
