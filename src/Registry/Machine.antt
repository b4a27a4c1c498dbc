-- ===== src/Registry/Machine.antt =====
-- The state machine of a session, over every call on the registry.
use duckdb_data.Registry.Map.{lookup, put}
use duckdb_data.Registry.Map.Laws.{lookup-put_self, lookup-put_ne}
use duckdb_data.Registry.State.{Session, Credential, Registry, AuthStartRequest, Failure}
use duckdb_data.Pkce.Base64.{RandomSource}
use duckdb_data.Registry.Sessions.{fresh_id, create, create_with_ttl, ttl_request}
use duckdb_data.Registry.Sessions.Transitions.{KeepsRequest, Change, may_move}
use duckdb_data.Registry.Credentials.{
  store_entry, live, store_credential, resolve_credential, remove_credential,
}
use duckdb_data.Registry.Valid.{IsValid}
use duckdb_data.Registry.Touch.{
  Touches, snapshot-Touches, receive_callback-Touches, receive_denied-Touches,
  begin_completion-Touches, finish_authorized-Touches, finish_failed-Touches, fail-Touches,
  cancel-Touches, stop_callback-Touches,
}
use duckdb_data.Registry.Calls.{
  Call, creates, creates_with_ttl, snapshots, receives_callback, receives_denied, begins_completion,
  finishes_authorized, finishes_failed, fails, cancels, stops_callback, stores_credential,
  resolves_credential, removes_credential, step,
}
use duckdb_data.Base.{
  ℕ, ◌+◌, ◌≡◌, refl, sym, ap, ◌∙◌, subst, ◌⊎◌, inl, inr, true, ◌||◌, Option, none, some, [], ◌∷◌,
  arith, leb, Bool-cases, length, Bytes, bytes_eq, is_empty, bytes_eq_iff, Result, ok, err,
}
use duckdb_data.Registry.Eviction.{
  Stays, same_Stays, Evicted, Follows, create-Follows, create_with_ttl-Follows,
}

-- The request of a call of Create, and the time that it reads.
abbrev pub created_by : Call → Option (AuthStartRequest × ℕ)
created_by (creates q now random) = some (q, now)
created_by (creates_with_ttl state verifier ttl owner now later random) =
    some (ttl_request state verifier (now + ttl) owner, later)
created_by _ = none

some_injective : {s u : Session} → some s ≡ some u → s ≡ u
some_injective e = cc

Touches-Stays :
    (r r' : Registry) (at id : Bytes) (s : Session)
    → Touches r at r'
    → lookup id r.sessions ≡ some s
    → Stays id s r'
Touches-Stays r r' at id s (inl same) e = same_Stays id s r' (rw same e)
Touches-Stays r r' at id s (inr (u, u', f, c, same)) e = elim (Bool-cases (bytes_eq at id)) [
  | inl t ↦
      let here = (bytes_eq_iff at id).0 t in
      let found : u ≡ s = some_injective (sym f ∙ rw here e) in
      (
        u',
        rw same (
            subst (λ k. lookup k (put at u' r.sessions) ≡ some u') here
              (lookup-put_self at u' u r.sessions f)),
        subst (λ x. Change x u') found c,
      )
  | inr t ↦ same_Stays id s r' (
      rw same
        (lookup-put_ne at id u' r.sessions (λ here. cc (sym t ∙ (bytes_eq_iff at id).1 here)) ∙ e))
]

-- The calls on credentials leave the sessions alone.
store_entry-sessions :
    (r : Registry) (c : Credential) (id : Result Failure Bytes)
    → (store_entry r c id).registry.sessions ≡ r.sessions
unfolding store_entry
store_entry-sessions r c (err x) = refl
store_entry-sessions r c (ok []) = refl
store_entry-sessions r c (ok (x ∷ id)) = refl

pub store_credential-sessions :
    (r : Registry) (url token : Bytes) (expiry before now : ℕ) (random : RandomSource)
    → (store_credential r url token expiry before now random).registry.sessions ≡ r.sessions
unfolding store_credential
store_credential-sessions r url token expiry before now random =
    let r' : Registry = record r { credentials = live now r.credentials } in
    elim (Bool-cases (is_empty url || is_empty token || leb expiry before)) [
      | inl t ↦ rw t
      | inr t ↦ elim (Bool-cases (leb 16 (length (live now r.credentials)))) [
        | inl u ↦ rw (t, u)
        | inr u ↦
            rw (t, u)
              (store_entry-sessions r'
                (record { instance_url = url; access_token = token; expires_at_ms = expiry })
                (fresh_id 16 0 random r'))
      ]
    ]

pub resolve_credential-sessions :
    (r : Registry) (id : Bytes) (now : ℕ)
    → (resolve_credential r id now).registry.sessions ≡ r.sessions
unfolding resolve_credential
resolve_credential-sessions r id now = ground arith

pub remove_credential-sessions :
    (r : Registry) (id : Bytes) → (remove_credential r id).registry.sessions ≡ r.sessions
unfolding remove_credential
remove_credential-sessions r id = refl

-- The call was a Create, and evicted the session.
abbrev pub IsEvictedBy : Call → Bytes → Session → Registry → Type 0
IsEvictedBy c id s r' =
    (q : AuthStartRequest) × (now : ℕ) × (created_by c ≡ some (q, now)) × Evicted id s q now r'

by_create :
    (c : Call) (id : Bytes) (s : Session) (q : AuthStartRequest) (now : ℕ) (r' : Registry)
    → created_by c ≡ some (q, now)
    → Follows id s q now r'
    → Stays id s r' ⊎ IsEvictedBy c id s r'
by_create c id s q now r' e (inl stays) = inl stays
by_create c id s q now r' e (inr evicted) = inr (q, now, e, evicted)

untouched_Stays :
    (id : Bytes) (s : Session) (r r' : Registry)
    → r'.sessions ≡ r.sessions
    → lookup id r.sessions ≡ some s
    → Stays id s r'
untouched_Stays id s r r' same e = same_Stays id s r' (ap (lookup id) same ∙ e)

pub step-Follows :
    (r : Registry) (c : Call) (id : Bytes) (s : Session)
    → IsValid r
    → lookup id r.sessions ≡ some s
    → Stays id s (step r c) ⊎ IsEvictedBy c id s (step r c)
unfolding step
step-Follows r (creates q now random) id s v e =
    by_create (creates q now random) id s q now (create r q now random).registry refl
      (create-Follows r q now random id s v.sessions_ok.distinct e)
step-Follows r (creates_with_ttl state verifier ttl owner now later random) id s v e =
    by_create (creates_with_ttl state verifier ttl owner now later random) id s
      (ttl_request state verifier (now + ttl) owner) later
      (create_with_ttl r state verifier ttl owner now later random).registry refl
      (create_with_ttl-Follows r state verifier ttl owner now later random id s
        v.sessions_ok.distinct e)
step-Follows r (snapshots at now) id s v e =
    inl (Touches-Stays r _ at id s (snapshot-Touches r at now) e)
step-Follows r (receives_callback at state code now) id s v e =
    inl (Touches-Stays r _ at id s (receive_callback-Touches r at state code now) e)
step-Follows r (receives_denied at state now) id s v e =
    inl (Touches-Stays r _ at id s (receive_denied-Touches r at state now) e)
step-Follows r (begins_completion at now) id s v e =
    inl (Touches-Stays r _ at id s (begin_completion-Touches r at now) e)
step-Follows r (finishes_authorized at) id s v e =
    inl (Touches-Stays r _ at id s (finish_authorized-Touches r at) e)
step-Follows r (finishes_failed at fault) id s v e =
    inl (Touches-Stays r _ at id s (finish_failed-Touches r at fault) e)
step-Follows r (fails at fault) id s v e =
    inl (Touches-Stays r _ at id s (fail-Touches r at fault) e)
step-Follows r (cancels at) id s v e = inl (Touches-Stays r _ at id s (cancel-Touches r at) e)
step-Follows r (stops_callback at) id s v e =
    inl (Touches-Stays r _ at id s (stop_callback-Touches r at) e)
step-Follows r (stores_credential url token expiry before now random) id s v e = inl (
    untouched_Stays id s r (store_credential r url token expiry before now random).registry
      (store_credential-sessions r url token expiry before now random) e)
step-Follows r (resolves_credential at now) id s v e = inl (
    untouched_Stays id s r (resolve_credential r at now).registry
      (resolve_credential-sessions r at now) e)
step-Follows r (removes_credential at) id s v e =
    inl
      (untouched_Stays id s r (remove_credential r at).registry (remove_credential-sessions r at) e)

-- One call takes a session along at most one arrow of the state machine and changes nothing that
-- its request gave; or the call was Create, directly or with a lifetime, and the session had ended, or
-- was overdue and not being completed: then its identifier is free or names the session that this call
-- made. No other call takes a session away or puts another in its place.
pub step_moves :
    (r : Registry) (c : Call) (id : Bytes) (s : Session)
    → IsValid r
    → lookup id r.sessions ≡ some s
    → ((s' : Session) × (lookup id (step r c).sessions ≡ some s')
        × (may_move s.status s'.status ≡ true)
        × KeepsRequest s s')
      ⊎ IsEvictedBy c id s (step r c)
step_moves r c id s v e = elim (step-Follows r c id s v e) [
  | inl (s', f, change) ↦ inl (s', f, change.moves, change.keeps_request)
  | inr out ↦ inr out
]
