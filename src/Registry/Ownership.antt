-- ===== src/Registry/Ownership.antt =====
-- A session that is being completed belongs to the completion: until FinishAuthorized or
-- FinishFailed is called on it, no other call moves it.
use duckdb_data.Registry.Map.{lookup}
use duckdb_data.Registry.Map.Laws.{lookup-put_self, lookup-put_ne, lookup-emplace_ne}
use duckdb_data.Registry.State.{completing, Session, Registry, AuthStartRequest, Failure}
use duckdb_data.Faults.{AuthFault}
use duckdb_data.Pkce.Base64.{RandomSource}
use duckdb_data.Registry.Sessions.{
  is_pending, is_callback_received, expire_locked, reap, store, fresh_id, new_session, create_entry,
  create, create_with_ttl, ttl_request, snapshot, receive_callback, receive_denied,
  begin_completion, fail, cancel, stop_callback,
}
use duckdb_data.Registry.Touch.{
  Touches, with_session_found, snapshot-Touches, receive_callback-Touches, receive_denied-Touches,
  begin_completion-Touches, finish_authorized-Touches, finish_failed-Touches, fail-Touches,
  cancel-Touches, stop_callback-Touches,
}
use duckdb_data.Registry.Machine.{
  store_credential-sessions, resolve_credential-sessions, remove_credential-sessions,
}
use duckdb_data.Registry.Sweep.{
  active_count, swept, lookup-swept, swept-Distinct, evict-SurvivesOrEnded, SurvivesOrEnded,
  fresh_id_free,
}
use duckdb_data.Registry.Credentials.{store_credential, resolve_credential, remove_credential}
use duckdb_data.Registry.Valid.Create.{kept}
use duckdb_data.Registry.Valid.{IsValid}
use duckdb_data.Registry.Limits.{step-IsValid}
use duckdb_data.Registry.Calls.{
  Call, creates, creates_with_ttl, snapshots, receives_callback, receives_denied, begins_completion,
  finishes_authorized, finishes_failed, fails, cancels, stops_callback, stores_credential,
  resolves_credential, removes_credential, step, run,
}
use duckdb_data.Base.{
  ℕ, ◌+◌, ◌-◌, ◌^◌, ◌≡◌, refl, sym, ap, ◌∙◌, subst, inl, inr, Bool, true, false, not, ◌||◌, Option,
  none, some, List, [], ◌∷◌, arith, ltb, leb, ◌==◌, Bool-cases, length, All, Bytes, bytes_eq,
  is_empty, bytes_eq_iff, Result, ok, err,
}

-- Whether a call finishes the session `id`.
abbrev pub finishes : Bytes → Call → Bool
finishes id (finishes_authorized at) = bytes_eq at id
finishes id (finishes_failed at fault) = bytes_eq at id
finishes id _ = false

abbrev pub NoneFinishes : Bytes → List Call → Type 0
NoneFinishes id = All (λ c. finishes id c ≡ false)

-- The arrows out of `completing`, less those of the finishing calls.
abbrev pub IsOwned : Bytes → Registry → Type 0
IsOwned id r = (s : Session) × (lookup id r.sessions ≡ some s) × (s.status ≡ completing)

module _ (r : Registry) (id : Bytes) (s : Session) (e : lookup id r.sessions ≡ some s)
    (h : s.status ≡ completing) where
  expire_nothing : (now : ℕ) (release : Bool) → (expire_locked s now release).0 ≡ s
  unfolding expire_locked
  expire_nothing now release = ground arith

  kept_IsOwned : (s' : Session) → s'.status ≡ completing → IsOwned id (store r id s')
  kept_IsOwned s' h' = (s', lookup-put_self id s' s r.sessions e, h')

  expired_IsOwned :
      (now : ℕ) (release : Bool) → IsOwned id (store r id (expire_locked s now release).0)
  expired_IsOwned now release =
      kept_IsOwned _ (ap (λ (x : Session). x.status) (expire_nothing now release) ∙ h)

  snapshot-IsOwned : (now : ℕ) → IsOwned id (snapshot r id now).registry
  unfolding snapshot expire_locked
  snapshot-IsOwned now =
      subst (λ x. IsOwned id x.registry) (sym (with_session_found r id _ s e))
        (kept_IsOwned (reap (expire_locked s now true)).0 (ground arith))

  receive_callback-IsOwned :
      (state code : Bytes) (now : ℕ) → IsOwned id (receive_callback r id state code now).registry
  unfolding receive_callback
  receive_callback-IsOwned state code now =
      let s₁ = (expire_locked s now false).0 in
      let same : s₁ ≡ s = expire_nothing now false in
      let refused : (not (is_pending s₁.status) || is_empty code) ≡ true = rw (same, h) refl in
      subst (λ x. IsOwned id x.registry) (sym (with_session_found r id _ s e))
        (rw refused (expired_IsOwned now false))

  receive_denied-IsOwned :
      (state : Bytes) (now : ℕ) → IsOwned id (receive_denied r id state now).registry
  unfolding receive_denied
  receive_denied-IsOwned state now =
      let s₁ = (expire_locked s now false).0 in
      let same : s₁ ≡ s = expire_nothing now false in
      let refused : not (is_pending s₁.status) ≡ true = rw (same, h) refl in
      subst (λ x. IsOwned id x.registry) (sym (with_session_found r id _ s e))
        (rw refused (expired_IsOwned now false))

  begin_completion-IsOwned : (now : ℕ) → IsOwned id (begin_completion r id now).registry
  unfolding begin_completion
  begin_completion-IsOwned now =
      let s₁ = (expire_locked s now true).0 in
      let same : s₁ ≡ s = expire_nothing now true in
      let refused : not (is_callback_received s₁.status) ≡ true = rw (same, h) refl in
      subst (λ x. IsOwned id x.registry) (sym (with_session_found r id _ s e))
        (rw refused (expired_IsOwned now true))

  fail-IsOwned : (fault : AuthFault) → IsOwned id (fail r id fault).registry
  unfolding fail
  fail-IsOwned fault =
      subst (λ x. IsOwned id x.registry) (sym (with_session_found r id _ s e)) (rw h (s, e, h))

  cancel-IsOwned : IsOwned id (cancel r id).registry
  unfolding cancel
  cancel-IsOwned =
      subst (λ x. IsOwned id x.registry) (sym (with_session_found r id _ s e)) (rw h (s, e, h))

  stop_callback-IsOwned : IsOwned id (stop_callback r id).registry
  unfolding stop_callback
  stop_callback-IsOwned =
      rw (e, stop_callback) (kept_IsOwned (record s { callback_owner = none }) h)

-- Calls on other sessions.
other_IsOwned :
    (r r' : Registry) (at id : Bytes)
    → Touches r at r'
    → bytes_eq at id ≡ false
    → IsOwned id r
    → IsOwned id r'
other_IsOwned r r' at id (inl same) n o = subst (IsOwned id) (sym same) o
other_IsOwned r r' at id (inr (u, u', f, c, same)) n (s, e, h) =
    subst (IsOwned id) (sym same) (
      s,
      lookup-put_ne at id u' r.sessions (λ here. cc (sym n ∙ (bytes_eq_iff at id).1 here)) ∙ e,
      h,
    )

-- Create.
entered_IsOwned :
    (r : Registry) (q : AuthStartRequest) (owners : List ℕ) (random : RandomSource)
    (new : Result Failure Bytes) (id : Bytes)
    → fresh_id 16 0 random r ≡ new
    → IsOwned id r
    → IsOwned id (create_entry r q owners new).registry
unfolding create_entry
entered_IsOwned r q owners random (err x) id f o = o
entered_IsOwned r q owners random (ok []) id f o = o
entered_IsOwned r q owners random (ok (c ∷ new)) id f (s, e, h) =
    let free = (fresh_id_free 16 0 random r c new f).0 in
    (s, lookup-emplace_ne (c ∷ new) id (new_session q) r.sessions (λ same. taken free same) ∙ e, h)
  where
    taken : lookup (c ∷ new) r.sessions ≡ none → (c ∷ new) ≡ id → ⊥
    taken free same = cc (sym free ∙ ap (λ k. lookup k r.sessions) same ∙ e)

create-IsOwned :
    (r : Registry) (q : AuthStartRequest) (now : ℕ) (random : RandomSource) (id : Bytes)
    → IsValid r
    → IsOwned id r
    → IsOwned id (create r q now random).registry
unfolding create
create-IsOwned r q now random id v (s, e, h) =
    elim (Bool-cases
      (is_empty q.expected_state || is_empty q.pkce_verifier || q.expires_at_monotonic_ms == 0)) [
        | inl t ↦ rw t (s, e, h)
        | inr t ↦ elim (Bool-cases (leb q.expires_at_monotonic_ms now)) [
          | inl u ↦ rw (t, u) (s, e, h)
          | inr u ↦ elim (Bool-cases (leb 4 (active_count (kept now r.sessions)))) [
            | inl w ↦ rw (t, u, w) survives
            | inr w ↦ rw (t, u, w) (entered_IsOwned r' q _ random _ id refl survives)
          ]
        ]
      ]
  where
    r' : Registry
    r' = record r { sessions = kept now r.sessions }

    present : lookup id (swept now r.sessions) ≡ some s
    present = lookup-swept now id r.sessions e ∙ ap some (expire_nothing r id s e h now true)

    outcome : SurvivesOrEnded id s (kept now r.sessions)
    outcome =
        evict-SurvivesOrEnded (length (swept now r.sessions)) id s (swept now r.sessions)
          (swept-Distinct now r.sessions v.sessions_ok.distinct) present

    survives : IsOwned id r'
    survives = elim outcome.1 [ inl f ↦ (s, f, h) | inr (f, t) ↦ cc (rw h at t) ]

create_with_ttl-IsOwned :
    (r : Registry) (state verifier : Bytes) (ttl : ℕ) (owner : Option ℕ) (now later : ℕ)
    (random : RandomSource) (id : Bytes)
    → IsValid r
    → IsOwned id r
    → IsOwned id (create_with_ttl r state verifier ttl owner now later random).registry
unfolding create_with_ttl
create_with_ttl-IsOwned r state verifier ttl owner now later random id v o =
    elim (Bool-cases (ttl == 0 || ltb (2 ^ 64 - 1 - now) ttl)) [
      | inl t ↦ rw t o
      | inr t ↦
          rw t (create-IsOwned r (ttl_request state verifier (now + ttl) owner) later random id v o)
    ]

-- A call that looks a session up, on this one or on another.
call_IsOwned :
    (r r' : Registry) (at id : Bytes)
    → Touches r at r'
    → ((s : Session) → lookup at r.sessions ≡ some s → s.status ≡ completing → IsOwned at r')
    → IsOwned id r
    → IsOwned id r'
call_IsOwned r r' at id t here (s, e, h) = elim (Bool-cases (bytes_eq at id)) [
  | inr n ↦ other_IsOwned r r' at id t n (s, e, h)
  | inl y ↦
      let same = (bytes_eq_iff at id).0 y in
      subst (λ k. IsOwned k r') same (here s (ap (λ k. lookup k r.sessions) same ∙ e) h)
]

untouched_IsOwned :
    (r r' : Registry) (id : Bytes) → r'.sessions ≡ r.sessions → IsOwned id r → IsOwned id r'
untouched_IsOwned r r' id same (s, e, h) = (s, ap (lookup id) same ∙ e, h)

step-IsOwned :
    (r : Registry) (c : Call) (id : Bytes)
    → IsValid r
    → finishes id c ≡ false
    → IsOwned id r
    → IsOwned id (step r c)
unfolding step
step-IsOwned r (creates q now random) id v n o = create-IsOwned r q now random id v o
step-IsOwned r (creates_with_ttl state verifier ttl owner now later random) id v n o =
    create_with_ttl-IsOwned r state verifier ttl owner now later random id v o
step-IsOwned r (snapshots at now) id v n o =
    call_IsOwned r _ at id (snapshot-Touches r at now) (λ s e h. snapshot-IsOwned r at s e h now) o
step-IsOwned r (receives_callback at state code now) id v n o =
    call_IsOwned r _ at id (receive_callback-Touches r at state code now)
      (λ s e h. receive_callback-IsOwned r at s e h state code now) o
step-IsOwned r (receives_denied at state now) id v n o =
    call_IsOwned r _ at id (receive_denied-Touches r at state now)
      (λ s e h. receive_denied-IsOwned r at s e h state now) o
step-IsOwned r (begins_completion at now) id v n o =
    call_IsOwned r _ at id (begin_completion-Touches r at now)
      (λ s e h. begin_completion-IsOwned r at s e h now) o
step-IsOwned r (finishes_authorized at) id v n o =
    other_IsOwned r _ at id (finish_authorized-Touches r at) n o
step-IsOwned r (finishes_failed at fault) id v n o =
    other_IsOwned r _ at id (finish_failed-Touches r at fault) n o
step-IsOwned r (fails at fault) id v n o =
    call_IsOwned r _ at id (fail-Touches r at fault) (λ s e h. fail-IsOwned r at s e h fault) o
step-IsOwned r (cancels at) id v n o =
    call_IsOwned r _ at id (cancel-Touches r at) (λ s e h. cancel-IsOwned r at s e h) o
step-IsOwned r (stops_callback at) id v n o =
    call_IsOwned r _ at id (stop_callback-Touches r at) (λ s e h. stop_callback-IsOwned r at s e h)
      o
step-IsOwned r (stores_credential url token expiry before now random) id v n o =
    untouched_IsOwned r (store_credential r url token expiry before now random).registry id
      (store_credential-sessions r url token expiry before now random) o
step-IsOwned r (resolves_credential at now) id v n o =
    untouched_IsOwned r (resolve_credential r at now).registry id
      (resolve_credential-sessions r at now) o
step-IsOwned r (removes_credential at) id v n o =
    untouched_IsOwned r (remove_credential r at).registry id (remove_credential-sessions r at) o

-- Once BeginCompletion has handed a session over, no history of other calls expires, cancels,
-- fails or evicts it: it is still there and completing until one of the two finishing calls names it.
pub run-IsOwned :
    (r : Registry) (cs : List Call) (id : Bytes)
    → IsValid r
    → NoneFinishes id cs
    → IsOwned id r
    → IsOwned id (run r cs)
unfolding run
run-IsOwned r [] id v n o = o
run-IsOwned r (c ∷ cs) id v n o =
    run-IsOwned (step r c) cs id (step-IsValid r c v) n.1 (step-IsOwned r c id v n.0 o)
