-- ===== src/Registry/Touch.antt =====
-- The calls that look one session up touch that session alone, and change it as `Change` says.
use duckdb_data.Faults.{AuthFault, user_denied, state_mismatch, auth_session_not_found}
use duckdb_data.Pkce.Challenge.{constant_time_equals}
use duckdb_data.Registry.Map.{lookup}
use duckdb_data.Registry.State.{
  AuthSessionStatus, pending_user_action, callback_received, completing, authorized, access_denied,
  cancelled, failed, Session, Registry, Reply, throw,
}
use duckdb_data.Registry.Sessions.{
  is_terminal, is_pending, is_callback_received, is_completing, expire_locked, with_session, store,
  snapshot, receive_callback, receive_denied, begin_completion, finish_authorized, finish_failed,
  fail, cancel, stop_callback,
}
use duckdb_data.Registry.Sessions.Transitions.{
  Change, Change-refl, may_move, terminal_locked-Change, expire_locked-Change, reap-Change,
}
use duckdb_data.Base.{
  ℕ, ◌≡◌, refl, sym, subst, ◌⊎◌, inl, inr, Bool, true, false, not, ◌||◌, none, some, [], arith,
  Bool-cases, Option-cases, Bytes, is_empty,
}

abbrev pub Touches : Registry → Bytes → Registry → Type 0
Touches r id r' =
    (r' ≡ r)
    ⊎ ((s s' : Session) × (lookup id r.sessions ≡ some s) × Change s s' × (r' ≡ store r id s'))

expire_locked_active :
    (s : Session) (now : ℕ) (release : Bool)
    → is_terminal (expire_locked s now release).0.status ≡ false
    → (expire_locked s now release).0 ≡ s
unfolding expire_locked
expire_locked_active s now release h = ground arith

module _ {ℓ} {A : Type ℓ} (r : Registry) (id : Bytes) (body : Session → Reply A) where
  pub with_session_missing :
      lookup id r.sessions ≡ none → with_session r id body ≡ throw r auth_session_not_found
  with_session_missing e = rw (e, with_session)

  pub with_session_found :
      (s : Session) → lookup id r.sessions ≡ some s → with_session r id body ≡ body s
  with_session_found s e = rw (e, with_session)

  with_session-Touches :
      ((s : Session) → lookup id r.sessions ≡ some s → Touches r id (body s).registry)
      → Touches r id (with_session r id body).registry
  with_session-Touches each = elim (Option-cases (lookup id r.sessions)) [
    | inl e ↦ subst (λ x. Touches r id x.registry) (sym (with_session_missing e)) (inl refl)
    | inr (s, e) ↦ subst (λ x. Touches r id x.registry) (sym (with_session_found s e)) (each s e)
  ]

-- One branch.
stored :
    (r : Registry) (id : Bytes) (s s' : Session)
    → lookup id r.sessions ≡ some s
    → Change s s'
    → Touches r id (store r id s')
stored r id s s' e c = inr (s, s', e, c, refl)

Change-after : (s s₁ s₂ : Session) → s₁ ≡ s → Change s₁ s₂ → Change s s₂
Change-after s s₁ s₂ e c = subst (λ x. Change x s₂) e c

pub snapshot-Touches :
    (r : Registry) (id : Bytes) (now : ℕ) → Touches r id (snapshot r id now).registry
unfolding snapshot
snapshot-Touches r id now = with_session-Touches r id _ λ s e. stored r id s _ e (reap-Change s now)

receives-Change :
    (s : Session) (code : Bytes)
    → is_pending s.status ≡ true
    → is_empty code ≡ false
    → Change s
        (record s { authorization_code = code; expected_state = []; status = callback_received })
receives-Change s code p c = record {
  keeps_ok = λ h. ground arith;
  keeps_inactive = ground arith;
  moves = ground arith;
  keeps_request = ground arith;
}

pub receive_callback-Touches :
    (r : Registry) (id state code : Bytes) (now : ℕ)
    → Touches r id (receive_callback r id state code now).registry
unfolding receive_callback
receive_callback-Touches r id state code now = with_session-Touches r id _ λ s e.
    let s₁ = (expire_locked s now false).0 in
    elim (Bool-cases (not (is_pending s₁.status) || is_empty code)) [
      | inl t ↦ rw t (stored r id s s₁ e (expire_locked-Change s now false))
      | inr t ↦
          let same = expire_locked_active s now false (ground arith) in
          elim (Bool-cases (not (constant_time_equals s₁.expected_state state))) [
            | inl w ↦
                rw (t, w)
                  (stored r id s _ e (
                    Change-after s s₁ _ same (
                      terminal_locked-Change s₁ failed (some state_mismatch) false refl (λ x. cc)
                        (inr (ground arith)))))
            | inr w ↦
                rw (t, w)
                  (stored r id s _ e (
                    Change-after s s₁ _ same
                      (receives-Change s₁ code (ground arith) (ground arith))))
          ]
    ]

pub receive_denied-Touches :
    (r : Registry) (id state : Bytes) (now : ℕ)
    → Touches r id (receive_denied r id state now).registry
unfolding receive_denied
receive_denied-Touches r id state now = with_session-Touches r id _ λ s e.
    let s₁ = (expire_locked s now false).0 in
    elim (Bool-cases (not (is_pending s₁.status))) [
      | inl t ↦ rw t (stored r id s s₁ e (expire_locked-Change s now false))
      | inr t ↦
          let same = expire_locked_active s now false (ground arith) in
          elim (Bool-cases (not (constant_time_equals s₁.expected_state state))) [
            | inl w ↦
                rw (t, w)
                  (stored r id s _ e (
                    Change-after s s₁ _ same (
                      terminal_locked-Change s₁ failed (some state_mismatch) false refl (λ x. cc)
                        (inr (ground arith)))))
            | inr w ↦
                rw (t, w)
                  (stored r id s _ e (
                    Change-after s s₁ _ same (
                      terminal_locked-Change s₁ access_denied (some user_denied) false refl refl
                        (inr (ground arith)))))
          ]
    ]

hands_over-Change :
    (s : Session)
    → is_callback_received s.status ≡ true
    → Change s (record s { status = completing; authorization_code = []; pkce_verifier = [] })
hands_over-Change s p = record {
  keeps_ok = λ h. ground arith;
  keeps_inactive = ground arith;
  moves = ground arith;
  keeps_request = ground arith;
}

pub begin_completion-Touches :
    (r : Registry) (id : Bytes) (now : ℕ) → Touches r id (begin_completion r id now).registry
unfolding begin_completion
begin_completion-Touches r id now = with_session-Touches r id _ λ s e.
    let s₁ = (expire_locked s now true).0 in
    elim (Bool-cases (not (is_callback_received s₁.status))) [
      | inl t ↦ rw t (stored r id s s₁ e (expire_locked-Change s now true))
      | inr t ↦
          let same = expire_locked_active s now true (ground arith) in
          rw t (stored r id s _ e (Change-after s s₁ _ same (hands_over-Change s₁ (ground arith))))
    ]

pub finish_authorized-Touches :
    (r : Registry) (id : Bytes) → Touches r id (finish_authorized r id).registry
unfolding finish_authorized
finish_authorized-Touches r id = with_session-Touches r id _ λ s e.
    elim (Bool-cases (not (is_completing s.status))) [
      | inl t ↦ rw t (inl refl)
      | inr t ↦ rw t (
          stored r id s _ e
            (terminal_locked-Change s authorized none true refl refl (inr (ground arith))))
    ]

pub finish_failed-Touches :
    (r : Registry) (id : Bytes) (fault : AuthFault)
    → Touches r id (finish_failed r id fault).registry
unfolding finish_failed
finish_failed-Touches r id fault = with_session-Touches r id _ λ s e.
    elim (Bool-cases (not (is_completing s.status))) [
      | inl t ↦ rw t (inl refl)
      | inr t ↦ rw t (
          stored r id s _ e
            (terminal_locked-Change s failed (some fault) true refl (λ x. cc) (inr (ground arith))))
    ]

-- A session that no completion owns may fail or be cancelled, if it has not ended.
may_fail :
    (status : AuthSessionStatus)
    → is_completing status ≡ false
    → (is_terminal status ≡ true) ⊎ (may_move status failed ≡ true)
may_fail pending_user_action h = inr refl
may_fail callback_received h = inr refl
may_fail completing h = cc
may_fail _ h = inl refl

may_cancel :
    (status : AuthSessionStatus)
    → is_completing status ≡ false
    → (is_terminal status ≡ true) ⊎ (may_move status cancelled ≡ true)
may_cancel pending_user_action h = inr refl
may_cancel callback_received h = inr refl
may_cancel completing h = cc
may_cancel _ h = inl refl

pub fail-Touches :
    (r : Registry) (id : Bytes) (fault : AuthFault) → Touches r id (fail r id fault).registry
unfolding fail
fail-Touches r id fault = with_session-Touches r id _ λ s e.
    elim (Bool-cases (is_completing s.status)) [
      | inl t ↦ rw t (inl refl)
      | inr t ↦ rw t (
          stored r id s _ e (
            terminal_locked-Change s failed (some fault) true refl (λ x. cc) (may_fail s.status t)))
    ]

pub cancel-Touches : (r : Registry) (id : Bytes) → Touches r id (cancel r id).registry
unfolding cancel
cancel-Touches r id = with_session-Touches r id _ λ s e.
    elim (Bool-cases (is_completing s.status)) [
      | inl t ↦ rw t (inl refl)
      | inr t ↦ rw t (
          stored r id s _ e
            (terminal_locked-Change s cancelled none true refl refl (may_cancel s.status t)))
    ]

released-Change : (s : Session) → Change s (record s { callback_owner = none })
released-Change s = record {
  keeps_ok = λ h. ground arith;
  keeps_inactive = omega arith;
  moves = (Change-refl s).moves;
  keeps_request = (refl, refl, refl, refl, refl);
}

pub stop_callback-Touches : (r : Registry) (id : Bytes) → Touches r id (stop_callback r id).registry
unfolding stop_callback
stop_callback-Touches r id = elim (Option-cases (lookup id r.sessions)) [
  | inl e ↦ inl (rw (e, stop_callback))
  | inr (s, e) ↦
      inr (s, record s { callback_owner = none }, e, released-Change s, rw (e, stop_callback))
]
