-- ===== src/Auth/Complete/Ends.antt =====
-- A completion that has begun ends its session.
use duckdb_data.Faults.{AuthFault, auth_session_not_found, token_exchange_failed}
use duckdb_data.Registry.Map.{lookup}
use duckdb_data.Registry.State.{
  session_error, Failure, Session, Registry, Reply, AuthCompletionMaterial,
}
use duckdb_data.Registry.Sessions.{
  expire_locked, is_callback_received, begin_completion, finish_authorized,
}
use duckdb_data.Registry.Calls.{Call, run}
use duckdb_data.Registry.Valid.{IsValid}
use duckdb_data.Registry.Ownership.{NoneFinishes, IsOwned}
use duckdb_data.Registry.Credentials.{remove_credential}
use duckdb_data.Registry.Calls.{begins_completion, step}
use duckdb_data.Registry.Limits.{step-IsValid}
use duckdb_data.Registry.Map.Laws.{lookup-put_self}
use duckdb_data.Registry.Touch.{with_session_found, with_session_missing}
use duckdb_data.Salesforce.Types.{Data360Capability}
use duckdb_data.Auth.World.{World, Host, Thrown, interrupt, chain, replied, outcome_of, on_registry}
use duckdb_data.Auth.Secret.{Catalog, remove, install_temporary_session_secret}
use duckdb_data.Auth.Complete.{
  Network, recorded_fault, exchange_material, store_capability, install_and_finish, attempt_stored,
  attempt, fail_completion, record_auth_completion_failure, remove_if_stored, finalize,
  handle_failure, handled, complete_owned, begun, complete_callback,
}
use duckdb_data.Auth.Complete.Kept.{
  IsHeld, HasEnded, run-IsHeld, finish_authorized-HasEnded, finish_failed-HasEnded, remove-IsHeld,
  install-IsHeld, store_at-IsHeld,
}
use duckdb_data.Base.{
  ℕ, suc, ◌≡◌, refl, sym, ap, ◌∙◌, subst, ◌⊎◌, inl, inr, true, false, none, some, List, [], ◌∷◌,
  arith, Bool-cases, Option-cases, Bytes, Result, ok, err,
}

-- How the try block may leave the session.
abbrev Leaves : Bytes → Result Thrown (Unit {0}) → Registry → Type 0
Leaves id (ok t) r = HasEnded id r
Leaves id (err e) r = IsHeld id r

-- The last two times that IsInterrupted was asked were in two turns in a row, and it said no and then
-- yes.
abbrev pub InterruptedBetween : Host → World → Type 0
InterruptedBetween host w =
    (t : ℕ) × (before : List ℕ) × (w.asked ≡ suc t ∷ t ∷ before)
    × (host.is_interrupted t ≡ false)
    × (host.is_interrupted (suc t) ≡ true)

abbrev pub StaysInterrupted : Host → Type 0
StaysInterrupted host = (t : ℕ) → host.is_interrupted t ≡ true → host.is_interrupted (suc t) ≡ true

-- The session has ended, or the interruption is thrown that came in between.
abbrev pub EndsOrThrows : Bytes → Host → Result Thrown (Unit {0}) × World → Type 0
EndsOrThrows id host x =
    HasEnded id x.1.registry ⊎ ((x.0 ≡ err interrupt) × InterruptedBetween host x.1)

module _ {V : Type 0} (id : Bytes) (host : Host) (network : Network V) (catalog : Catalog)
    (unfinished : (t : ℕ) → NoneFinishes id (host.others t)) where
  finish-Leaves :
      (w : World)
      → IsHeld id w.registry
      → let x = on_registry host (λ r now. finish_authorized r id) w in Leaves id x.0 x.1.registry
  unfolding on_registry
  finish-Leaves w h =
      let r = run w.registry (host.others w.turn) in
      let (done, ended) =
        finish_authorized-HasEnded id r
          (run-IsHeld id (host.others w.turn) w.registry (unfinished w.turn) h).1 in
      subst (λ x. Leaves id (outcome_of x) (finish_authorized r id).registry) (sym done) ended

  install_and_finish-Leaves :
      (name credential_id : Bytes) (w : World)
      → IsHeld id w.registry
      → let x = install_and_finish host network catalog id name credential_id w in
        Leaves id x.0 x.1.registry
  unfolding install_and_finish
  install_and_finish-Leaves name credential_id w h =
      rest (install_temporary_session_secret host catalog name credential_id w)
        (install-IsHeld id host unfinished catalog name credential_id w h)
    where
      rest :
          (x : Result Thrown (Unit {0}) × World)
          → IsHeld id x.1.registry
          → let y = chain x (λ _. on_registry host (λ r now. finish_authorized r id)) in
            Leaves id y.0 y.1.registry
      rest (ok t, v) k = finish-Leaves v k
      rest (err e, v) k = k

  attempt_stored-Leaves :
      (name : Bytes) (x : Result Thrown Bytes × World)
      → IsHeld id x.1.registry
      → let a = attempt_stored host network catalog id name x in Leaves id a.ended a.world.registry
  attempt_stored-Leaves name (ok credential_id, w) h =
      install_and_finish-Leaves name credential_id w h
  attempt_stored-Leaves name (err e, w) h = h

  store_after-IsHeld :
      (x : Result Thrown Data360Capability × World)
      → IsHeld id x.1.registry
      → IsHeld id (chain x (store_capability host network catalog)).1.registry
  unfolding store_capability
  store_after-IsHeld (ok c, w) h =
      store_at-IsHeld id host unfinished network catalog c (host.now_ms w.turn)
        (record w { turn = suc w.turn }) h
  store_after-IsHeld (err e, w) h = h

  attempt-Leaves :
      (name : Bytes) (material : AuthCompletionMaterial) (w : World)
      → IsHeld id w.registry
      → let a = attempt host network catalog id name material w in
        Leaves id a.ended a.world.registry
  unfolding attempt exchange_material
  attempt-Leaves name material w h =
      attempt_stored-Leaves name _
        (store_after-IsHeld (exchange_material host network catalog material w) h)

  fail_completion-HasEnded :
      (fault : AuthFault) (w : World)
      → IsHeld id w.registry
      → HasEnded id (fail_completion host network catalog id fault w).1.registry
  unfolding on_registry
  fail_completion-HasEnded fault w h =
      finish_failed-HasEnded id (run w.registry (host.others w.turn)) fault
        (run-IsHeld id (host.others w.turn) w.registry (unfinished w.turn) h).1

  remove_if_stored-IsHeld :
      (credential_id : Bytes) (w : World)
      → IsHeld id w.registry
      → IsHeld id (remove_if_stored host network catalog credential_id w).1.registry
  remove_if_stored-IsHeld [] w h = h
  remove_if_stored-IsHeld (c ∷ credential_id) w h =
      remove-IsHeld id host unfinished catalog (c ∷ credential_id) w h

  finalize-EndsOrThrows :
      (failure : Thrown) (w : World)
      → StaysInterrupted host
      → IsHeld id w.registry
      → EndsOrThrows id host (finalize host network catalog id failure w)
  unfolding finalize record_auth_completion_failure
  finalize-EndsOrThrows failure w stays h = elim (Bool-cases (host.is_interrupted w.turn)) [
    | inl e ↦
        let later = stays (suc w.turn) (stays w.turn e) in
        rw (e, later)
          (inl (
            fail_completion-HasEnded token_exchange_failed
              (record w { turn = suc w.turn; asked = w.turn ∷ w.asked }) h))
    | inr e ↦ elim (Bool-cases (host.is_interrupted (suc w.turn))) [
      | inl f ↦ rw (e, f) (inr (refl, (w.turn, w.asked, refl, e, f)))
      | inr f ↦
          rw (e, f)
            (inl (
              fail_completion-HasEnded (recorded_fault failure)
                (record w { turn = suc (suc w.turn); asked = suc w.turn ∷ w.turn ∷ w.asked }) h))
    ]
  ]

  handle_failure-EndsOrThrows :
      (credential_id : Bytes) (failure : Thrown) (w : World)
      → StaysInterrupted host
      → IsHeld id w.registry
      → EndsOrThrows id host (handle_failure host network catalog id credential_id failure w)
  unfolding handle_failure on_registry remove_credential
  handle_failure-EndsOrThrows [] failure w stays h = finalize-EndsOrThrows failure w stays h
  handle_failure-EndsOrThrows (c ∷ credential_id) failure w stays h =
      finalize-EndsOrThrows failure (remove host catalog (c ∷ credential_id) w).1 stays
        (remove-IsHeld id host unfinished catalog (c ∷ credential_id) w h)

  handled-EndsOrThrows :
      (credential_id : Bytes) (ended : Result Thrown (Unit {0})) (w : World)
      → StaysInterrupted host
      → Leaves id ended w.registry
      → EndsOrThrows id host (
          handled host network catalog id
            (record { credential_id = credential_id; ended = ended; world = w }))
  handled-EndsOrThrows credential_id (ok t) w stays h = inl h
  handled-EndsOrThrows credential_id (err e) w stays h =
      handle_failure-EndsOrThrows credential_id e w stays h

  complete_owned-EndsOrThrows :
      (name : Bytes) (material : AuthCompletionMaterial) (w : World)
      → StaysInterrupted host
      → IsHeld id w.registry
      → EndsOrThrows id host (complete_owned host network catalog id name material w)
  unfolding complete_owned
  complete_owned-EndsOrThrows name material w stays h =
      let a = attempt host network catalog id name material w in
      handled-EndsOrThrows a.credential_id a.ended a.world stays (attempt-Leaves name material w h)

  begun-EndsOrThrows :
      (name : Bytes) (material : AuthCompletionMaterial)
      (x : Result Thrown AuthCompletionMaterial × World)
      → StaysInterrupted host
      → x.0 ≡ ok material
      → IsHeld id x.1.registry
      → EndsOrThrows id host (begun host network catalog id name x)
  begun-EndsOrThrows name material (ok m, w) stays e h =
      complete_owned-EndsOrThrows name m w stays h
  begun-EndsOrThrows name material (err x, w) stays e h = cc

begin_completion-IsValid :
    (id : Bytes) (r : Registry) (now : ℕ) → IsValid r → IsValid (begin_completion r id now).registry
unfolding step
begin_completion-IsValid id r now v = step-IsValid r (begins_completion id now) v

begun_IsOwned :
    (id : Bytes) (r : Registry) (now : ℕ) (material : AuthCompletionMaterial) (s : Session)
    → lookup id r.sessions ≡ some s
    → (begin_completion r id now).outcome ≡ ok material
    → IsOwned id (begin_completion r id now).registry
unfolding begin_completion
begun_IsOwned id r now material s e h =
    let s' = (expire_locked s now true).0 in
    let found = with_session_found r id _ s e in
    elim (Bool-cases (is_callback_received s'.status)) [
      | inl c ↦
          subst (λ x. IsOwned id x.registry) (sym found)
            (rw c (_, lookup-put_self id _ s r.sessions e, refl))
      | inr c ↦ ground (arith, h, found, c)
    ]

-- BeginCompletion hands the session over.
begin_completion-IsHeld :
    (id : Bytes) (r : Registry) (now : ℕ) (material : AuthCompletionMaterial)
    → IsValid r
    → (begin_completion r id now).outcome ≡ ok material
    → IsHeld id (begin_completion r id now).registry
begin_completion-IsHeld id r now material v h = (
  begin_completion-IsValid id r now v,
  elim (Option-cases (lookup id r.sessions)) [
    | inl e ↦ cc (sym h ∙ missing e)
    | inr (s, e) ↦ begun_IsOwned id r now material s e h
  ],
)
  where
    missing :
        lookup id r.sessions ≡ none
        → (begin_completion r id now).outcome ≡ err (session_error auth_session_not_found)
    missing e =
        unfold begin_completion in
        ap (λ (x : Reply AuthCompletionMaterial). x.outcome) (with_session_missing r id _ e)

run_kept-IsValid : (r : Registry) (cs : List Call) → IsValid r → IsValid (run r cs)
unfolding run
run_kept-IsValid r [] v = v
run_kept-IsValid r (c ∷ cs) v = run_kept-IsValid (step r c) cs (step-IsValid r c v)

outcome_of_ok : {A : Type 0} (x : Result Failure A) (a : A) → outcome_of x ≡ ok a → x ≡ ok a
outcome_of_ok (ok b) a h = cc
outcome_of_ok (err e) a h = cc

-- Where the caller's BeginCompletion succeeds, data360_auth_complete ends the session: whatever the
-- network and the catalog do, and whatever calls other threads make in between that do not finish
-- the session, it is left authorized or failed, or an interruption is thrown, where the query was last
-- asked whether it is interrupted in two turns in a row and said no and then yes. An interruption,
-- once there, is taken to stay.
pub complete_callback_ends :
    {V : Type 0} (id : Bytes) (host : Host) (network : Network V) (catalog : Catalog) (name : Bytes)
    (w : World) (material : AuthCompletionMaterial)
    → ((t : ℕ) → NoneFinishes id (host.others t))
    → StaysInterrupted host
    → IsValid w.registry
    → (on_registry host (λ r now. begin_completion r id now) w).0 ≡ ok material
    → EndsOrThrows id host (complete_callback host network catalog id name w)
unfolding complete_callback on_registry
complete_callback_ends id host network catalog name w material unfinished stays v h =
    let r = run w.registry (host.others w.turn) in
    let now = host.now_ms w.turn in
    begun-EndsOrThrows id host network catalog unfinished name material
      (replied w (begin_completion r id now)) stays h
      (begin_completion-IsHeld id r now material
        (run_kept-IsValid w.registry (host.others w.turn) v)
        (outcome_of_ok (begin_completion r id now).outcome material h))
