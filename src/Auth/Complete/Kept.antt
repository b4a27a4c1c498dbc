-- ===== src/Auth/Complete/Kept.antt =====
-- What the completion calls before it finishes keeps its session with it.
use duckdb_data.Faults.{AuthFault}
use duckdb_data.Registry.Map.{lookup}
use duckdb_data.Registry.State.{authorized, failed, Session, Registry, Reply}
use duckdb_data.Registry.Sessions.{finish_authorized, finish_failed, terminal_locked}
use duckdb_data.Registry.Credentials.{store_credential, remove_credential}
use duckdb_data.Registry.Calls.{Call, stores_credential, removes_credential, step, run}
use duckdb_data.Registry.Valid.{IsValid}
use duckdb_data.Registry.Limits.{step-IsValid}
use duckdb_data.Registry.Ownership.{finishes, NoneFinishes, IsOwned, run-IsOwned}
use duckdb_data.Registry.Map.Laws.{lookup-put_self}
use duckdb_data.Registry.Touch.{with_session_found}
use duckdb_data.Salesforce.Types.{Data360Capability}
use duckdb_data.Auth.World.{World, Host, Thrown, chain, throw, other_exception, on_registry}
use duckdb_data.Auth.Secret.{
  Catalog, old_read, replace_if_found, if_committed, remove, undo_install, retire_old,
  install_temporary_session_secret,
}
use duckdb_data.Auth.Complete.{Network, store_at}
use duckdb_data.Base.{
  ℕ, suc, ◌≡◌, refl, sym, subst, ◌⊎◌, inl, inr, false, not, ◌&&◌, some, List, [], ◌∷◌, Bool-cases,
  Bytes, bytes_eq, is_empty, Result, ok, err,
}

-- The registry is valid, and the session `id` is being completed.
abbrev pub IsHeld : Bytes → Registry → Type 0
IsHeld id r = IsValid r × IsOwned id r

-- The session `id` has ended as a completion ends it.
abbrev pub HasEnded : Bytes → Registry → Type 0
HasEnded id r =
    (s : Session) × (lookup id r.sessions ≡ some s)
    × ((s.status ≡ authorized) ⊎ (s.status ≡ failed))

pub run-IsHeld :
    (id : Bytes) (cs : List Call) (r : Registry)
    → NoneFinishes id cs
    → IsHeld id r
    → IsHeld id (run r cs)
unfolding run
run-IsHeld id [] r n h = h
run-IsHeld id (c ∷ cs) r n (v, o) =
    run-IsHeld id cs (step r c) n.1 (step-IsValid r c v, run-IsOwned r (c ∷ []) id v (n.0, tt) o)

if_committed-holds :
    {A : Type 0} (P : A → Type 0) (x : Result (Unit {0}) (Unit {0})) (a b : A)
    → P a
    → P b
    → P (if_committed x a b)
if_committed-holds P (ok t) a b p q = p
if_committed-holds P (err e) a b p q = q

chain-throw :
    (x : Result Thrown (Unit {0}) × World) (e : Thrown)
    → (chain x (λ a. throw {A = Unit {0}} e)).1 ≡ x.1
chain-throw (ok a, w) e = refl
chain-throw (err x, w) e = refl

module _ (id : Bytes) (r : Registry) where
  pub finish_authorized-HasEnded :
      IsOwned id r
      → ((finish_authorized r id).outcome ≡ ok tt) × HasEnded id (finish_authorized r id).registry
  unfolding finish_authorized terminal_locked
  finish_authorized-HasEnded (s, e, h) =
      subst (λ x. (x.outcome ≡ ok tt) × HasEnded id x.registry)
        (sym (with_session_found r id _ s e))
        (rw h (refl, (_, lookup-put_self id _ s r.sessions e, inl refl)))

  pub finish_failed-HasEnded :
      (fault : AuthFault) → IsOwned id r → HasEnded id (finish_failed r id fault).registry
  unfolding finish_failed terminal_locked
  finish_failed-HasEnded fault (s, e, h) =
      subst (λ x. HasEnded id x.registry) (sym (with_session_found r id _ s e))
        (rw h (_, lookup-put_self id _ s r.sessions e, inr refl))

module _ (id : Bytes) (host : Host) (unfinished : (t : ℕ) → NoneFinishes id (host.others t)) where
  -- A call that does not finish the session.
  on_registry-IsHeld :
      {A : Type 0} (call : Registry → ℕ → Reply A) (c : ℕ → Call) (w : World)
      → ((r : Registry) (now : ℕ) → (call r now).registry ≡ step r (c now))
      → ((now : ℕ) → finishes id (c now) ≡ false)
      → IsHeld id w.registry
      → IsHeld id (on_registry host call w).1.registry
  unfolding on_registry
  on_registry-IsHeld call c w same other h =
      let r = run w.registry (host.others w.turn) in
      let now = host.now_ms w.turn in
      subst (IsHeld id) (sym (same r now)) (
        run-IsHeld id (c now ∷ []) r (other now, tt)
          (run-IsHeld id (host.others w.turn) w.registry (unfinished w.turn) h))

  pub remove-IsHeld :
      (catalog : Catalog) (credential_id : Bytes) (w : World)
      → IsHeld id w.registry
      → IsHeld id (remove host catalog credential_id w).1.registry
  unfolding step
  remove-IsHeld catalog credential_id w h =
      on_registry-IsHeld (λ r now. remove_credential r credential_id)
        (λ now. removes_credential credential_id) w (λ r now. refl) (λ now. refl) h

  undo_install-IsHeld :
      (catalog : Catalog) (credential_id old : Bytes) (w : World)
      → IsHeld id w.registry
      → IsHeld id (undo_install host catalog credential_id old w).1.registry
  unfolding undo_install
  undo_install-IsHeld catalog credential_id old w h =
      elim (Bool-cases (bytes_eq credential_id old)) [
        | inl e ↦ rw e h
        | inr e ↦
            rw (e, chain-throw (remove host catalog credential_id w) other_exception)
              (remove-IsHeld catalog credential_id w h)
      ]

  retire_old-IsHeld :
      (catalog : Catalog) (name credential_id old : Bytes) (w : World)
      → IsHeld id w.registry
      → IsHeld id (retire_old host catalog name credential_id old w).1.registry
  unfolding retire_old
  retire_old-IsHeld catalog name credential_id old w h =
      elim (Bool-cases (not (is_empty old) && not (bytes_eq old credential_id))) [
        | inr e ↦ rw e h
        | inl e ↦
            rw e (
              remove-IsHeld catalog old (record w { secrets = (name, credential_id) ∷ w.secrets })
                h)
      ]

  pub install-IsHeld :
      (catalog : Catalog) (name credential_id : Bytes) (w : World)
      → IsHeld id w.registry
      → IsHeld id (install_temporary_session_secret host catalog name credential_id w).1.registry
  unfolding install_temporary_session_secret
  install-IsHeld catalog name credential_id w h =
      let old = old_read (catalog.find w.turn name) in
      let w' : World = record w { turn = suc (suc w.turn) } in
      if_committed-holds (λ x. IsHeld id x.1.registry)
        (replace_if_found (catalog.find w.turn name)
          (catalog.replace (suc w.turn) name credential_id))
        (retire_old host catalog name credential_id old w')
        (undo_install host catalog credential_id old w')
        (retire_old-IsHeld catalog name credential_id old w' h)
        (undo_install-IsHeld catalog credential_id old w' h)

  pub store_at-IsHeld :
      {V : Type 0} (network : Network V) (catalog : Catalog) (c : Data360Capability) (before : ℕ)
      (w : World)
      → IsHeld id w.registry
      → IsHeld id (store_at host network catalog c before w).1.registry
  unfolding store_at step
  store_at-IsHeld network catalog c before w h =
      on_registry-IsHeld
        (λ r now.
          store_credential r c.tenant_url c.access_token c.expires_at_monotonic_ms before now
            (host.random w.turn))
        (λ now.
          stores_credential c.tenant_url c.access_token c.expires_at_monotonic_ms before now
            (host.random w.turn))
        w (λ r now. refl) (λ now. refl) h
