-- ===== src/Auth/Secret/Installed.antt =====
-- Which credentials are left once a secret was to be installed.
use duckdb_data.Registry.Map.{lookup, erase}
use duckdb_data.Registry.Map.Laws.{lookup-erase_self, lookup-erase_ne}
use duckdb_data.Registry.State.{Registry, Credential}
use duckdb_data.Registry.Credentials.{remove_credential}
use duckdb_data.Registry.Calls.{run}
use duckdb_data.Auth.World.{World, Host, Thrown, other_exception, on_registry}
use duckdb_data.Auth.Secret.{
  Catalog, old_read, replace_if_found, if_committed, remove, undo_install, retire_old,
  install_temporary_session_secret,
}
use duckdb_data.Base.{
  ℕ, suc, ◌≡◌, refl, sym, ap, ◌∙◌, subst, ◌⊎◌, inl, inr, Bool, true, not, ◌&&◌, Option, none, List,
  [], ◌∷◌, arith, if◌then◌else◌, Bool-cases, Bytes, bytes_eq, is_empty, bytes_eq_iff, Result, ok,
  err,
}

abbrev pub IsAlone : Host → Type 0
IsAlone host = (t : ℕ) → host.others t ≡ []

abbrev credential_at : Bytes → World → Option Credential
credential_at id w = lookup id w.registry.credentials

lookup-erase :
    {V : Type 0} (id k : Bytes) (m : List (Bytes × V))
    → lookup id (erase k m) ≡ (if bytes_eq id k then none else lookup id m)
lookup-erase id k m = elim (Bool-cases (bytes_eq id k)) [
  | inl e ↦ rw e (
      subst (λ x. lookup x (erase k m) ≡ none) (sym ((bytes_eq_iff id k).0 e))
        (lookup-erase_self k m))
  | inr e ↦ rw e (lookup-erase_ne k id m (λ same. cc (sym e ∙ (bytes_eq_iff id k).1 (sym same))))
]

-- What becomes of the credential `id` where `lost` is removed.
abbrev pub without : Bool → Bytes → Bytes → World → Option Credential
without is_lost lost id w = if bytes_eq id lost && is_lost then none else credential_at id w

abbrev pub IsCommitted :
    Bytes → Bytes → Bytes → Bytes → World → Result Thrown (Unit {0}) × World → Type 0
IsCommitted name credential_id old id w x =
    (x.0 ≡ ok tt)
    × (x.1.secrets ≡ (name, credential_id) ∷ w.secrets)
    × (credential_at id x.1
        ≡ without (not (is_empty old) && not (bytes_eq old credential_id)) old id w)

abbrev pub IsUndone : Bytes → Bytes → Bytes → World → Result Thrown (Unit {0}) × World → Type 0
IsUndone credential_id old id w x =
    (x.0 ≡ err other_exception)
    × (x.1.secrets ≡ w.secrets)
    × (credential_at id x.1 ≡ without (not (bytes_eq credential_id old)) credential_id id w)

if_committed_cases :
    {A : Type 0} (P Q : A → Type 0) (c : Result (Unit {0}) (Unit {0})) (a b : A)
    → P a
    → Q b
    → ((c ≡ ok tt) × P (if_committed c a b)) ⊎ ((c ≡ err tt) × Q (if_committed c a b))
if_committed_cases P Q (ok t) a b p q = inl (refl, p)
if_committed_cases P Q (err e) a b p q = inr (refl, q)

module _ (host : Host) (catalog : Catalog) (alone : IsAlone host) where
  removed :
      (id : Bytes) (w : World)
      → (remove host catalog id w).1.registry ≡ (remove_credential w.registry id).registry
  unfolding on_registry run
  removed id w = rw (alone w.turn) refl

  removed_credential :
      (lost id : Bytes) (w : World)
      → credential_at id (remove host catalog lost w).1 ≡ without true lost id w
  unfolding remove_credential
  removed_credential lost id w =
      ap (λ (r : Registry). lookup id r.credentials) (removed lost w)
      ∙ lookup-erase id lost w.registry.credentials
      ∙ ground arith

  retire_old-IsCommitted :
      (name credential_id old id : Bytes) (w : World)
      → IsCommitted name credential_id old id w (retire_old host catalog name credential_id old w)
  unfolding retire_old remove_credential on_registry
  retire_old-IsCommitted name credential_id old id w =
      elim (Bool-cases (not (is_empty old) && not (bytes_eq old credential_id))) [
        | inr e ↦ rw e (refl, refl, ground arith)
        | inl e ↦ rw e (
          refl,
          refl,
          removed_credential old id (record w { secrets = (name, credential_id) ∷ w.secrets }),
        )
      ]

  undo_install-IsUndone :
      (credential_id old id : Bytes) (w : World)
      → IsUndone credential_id old id w (undo_install host catalog credential_id old w)
  unfolding undo_install remove_credential on_registry
  undo_install-IsUndone credential_id old id w = elim (Bool-cases (bytes_eq credential_id old)) [
    | inl e ↦ rw e (refl, refl, ground arith)
    | inr e ↦ rw e (refl, refl, removed_credential credential_id id w)
  ]

  -- With no other thread at the registry: a secret that is installed leaves its own credential and
  -- takes that of the secret it displaced away; one that is not takes its own away, the displaced
  -- one being the same apart; and every other credential stays, either way.
  pub install_credentials :
      (name credential_id id : Bytes) (w : World)
      → let old = old_read (catalog.find w.turn name) in
        let c =
          replace_if_found
            (catalog.find w.turn name)
            (catalog.replace (suc w.turn) name credential_id) in
        let x = install_temporary_session_secret host catalog name credential_id w in
        ((c ≡ ok tt) × IsCommitted name credential_id old id w x)
        ⊎ ((c ≡ err tt) × IsUndone credential_id old id w x)
  unfolding install_temporary_session_secret
  install_credentials name credential_id id w =
      let old = old_read (catalog.find w.turn name) in
      let w' : World = record w { turn = suc (suc w.turn) } in
      if_committed_cases (IsCommitted name credential_id old id w) (IsUndone credential_id old id w)
        (replace_if_found (catalog.find w.turn name)
          (catalog.replace (suc w.turn) name credential_id))
        (retire_old host catalog name credential_id old w')
        (undo_install host catalog credential_id old w')
        (retire_old-IsCommitted name credential_id old id w')
        (undo_install-IsUndone credential_id old id w')
