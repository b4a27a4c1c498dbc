-- ===== src/Auth/Secret.antt =====
-- src/session_credentials.cpp: InstallTemporarySessionSecret and CreateOAuthPkceSecret. DuckDB's
-- catalog is an argument: the secret that it finds, and whether its transaction commits. The lock by
-- name is held throughout.
pub mod Installed
use duckdb_data.Registry.State.{Registry}
use duckdb_data.Registry.Credentials.{remove_credential}
use duckdb_data.Auth.World.{
  World, Host, Thrown, other_exception, Step, ◌>>=◌, ◌>>◌, pure, throw, on_registry,
}
use duckdb_data.Base.{
  ℕ, suc, not, ◌&&◌, Option, none, some, [], ◌∷◌, if◌then◌else◌, Bytes, codes, bytes_eq, is_empty,
  Result, ok, err,
}

-- A temporary secret of the catalog; `session_id` is missing where it is no key-value secret, or
-- has no such value, or NULL.
pub record FoundSecret : Type 0 where
  pub kind : Bytes
  pub provider : Bytes
  pub session_id : Option Bytes

-- Each answer is `err tt` where the call throws.
pub record Catalog : Type 0 where
  pub find : ℕ → Bytes → Result (Unit {0}) (Option FoundSecret)
  pub replace : ℕ → Bytes → Bytes → Result (Unit {0}) (Unit {0})

-- The credential of the secret found.
abbrev pub old_credential : Option FoundSecret → Bytes
old_credential none = []
old_credential (some found) =
    if bytes_eq found.kind (codes "data360") && bytes_eq found.provider (codes "oauth_pkce")
    then (elim found.session_id [ none ↦ [] | some id ↦ id ])
    else []

-- What was read before the transaction failed.
abbrev pub old_read : Result (Unit {0}) (Option FoundSecret) → Bytes
old_read (ok found) = old_credential found
old_read (err e) = []

abbrev pub replace_if_found :
    Result (Unit {0}) (Option FoundSecret)
    → Result (Unit {0}) (Unit {0})
    → Result (Unit {0}) (Unit {0})
replace_if_found (ok found) replaced = replaced
replace_if_found (err e) replaced = err e

abbrev pub if_committed : {A : Type 0} → Result (Unit {0}) (Unit {0}) → A → A → A
if_committed (ok t) committed undone = committed
if_committed (err e) committed undone = undone

module _ (host : Host) (catalog : Catalog) where
  abbrev pub remove : Bytes → Step (Unit {0})
  remove credential_id = on_registry host (λ r now. remove_credential r credential_id)

  -- The handler: the displaced credential is kept.
  unfoldable pub undo_install : Bytes → Bytes → Step (Unit {0})
  unfolding on_registry
  undo_install credential_id old_credential_id =
      if bytes_eq credential_id old_credential_id
      then throw other_exception
      else remove credential_id >> throw other_exception

  -- Behind the commit.
  unfoldable pub retire_old : Bytes → Bytes → Bytes → Step (Unit {0})
  unfolding on_registry
  retire_old secret_name credential_id old_credential_id w =
      let w' : World = record w { secrets = (secret_name, credential_id) ∷ w.secrets } in
      if not (is_empty old_credential_id) && not (bytes_eq old_credential_id credential_id)
      then remove old_credential_id w'
      else (ok tt, w')

  -- The lock and the Connection are taken to be had: their exceptions, which leave before the try
  -- block with nothing changed, are not modelled.
  unfoldable pub install_temporary_session_secret : Bytes → Bytes → Step (Unit {0})
  unfolding undo_install retire_old
  install_temporary_session_secret secret_name credential_id w =
      let found = catalog.find w.turn secret_name in
      let replaced = catalog.replace (suc w.turn) secret_name credential_id in
      let w' : World = record w { turn = suc (suc w.turn) } in
      if_committed (replace_if_found found replaced)
        (retire_old secret_name credential_id (old_read found) w')
        (undo_install credential_id (old_read found) w')
