-- ===== src/Registry/Vault.antt =====
-- Credentials: what is stored can be resolved until it expires, and never after.
use duckdb_data.Faults.{reauth_required}
use duckdb_data.Pkce.Base64.{RandomSource}
use duckdb_data.Registry.Map.{lookup, emplace}
use duckdb_data.Registry.Map.Laws.{lookup-emplace_self, lookup-erase_self}
use duckdb_data.Registry.Sessions.{fresh_id}
use duckdb_data.Registry.State.{Credential, Registry, Failure, session_error}
use duckdb_data.Registry.Sweep.{fresh_id_free}
use duckdb_data.Registry.Credentials.{live, store_entry, store_credential, resolve_credential}
use duckdb_data.Base.{
  ℕ, ◌≡◌, refl, subst, inl, inr, true, false, ◌||◌, none, some, [], ◌∷◌, arith, ltb, leb,
  if◌then◌else◌, Bool-cases, length, Bytes, is_empty, ok-injective, Result, ok, err,
}

store_entry_found :
    (r : Registry) (c : Credential) (random : RandomSource) (new : Result Failure Bytes)
    (id : Bytes)
    → fresh_id 16 0 random r ≡ new
    → (store_entry r c new).outcome ≡ ok id
    → lookup id (store_entry r c new).registry.credentials ≡ some c
unfolding store_entry
store_entry_found r c random (err x) id f e = cc
store_entry_found r c random (ok []) id f e = cc
store_entry_found r c random (ok (x ∷ new)) id f e =
    subst (λ k. lookup k (emplace (x ∷ new) c r.credentials) ≡ some c) (ok-injective e)
      (lookup-emplace_self (x ∷ new) c r.credentials (fresh_id_free 16 0 random r x new f).1)

abbrev pub stored : Bytes → Bytes → ℕ → Credential
stored url token expiry = record {
  instance_url = url;
  access_token = token;
  expires_at_ms = expiry;
}

store_credential_found :
    (r : Registry) (url token : Bytes) (expiry before now : ℕ) (random : RandomSource) (id : Bytes)
    → (store_credential r url token expiry before now random).outcome ≡ ok id
    → lookup id (store_credential r url token expiry before now random).registry.credentials
      ≡ some (stored url token expiry)
unfolding store_credential
store_credential_found r url token expiry before now random id h =
    let r' : Registry = record r { credentials = live now r.credentials } in
    elim (Bool-cases (is_empty url || is_empty token || leb expiry before)) [
      | inl t ↦ cc (rw t at h)
      | inr t ↦ elim (Bool-cases (leb 16 (length (live now r.credentials)))) [
        | inl u ↦ cc (rw (t, u) at h)
        | inr u ↦
            rw (t, u)
              (store_entry_found r' (stored url token expiry) random (fresh_id 16 0 random r') id
                refl (rw (t, u) at h))
      ]
    ]

resolve_found :
    (r : Registry) (id : Bytes) (c : Credential) (now : ℕ)
    → lookup id r.credentials ≡ some c
    → ((resolve_credential r id now).outcome ≡ (
        if ltb now c.expires_at_ms
        then ok (record { instance_url = c.instance_url; access_token = c.access_token })
        else err (session_error reauth_required)))
      × (lookup id (resolve_credential r id now).registry.credentials
          ≡ (if ltb now c.expires_at_ms then some c else none))
resolve_found r id c now e = elim (Bool-cases (leb c.expires_at_ms now)) [
  | inl t ↦
      let late : ltb now c.expires_at_ms ≡ false = ground arith in
      unfold resolve_credential in
      rw (late, e, t, resolve_credential) (refl, lookup-erase_self id r.credentials)
  | inr t ↦
      let early : ltb now c.expires_at_ms ≡ true = ground arith in
      unfold resolve_credential in rw (early, e, t, resolve_credential) (refl, e)
]

-- The identifier that StoreCredential gives resolves to the URL and the token stored, at every time
-- before the expiry; from the expiry on it gives REAUTH_REQUIRED, and the credential is gone.
pub resolve-store_credential :
    (r : Registry) (url token : Bytes) (expiry before now later : ℕ) (random : RandomSource)
    (id : Bytes)
    → (store_credential r url token expiry before now random).outcome ≡ ok id
    → let r' = (store_credential r url token expiry before now random).registry in
      ((resolve_credential r' id later).outcome ≡ (
        if ltb later expiry
        then ok (record { instance_url = url; access_token = token })
        else err (session_error reauth_required)))
      × (lookup id (resolve_credential r' id later).registry.credentials
          ≡ (if ltb later expiry then some (stored url token expiry) else none))
resolve-store_credential r url token expiry before now later random id h =
    resolve_found _ id (stored url token expiry) later
      (store_credential_found r url token expiry before now random id h)
