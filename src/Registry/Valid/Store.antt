-- ===== src/Registry/Valid/Store.antt =====
-- The calls on credentials keep the invariant.
use duckdb_data.Pkce.Base64.{RandomSource}
use duckdb_data.Registry.Map.{lookup, erase, erase_if}
use duckdb_data.Registry.Map.Laws.{emplace-Distinct, erase-Distinct, erase_if-Distinct}
use duckdb_data.Registry.Map.Counts.{
  emplace-AllValues, erase-AllValues, erase_if-AllValues, length-emplace-le, length-erase-le,
  length-erase_if-le,
}
use duckdb_data.Registry.State.{Credential, Registry, Failure}
use duckdb_data.Registry.Sessions.{fresh_id}
use duckdb_data.Registry.Credentials.{store_entry, store_credential, resolve_credential}
use duckdb_data.Registry.Sweep.{fresh_id_free}
use duckdb_data.Registry.Valid.{CredentialOk, IsValid}
use duckdb_data.Base.{
  ℕ, ◌<◌, ◌≡◌, refl, inl, inr, Bool, ◌||◌, [], ◌∷◌, arith, leb, Bool-cases, Option-cases, length,
  Bytes, is_empty, Result, ok, err,
}

store_entry-IsValid :
    (r : Registry) (c : Credential) (attempt : ℕ) (random : RandomSource) (rounds : ℕ)
    (id : Result Failure Bytes)
    → fresh_id rounds attempt random r ≡ id
    → CredentialOk c
    → length r.credentials < 16
    → IsValid r
    → IsValid (store_entry r c id).registry
store_entry-IsValid r c attempt random rounds (err x) f o l v = unfold store_entry in v
store_entry-IsValid r c attempt random rounds (ok []) f o l v = unfold store_entry in v
store_entry-IsValid r c attempt random rounds (ok (x ∷ id)) f o l v =
    unfold store_entry in
    record {
      sessions_ok = v.sessions_ok;
      credentials_ok = record {
        each_ok =
            emplace-AllValues CredentialOk (x ∷ id) c r.credentials v.credentials_ok.each_ok o;
        distinct =
            emplace-Distinct (x ∷ id) c r.credentials
              (fresh_id_free rounds attempt random r x id f).1 v.credentials_ok.distinct;
        few = omega (arith, length-emplace-le (x ∷ id) c r.credentials, l);
      };
    }

erase_if-IsValid :
    (r : Registry) (p : Credential → Bool)
    → IsValid r
    → IsValid (record r { credentials = erase_if p r.credentials })
erase_if-IsValid r p v = record {
  sessions_ok = v.sessions_ok;
  credentials_ok = record {
    each_ok = erase_if-AllValues CredentialOk p r.credentials v.credentials_ok.each_ok;
    distinct = erase_if-Distinct p r.credentials v.credentials_ok.distinct;
    few = omega (arith, length-erase_if-le p r.credentials, v.credentials_ok.few);
  };
}

pub erase-IsValid :
    (r : Registry) (id : Bytes)
    → IsValid r
    → IsValid (record r { credentials = erase id r.credentials })
erase-IsValid r id v = record {
  sessions_ok = v.sessions_ok;
  credentials_ok = record {
    each_ok = erase-AllValues CredentialOk id r.credentials v.credentials_ok.each_ok;
    distinct = erase-Distinct id r.credentials v.credentials_ok.distinct;
    few = omega (arith, length-erase-le id r.credentials, v.credentials_ok.few);
  };
}

pub store_credential-IsValid :
    (r : Registry) (url token : Bytes) (expiry before now : ℕ) (random : RandomSource)
    → IsValid r
    → IsValid (store_credential r url token expiry before now random).registry
unfolding store_credential
store_credential-IsValid r url token expiry before now random v =
    elim (Bool-cases (is_empty url || is_empty token || leb expiry before)) [
      | inl t ↦ rw t v
      | inr t ↦ elim (Bool-cases (leb 16 (length r'.credentials))) [
        | inl u ↦ rw (t, u) valid'
        | inr u ↦
            rw (t, u)
              (store_entry-IsValid r' _ 0 random 16 _ refl (ground arith) (ground arith) valid')
      ]
    ]
  where
    r' : Registry
    r' = record r { credentials = erase_if (λ c. leb c.expires_at_ms now) r.credentials }

    valid' : IsValid r'
    valid' = erase_if-IsValid r (λ c. leb c.expires_at_ms now) v

pub resolve_credential-IsValid :
    (r : Registry) (id : Bytes) (now : ℕ)
    → IsValid r
    → IsValid (resolve_credential r id now).registry
unfolding resolve_credential
resolve_credential-IsValid r id now v = elim (Option-cases (lookup id r.credentials)) [
  | inl e ↦ rw (e, resolve_credential) v
  | inr (c, e) ↦ elim (Bool-cases (leb c.expires_at_ms now)) [
    | inl t ↦ rw (e, t, resolve_credential) (erase-IsValid r id v)
    | inr t ↦ rw (e, t, resolve_credential) v
  ]
]
