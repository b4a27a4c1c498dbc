-- ===== src/Salesforce/Exchange/Chain.antt =====
-- Chains of calls of the exchange.
use duckdb_data.Faults.{AuthFault}
use duckdb_data.Salesforce.Types.{Trace, Call, chain}
use duckdb_data.Base.{◌≡◌, refl, Result, ok, err}

-- What holds after a chain holds of the trace where the first call failed, and of what follows it.
pub chain_holds :
    {A B : Type 0} (R : Trace → Type 0) (x : Result AuthFault A × Trace) (f : A → Call B)
    → R x.1
    → ((a : A) → x.0 ≡ ok a → R x.1 → R (f a x.1).1)
    → R (chain x f).1
chain_holds R (ok a, w) f h k = k a refl h
chain_holds R (err e, w) f h k = h

-- A chain that gives a value: its first call has given one.
pub chain-eq-ok :
    {A B : Type 0} (x : Result AuthFault A × Trace) (f : A → Call B) (b : B)
    → (chain x f).0 ≡ ok b
    → (a : A) × (x.0 ≡ ok a) × ((f a x.1).0 ≡ ok b)
chain-eq-ok (ok a, w) f b h = (a, refl, h)
chain-eq-ok (err e, w) f b h = cc
