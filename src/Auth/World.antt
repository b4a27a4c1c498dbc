-- ===== src/Auth/World.antt =====
-- How src/auth_functions.cpp calls the registry: at each turn other threads may have made any calls
-- before ours, and the clock, the interruption and the random source are asked anew.
use duckdb_data.Faults.{AuthFault}
use duckdb_data.Pkce.Base64.{RandomSource}
use duckdb_data.Registry.State.{Registry, Failure, session_error, oauth_error, Reply}
use duckdb_data.Registry.Calls.{Call, run}
use duckdb_data.Base.{ℕ, suc, Bool, List, ◌∷◌, ◌++◌, Bytes, Result, ok, err}

-- The registry, the owners stopped, the secrets put in place by name and credential, the last one
-- first, the turn, and the turns at which IsInterrupted was asked, the last one first.
pub record World : Type 0 where
  pub registry : Registry
  pub stopped : List ℕ
  pub secrets : List (Bytes × Bytes)
  pub turn : ℕ
  pub asked : List ℕ

-- The registry's clock, ClientContext::IsInterrupted, the random source, and the other threads.
pub record Host : Type 0 where
  pub now_ms : ℕ → ℕ
  pub is_interrupted : ℕ → Bool
  pub random : ℕ → RandomSource
  pub others : ℕ → List Call

-- What is thrown: an AuthFaultException, an InterruptException, or anything else.
pub data Thrown : Type 0 where
  auth_fault : AuthFault → Thrown
  interrupt other_exception : Thrown

abbrev pub thrown_by : Failure → Thrown
thrown_by (session_error fault) = auth_fault fault
thrown_by (oauth_error e) = other_exception

abbrev pub Step : Type 0 → Type 0
Step A = World → Result Thrown A × World

abbrev pub chain : {A B : Type 0} → Result Thrown A × World → (A → Step B) → Result Thrown B × World
chain (ok a, w) f = f a w
chain (err e, w) f = (err e, w)

infixl 5 ◌>>=◌ ◌>>◌
abbrev pub ◌>>=◌ : {A B : Type 0} → Step A → (A → Step B) → Step B
◌>>=◌ m f w = chain (m w) f

abbrev pub ◌>>◌ : {B : Type 0} → Step (Unit {0}) → Step B → Step B
m >> k = m >>= λ _. k

abbrev pub pure : {A : Type 0} → A → Step A
pure a w = (ok a, w)

abbrev pub throw : {A : Type 0} → Thrown → Step A
throw e w = (err e, w)

-- What a registry call gives to its caller.
abbrev pub outcome_of : {A : Type 0} → Result Failure A → Result Thrown A
outcome_of (ok a) = ok a
outcome_of (err e) = err (thrown_by e)

abbrev pub replied : {A : Type 0} → World → Reply A → Result Thrown A × World
replied w reply = (
  outcome_of reply.outcome,
  record w { registry = reply.registry; stopped = reply.stopped ++ w.stopped; turn = suc w.turn },
)

-- A call on the registry, after those that other threads made.
unfoldable pub on_registry : {A : Type 0} → Host → (Registry → ℕ → Reply A) → Step A
unfolding run
on_registry host call w =
    replied w (call (run w.registry (host.others w.turn)) (host.now_ms w.turn))

abbrev pub ask_now : Host → Step ℕ
ask_now host w = (ok (host.now_ms w.turn), record w { turn = suc w.turn })

abbrev pub ask_interrupted : Host → Step Bool
ask_interrupted host w =
    (ok (host.is_interrupted w.turn), record w { turn = suc w.turn; asked = w.turn ∷ w.asked })

-- try { … } catch (...) {}
abbrev pub ignoring : Step (Unit {0}) → Step (Unit {0})
ignoring body w = (ok tt, (body w).1)
