-- ===== src/Actor/Maintenance/Retries.antt =====
-- src/actor/maintenance.rs: what becomes of the releases that a flush takes up.
use rivet_durable_streams.Prelude.{◌≡◌, ◌⊎◌, true, Text, List, [], ◌∷◌, ◌++◌, Result, ok}
use rivet_durable_streams.Store.Tables.{GcRelease, has_row}
use rivet_durable_streams.Store.Forks.{release_key}
use rivet_durable_streams.Actor.Types.{Env, World, after, maintenance_retry_ms}
use rivet_durable_streams.Actor.Maintenance.Sending.{IsSettled, IsOwed, Took}

module _ (env : Env) where
  -- After a flush: for every edge that it took up, either its release is owed as before and another
  -- flush is scheduled, or it is owed no more, its source having taken it.
  abbrev pub Retries : List GcRelease → World env.Rest → Result (Unit {0}) × World env.Rest → Type 0
  Retries releases w (r, later) =
      (r ≡ ok tt)
      × ((k : Text)
          → has_row release_key k releases ≡ true
          → (IsOwed k later.db × (later.alarms ≡ w.alarms ++ after maintenance_retry_ms ∷ []))
            ⊎ (IsSettled k later.db × Took env k releases))
