-- ===== src/Actor/Exec.antt =====
-- The effects of a handler: the actor's world, and errors that keep the changes made so far.
use rivet_durable_streams.Prelude.{ℕ, ◌+◌, ◌%◌, ◌^◌, String, Text, [], ◌∷◌, ◌++◌, Result, ok, err}
use rivet_durable_streams.Store.Tables.{Db}
use rivet_durable_streams.Actor.Types.{Alarm, World}

abbrev pub Exec : Type 0 → Type 0 → Type 0
Exec R A = World R → Result A × World R

abbrev pub pure : {R A : Type 0} → A → Exec R A
pure a w = (ok a, w)

abbrev pub raise : {R A : Type 0} → String → Exec R A
raise e w = (err e, w)

abbrev pub lift : {R A : Type 0} → Result A → Exec R A
lift r w = (r, w)

abbrev pub bind_result : {R A B : Type 0} → Result A → World R → (A → Exec R B) → Result B × World R
bind_result (ok a) w f = f a w
bind_result (err e) w f = (err e, w)

infixl 5 ◌>>=◌ ◌>>◌
abbrev pub ◌>>=◌ : {R A B : Type 0} → Exec R A → (A → Exec R B) → Exec R B
◌>>=◌ m f w = bind_result (m w).0 (m w).1 f

abbrev pub ◌>>◌ : {R B : Type 0} → Exec R (Unit {0}) → Exec R B → Exec R B
m >> k = m >>= λ _. k

module _ {R : Type 0} where
  abbrev pub get_db : Exec R Db
  get_db w = (ok w.db, w)

  -- A transaction: an error drops it. A body that rolls back returns the tables it was given.
  unfoldable pub transact : {A : Type 0} → (Db → Result (A × Db)) → Exec R A
  transact body w = elim (body w.db) [
    | ok (a, db) ↦ (ok a, record w { db = db })
    | err e ↦ (err e, w)
  ]

  -- A transaction that cannot fail.
  unfoldable pub commit : (Db → Db) → Exec R (Unit {0})
  commit f w = (ok tt, record w { db = f w.db })

  unfoldable pub notify_change : Exec R (Unit {0})
  notify_change w = (ok tt, record w { changes = (w.changes + 1) % 2 ^ 64 })

  unfoldable pub schedule : Alarm → Exec R (Unit {0})
  schedule alarm w = (ok tt, record w { alarms = w.alarms ++ alarm ∷ [] })

  -- An action on another actor, whose error is a value here.
  unfoldable pub call : {A : Type 0} → (R → Result A × R) → Exec R (Result A)
  call action w = (ok (action w.rest).0, record w { rest = (action w.rest).1 })

  unfoldable pub draw : (ℕ → Text) → Exec R Text
  draw uuid w = (ok (uuid w.drawn), record w { drawn = w.drawn + 1 })

  -- A read waits without the lock: other callbacks may run.
  unfoldable pub pause : (ℕ → Db → Db) → Exec R (Unit {0})
  pause during w = (ok tt, record w { db = during w.waits w.db; waits = w.waits + 1 })
