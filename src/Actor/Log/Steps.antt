-- ===== src/Actor/Log/Steps.antt =====
-- The effects of a handler as runs of the abstract log.
use rivet_durable_streams.Prelude.{
  ℕ, ◌+◌, ◌≡◌, refl, Bool, true, false, String, Text, Result, ok, err, if◌then◌else◌,
}
use rivet_durable_streams.Store.Tables.{Db}
use rivet_durable_streams.Actor.Types.{Alarm, World}
use rivet_durable_streams.Actor.Exec.{
  Exec, pure, raise, lift, bind_result, ◌>>=◌, get_db, transact, commit, notify_change, schedule,
  call, draw, pause,
}
use rivet_durable_streams.Actor.Log.{here}
use rivet_durable_streams.Actor.Log.Tables.{Evolves, join}

module _ {R : Type 0} where
  -- From a world, an effect changes the tables as the log may.
  pub record EvolvesAt {A : Type 0} (watched : Text) (m : Exec R A) (w : World R) : Type 0 where
    pub run : Evolves watched w.db (m w).1.db

  -- From every world.
  pub record Respects {A : Type 0} (watched : Text) (m : Exec R A) : Type 0 where
    pub at : (w : World R) → EvolvesAt watched m w

  -- What follows is run only on a result.
  pub bind_at :
      {watched : Text} {A B : Type 0} (m : Exec R A) (f : A → Exec R B) (w : World R)
      → EvolvesAt watched m w
      → ((a : A) → (m w).0 ≡ ok a → EvolvesAt watched (f a) (m w).1)
      → EvolvesAt watched (m >>= f) w
  bind_at {watched} {A} {B} m f w h k = record { run = join h.run (go (m w).0 refl) }
    where
      go : (r : Result A) → (m w).0 ≡ r → Evolves watched (m w).1.db (bind_result r (m w).1 f).1.db
      go (ok a) e = (k a e).run
      go (err x) e = here

  pub bind-Respects :
      {watched : Text} {A B : Type 0} (m : Exec R A) (f : A → Exec R B)
      → Respects watched m
      → ((a : A) → Respects watched (f a))
      → Respects watched (m >>= f)
  bind-Respects m f h k = record { at = λ w. bind_at m f w (h.at w) (λ a e. (k a).at (m w).1) }

  pub pure-Respects : {watched : Text} {A : Type 0} (a : A) → Respects {A = A} watched (pure a)
  pure-Respects a = record { at = λ w. record { run = here } }

  pub raise-Respects :
      {watched : Text} {A : Type 0} (e : String) → Respects {A = A} watched (raise e)
  raise-Respects e = record { at = λ w. record { run = here } }

  pub lift-Respects : {watched : Text} {A : Type 0} (r : Result A) → Respects watched (lift r)
  lift-Respects r = record { at = λ w. record { run = here } }

  pub get_db-Respects : {watched : Text} → Respects watched get_db
  get_db-Respects = record { at = λ w. record { run = here } }

  pub notify_change-Respects : {watched : Text} → Respects watched notify_change
  unfolding notify_change
  notify_change-Respects = record { at = λ w. record { run = here } }

  pub schedule-Respects : {watched : Text} (alarm : Alarm) → Respects watched (schedule alarm)
  unfolding schedule
  schedule-Respects alarm = record { at = λ w. record { run = here } }

  pub call-Respects :
      {watched : Text} {A : Type 0} (action : R → Result A × R) → Respects watched (call action)
  unfolding call
  call-Respects action = record { at = λ w. record { run = here } }

  pub draw-Respects : {watched : Text} (uuid : ℕ → Text) → Respects watched (draw uuid)
  unfolding draw
  draw-Respects uuid = record { at = λ w. record { run = here } }

  -- What follows is run on an identifier that was drawn.
  pub bind_drawn :
      {watched : Text} {B : Type 0} (uuid : ℕ → Text) (f : Text → Exec R B)
      → ((n : ℕ) → Respects watched (f (uuid n)))
      → Respects watched (draw uuid >>= f)
  unfolding draw
  bind_drawn uuid f h = record {
    at = λ w. record { run = ((h w.drawn).at (record w { drawn = w.drawn + 1 })).run };
  }

  pub commit-Respects :
      {watched : Text} (f : Db → Db)
      → ((db : Db) → Evolves watched db (f db))
      → Respects watched (commit f)
  unfolding commit
  commit-Respects f h = record { at = λ w. record { run = h w.db } }

  pub pause-Respects :
      {watched : Text} (during : ℕ → Db → Db)
      → ((n : ℕ) (db : Db) → Evolves watched db (during n db))
      → Respects watched (pause during)
  unfolding pause
  pause-Respects during h = record { at = λ w. record { run = h w.waits w.db } }

  abbrev after_tx : {A : Type 0} → World R → Result (A × Db) → Result A × World R
  after_tx w r = elim r [ ok (a, db) ↦ (ok a, record w { db = db }) | err e ↦ (err e, w) ]

  -- A transaction from one world.
  pub transact_at :
      {watched : Text} {A : Type 0} (body : Db → Result (A × Db)) (w : World R)
      → ((a : A) (after : Db) → body w.db ≡ ok (a, after) → Evolves watched w.db after)
      → EvolvesAt watched (transact body) w
  unfolding transact
  transact_at {watched} {A} body w h = record { run = go (body w.db) refl }
    where
      go : (r : Result (A × Db)) → body w.db ≡ r → Evolves watched w.db (after_tx w r).1.db
      go (ok (a, after)) e = h a after e
      go (err x) e = here

  pub transact-Respects :
      {watched : Text} {A : Type 0} (body : Db → Result (A × Db))
      → ((db : Db) (a : A) (after : Db) → body db ≡ ok (a, after) → Evolves watched db after)
      → Respects watched (transact body)
  transact-Respects body h = record { at = λ w. transact_at body w (h w.db) }

  pub if-Respects :
      {watched : Text} {A : Type 0} (test : Bool) (m n : Exec R A)
      → Respects watched m
      → Respects watched n
      → Respects watched (if test then m else n)
  if-Respects true m n h k = h
  if-Respects false m n h k = k

pub ruleset respects = (
  bind-Respects, pure-Respects, raise-Respects, lift-Respects, get_db-Respects,
  notify_change-Respects, schedule-Respects, call-Respects, draw-Respects, if-Respects,
)
