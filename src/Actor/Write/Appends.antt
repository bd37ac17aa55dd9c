-- ===== src/Actor/Write/Appends.antt =====
-- The transaction of an append in src/actor/write.rs: how it ends.
use rivet_durable_streams.Prelude.{
  ◌≡◌, refl, Bool, true, false, ℤ, Text, Bytes, Option, some, Result, ok, err, ◌>>=◌, arith,
}
use rivet_durable_streams.Protocol.Http.{Response}
use rivet_durable_streams.Store.Tables.{Meta, ProducerState, Db}
use rivet_durable_streams.Store.Meta.{touch}
use rivet_durable_streams.Store.Append.{append_message}
use rivet_durable_streams.Actor.Types.{Env, ProducerHeaders, ProducerValidation}
use rivet_durable_streams.Actor.Producer.{producer_success}
use rivet_durable_streams.Actor.Write.{
  committed, rolled_back, Admission, admitted, refused, admit, commit_state, commit_seq,
  commit_close, append_all, append_unless, refuse, seq_conflict, append_admitted, append_fresh,
  append_tx,
}

module _ (env : Env) where
  -- The tables after an append that was stored at `offset`.
  abbrev pub written :
      Option ProducerHeaders → Option ProducerState → Option Text → Bool → ℤ → Db → Db
  written producer state seq close_stream now appended = touch now (
      commit_close env close_stream producer
        (commit_seq seq (commit_state producer state appended)))

  -- How an append came to be committed.
  pub record Committed (payload : Bytes) (producer : Option ProducerHeaders) (seq : Option Text)
      (close_stream : Bool) (now : ℤ) (fresh : Meta) (admission : Admission) (answer : Response)
      (after : Db) : Type 0 where
    pub state : Option ProducerState
    pub before : Db
    pub offset : Text
    pub appended : Db
    pub is_admitted : admission ≡ admitted state before
    pub no_conflict : seq_conflict env fresh.last_seq seq ≡ ok false
    pub stored : append_message fresh.current_offset payload now before ≡ ok (offset, appended)
    pub answered : answer ≡ producer_success offset producer close_stream
    pub ends : after ≡ written producer state seq close_stream now appended

  module _ (payload : Bytes) (producer : Option ProducerHeaders) (seq : Option Text)
      (close_stream : Bool) (now : ℤ) (fresh : Meta) where
    stored_committed :
        (state : Option ProducerState) (db : Db) (answer : Response) (after : Db)
        (stored : Result (Text × Db))
        → append_message fresh.current_offset payload now db ≡ stored
        → seq_conflict env fresh.last_seq seq ≡ ok false
        → append_all env payload producer state seq close_stream now fresh.current_offset db
          ≡ ok (committed answer, after)
        → Committed payload producer seq close_stream now fresh (admitted state db) answer after
    unfolding append_all
    stored_committed state db answer after (err m) s e h = absurd (ground arith)
    stored_committed state db answer after (ok (offset, appended)) s e h = record {
      state = state;
      before = db;
      offset = offset;
      appended = appended;
      is_admitted = refl;
      no_conflict = e;
      stored = s;
      answered = ground arith;
      ends = ground arith;
    }

    unless_committed :
        (state : Option ProducerState) (before db : Db) (answer : Response) (after : Db)
        (conflict : Result Bool)
        → seq_conflict env fresh.last_seq seq ≡ conflict
        → (conflict >>= λ c.
            append_unless env c payload producer state seq close_stream now fresh before db)
          ≡ ok (committed answer, after)
        → Committed payload producer seq close_stream now fresh (admitted state db) answer after
    unfolding append_unless
    unless_committed state before db answer after (err m) e h = cc
    unless_committed state before db answer after (ok true) e h = cc
    unless_committed state before db answer after (ok false) e h =
        stored_committed state db answer after (append_message fresh.current_offset payload now db)
          refl e h

    refuse_rolls_back :
        (failure : ProducerValidation) (before : Db) (answer : Response) (after : Db)
        → refuse env producer failure fresh before ≡ ok (committed answer, after)
        → ⊥
    unfolding refuse
    refuse_rolls_back failure before answer after h = ground arith

    admitted_committed :
        (before : Db) (admission : Admission) (answer : Response) (after : Db)
        → append_admitted env payload producer seq close_stream now fresh before admission
          ≡ ok (committed answer, after)
        → Committed payload producer seq close_stream now fresh admission answer after
    unfolding append_admitted
    admitted_committed before (refused failure) answer after h =
        absurd (refuse_rolls_back failure before answer after h)
    admitted_committed before (admitted state db) answer after h =
        unless_committed state before db answer after (seq_conflict env fresh.last_seq seq) refl h

    pub append_tx-committed :
        (db : Db) (answer : Response) (after : Db)
        → db.meta ≡ some fresh
        → append_tx env payload producer seq close_stream now db ≡ ok (committed answer, after)
        → Committed payload producer seq close_stream now fresh (admit producer now db) answer after
    unfolding append_tx append_fresh
    append_tx-committed db answer after m h =
        admitted_committed db (admit producer now db) answer after (rw (m, append_fresh) at h)

  -- The transaction of an append that rolls back leaves every table as it was.
  pub append_tx_rolls_back :
      (payload : Bytes) (producer : Option ProducerHeaders) (seq : Option Text)
      (close_stream : Bool) (now : ℤ) (db : Db) (answer : Response) (after : Db)
      → append_tx env payload producer seq close_stream now db ≡ ok (rolled_back answer, after)
      → after ≡ db
  unfolding append_tx append_fresh append_admitted append_unless append_all refuse
  append_tx_rolls_back payload producer seq close_stream now db answer after h = ground arith
