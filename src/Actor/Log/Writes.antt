-- ===== src/Actor/Log/Writes.antt =====
-- The transactions and handlers of POST in src/actor/write.rs as runs of the abstract log.
use rivet_durable_streams.Prelude.{
  ◌≡◌, refl, sym, ap, ◌∙◌, Bool, true, false, ℤ, Text, Bytes, Option, none, some, Result, ok, err,
  ◌>>=◌ as bind,
}
use rivet_durable_streams.Protocol.Http.{Response}
use rivet_durable_streams.Store.Tables.{Meta, ProducerState, Db}
use rivet_durable_streams.Store.Meta.{touch}
use rivet_durable_streams.Store.Append.{append_message}
use rivet_durable_streams.Store.Producers.{get_producer_state, commit_producer_state}
use rivet_durable_streams.Actor.Types.{
  Env, ProducerHeaders, ProducerValidation, accepted, duplicate, stale_epoch, invalid_epoch_seq,
  sequence_gap,
}
use rivet_durable_streams.Actor.Producer.{producer_success, producer_failure}
use rivet_durable_streams.Actor.Write.{
  Settled, committed, rolled_back, Admission, admitted, refused, admit, admit_state, commit_state,
  commit_seq, commit_close, append_all, seq_conflict, refuse, append_unless, append_admitted,
  append_fresh, append_tx,
}
use rivet_durable_streams.Actor.Log.{stream, here}
use rivet_durable_streams.Actor.Log.Tables.{
  Evolves, join, ended_with, touch-Evolves, set_last_seq-Evolves, set_closed-Evolves,
}
use rivet_durable_streams.Actor.Log.Appends.{append_message-Evolves}

pub commit_state-Evolves :
    {watched : Text} (producer : Option ProducerHeaders) (state : Option ProducerState) (db : Db)
    → Evolves watched db (commit_state producer state db)
unfolding commit_state commit_producer_state stream
commit_state-Evolves none state db = here
commit_state-Evolves (some producer) none db = here
commit_state-Evolves (some producer) (some state) db = here

commit_seq-Evolves :
    {watched : Text} (seq : Option Text) (db : Db) → Evolves watched db (commit_seq seq db)
unfolding commit_seq
commit_seq-Evolves none db = here
commit_seq-Evolves (some seq) db = set_last_seq-Evolves seq db

-- What admits a producer changes no more than the producers.
admit_state-admitted :
    (v : ProducerValidation) (db after : Db) (state : Option ProducerState)
    → admit_state v db ≡ admitted state after
    → after ≡ db
unfolding admit_state
admit_state-admitted (accepted s) db after state h = cc
admit_state-admitted (duplicate n) db after state h = cc
admit_state-admitted (stale_epoch n) db after state h = cc
admit_state-admitted invalid_epoch_seq db after state h = cc
admit_state-admitted (sequence_gap n k) db after state h = cc

pub admit-admitted :
    (producer : Option ProducerHeaders) (now : ℤ) (db after : Db) (state : Option ProducerState)
    → admit producer now db ≡ admitted state after
    → (after.meta ≡ db.meta) × (stream after ≡ stream db)
unfolding admit get_producer_state stream
admit-admitted none now db after state h =
    let e : after ≡ db = cc in (ap (λ d. d.meta) e, ap stream e)
admit-admitted (some producer) now db after state h =
    let e = admit_state-admitted _ _ after state h in (ap (λ d. d.meta) e, ap stream e)

module _ {watched : Text} (env : Env) where
  commit_close-Evolves :
      (close_stream : Bool) (producer : Option ProducerHeaders) (db : Db)
      → Evolves watched db (commit_close env close_stream producer db)
  unfolding commit_close
  commit_close-Evolves true producer db = set_closed-Evolves _ db
  commit_close-Evolves false producer db = here

  refuse-Evolves :
      (producer : Option ProducerHeaders) (failure : ProducerValidation) (m : Meta)
      (before end : Db) (settled : Settled)
      → refuse env producer failure m before ≡ ok (settled, end)
      → Evolves watched before end
  unfolding refuse
  refuse-Evolves none failure m before end settled h = cc
  refuse-Evolves (some producer) failure m before end settled h =
      go (producer_failure failure producer m false) h
    where
      go :
          (r : Result Response)
          → bind {B = Settled × Db} r (λ a. ok (rolled_back a, before)) ≡ ok (settled, end)
          → Evolves watched before end
      go (ok a) k = ended_with (rolled_back a) settled before before end k here
      go (err x) k = cc

  module _ (m : Meta) (opened : m.closed ≡ false) where
    append_all-Evolves :
        (payload : Bytes) (producer : Option ProducerHeaders) (state : Option ProducerState)
        (seq : Option Text) (close_stream : Bool) (now : ℤ) (tail : Text) (db end : Db)
        (settled : Settled)
        → db.meta ≡ some m
        → append_all env payload producer state seq close_stream now tail db ≡ ok (settled, end)
        → Evolves watched db end
    unfolding append_all
    append_all-Evolves payload producer state seq close_stream now tail db end settled e h =
        go (append_message tail payload now db) refl h
      where
        go :
            (r : Result (Text × Db))
            → append_message tail payload now db ≡ r
            → bind {B = Settled × Db} r (λ p. ok (
              committed (producer_success p.0 producer close_stream),
              touch now (
                  commit_close env close_stream producer
                    (commit_seq seq (commit_state producer state p.1))),
            ))
              ≡ ok (settled, end)
            → Evolves watched db end
        go (err x) k h = cc
        go (ok (offset, appended)) k h = ended_with _ settled db _ end h (
            join (append_message-Evolves tail offset payload now db appended m e opened k) (
              join (commit_state-Evolves producer state appended) (
                join (commit_seq-Evolves seq _)
                  (join (commit_close-Evolves close_stream producer _) (touch-Evolves now _)))))

    append_unless-Evolves :
        (conflict : Bool) (payload : Bytes) (producer : Option ProducerHeaders)
        (state : Option ProducerState) (seq : Option Text) (close_stream : Bool) (now : ℤ)
        (before db end : Db) (settled : Settled)
        → db.meta ≡ some m
        → stream db ≡ stream before
        → append_unless env conflict payload producer state seq close_stream now m before db
          ≡ ok (settled, end)
        → Evolves watched before end
    unfolding append_unless
    append_unless-Evolves true payload producer state seq close_stream now before db end settled e s
          h =
        ended_with _ settled before before end h here
    append_unless-Evolves false payload producer state seq close_stream now before db end settled e
          s h =
        rw (← s) (
          append_all-Evolves payload producer state seq close_stream now m.current_offset db end
            settled e h)

    append_admitted-Evolves :
        (payload : Bytes) (producer : Option ProducerHeaders) (seq : Option Text)
        (close_stream : Bool) (now : ℤ) (before end : Db) (settled : Settled)
        (admission : Admission)
        → before.meta ≡ some m
        → admit producer now before ≡ admission
        → append_admitted env payload producer seq close_stream now m before admission
          ≡ ok (settled, end)
        → Evolves watched before end
    unfolding append_admitted
    append_admitted-Evolves payload producer seq close_stream now before end settled
          (refused failure) e a h =
        refuse-Evolves producer failure m before end settled h
    append_admitted-Evolves payload producer seq close_stream now before end settled
          (admitted state db) e a h =
        let (same, s) = admit-admitted producer now before db state a in
        go (seq_conflict env m.last_seq seq) h (same ∙ e) s
      where
        go :
            (r : Result Bool)
            → bind {B = Settled × Db} r
                (λ c. append_unless env c payload producer state seq close_stream now m before db)
              ≡ ok (settled, end)
            → db.meta ≡ some m
            → stream db ≡ stream before
            → Evolves watched before end
        go (err x) h e s = cc
        go (ok c) h e s =
            append_unless-Evolves c payload producer state seq close_stream now before db end
              settled e s h

    -- The transaction of an append to a stream that is not closed.
    pub append_tx-Evolves :
        (payload : Bytes) (producer : Option ProducerHeaders) (seq : Option Text)
        (close_stream : Bool) (now : ℤ) (db : Db) (settled : Settled) (end : Db)
        → db.meta ≡ some m
        → append_tx env payload producer seq close_stream now db ≡ ok (settled, end)
        → Evolves watched db end
    unfolding append_tx append_fresh
    append_tx-Evolves payload producer seq close_stream now db settled end e h =
        append_admitted-Evolves payload producer seq close_stream now db end settled
          (admit producer now db) e refl
          (sym (ap (append_fresh env payload producer seq close_stream now db) e) ∙ h)
