-- ===== src/Actor/Write/Retry.antt =====
-- A producer's retry of an append, in src/actor/write.rs.
use rivet_durable_streams.Prelude.{
  ◌≡◌, refl, ap, ◌∙◌, Bool, false, ℤ, pos, ltb_ℤ, Text, Bytes, [], ◌∷◌, Option, some,
  saturating_sub, ok, arith,
}
use rivet_durable_streams.Protocol.Decimal.{to_text}
use rivet_durable_streams.Protocol.Http.{Response, response}
use rivet_durable_streams.Store.Tables.{Meta, ProducerState, Db}
use rivet_durable_streams.Store.Meta.{touch}
use rivet_durable_streams.Store.Producers.{get_producer_state, commit_producer_state}
use rivet_durable_streams.Store.Producers.Expiry.{get_producer_state-commit_producer_state}
use rivet_durable_streams.Actor.Types.{
  Env, ProducerHeaders, ProducerValidation, accepted, duplicate, stale_epoch, invalid_epoch_seq,
  sequence_gap, producer_state_ttl_ms,
}
use rivet_durable_streams.Actor.Producer.{validate_producer, producer_failure}
use rivet_durable_streams.Actor.Producer.Fencing.{
  validate_producer_accepts, validate_producer_retry, accepted_state,
}
use rivet_durable_streams.Actor.Write.{
  committed, rolled_back, admitted, refused, admit, admit_state, commit_state, commit_seq,
  commit_close, append_admitted, append_fresh, append_tx, refuse,
}
use rivet_durable_streams.Store.Append.Order.{meta-append_message}
use rivet_durable_streams.Actor.Write.Effect.{admit_frame, meta-written}
use rivet_durable_streams.Actor.Write.Appends.{written, append_tx-committed}

-- What a retry is told: 204, with the epoch and the last sequence number.
abbrev pub duplicate_answer : ProducerHeaders → Response
duplicate_answer producer =
    response 204
      (("producer-epoch", to_text producer.epoch) ∷ ("producer-seq", to_text producer.seq) ∷ []) []

get_producer_state_cong :
    (k : Text) (t : ℤ) (a b : Db)
    → a.producers ≡ b.producers
    → (get_producer_state k t a).0 ≡ (get_producer_state k t b).0
unfolding get_producer_state
get_producer_state_cong k t a b e = ground arith

producers-written :
    (env : Env) (producer : ProducerHeaders) (state : ProducerState) (seq : Option Text)
    (close_stream : Bool) (now : ℤ) (db : Db)
    → (written env (some producer) (some state) seq close_stream now db).producers
      ≡ (commit_producer_state producer.id state db).producers
unfolding touch commit_close commit_seq commit_state
producers-written env producer state seq close_stream now db = ground arith

admit_accepts :
    (v : ProducerValidation) (db before : Db) (state : Option ProducerState)
    → admit_state v db ≡ admitted state before
    → (s : ProducerState) × (state ≡ some s) × (v ≡ accepted s)
unfolding admit_state
admit_accepts (accepted s) db before state h = (s, ground arith, refl)
admit_accepts (duplicate n) db before state h = absurd (ground arith)
admit_accepts (stale_epoch n) db before state h = absurd (ground arith)
admit_accepts invalid_epoch_seq db before state h = absurd (ground arith)
admit_accepts (sequence_gap a b) db before state h = absurd (ground arith)

-- An admitted producer's request was accepted from some state, and its state is the one to store.
admitted_state :
    (producer : ProducerHeaders) (now : ℤ) (db before : Db) (state : Option ProducerState)
    → admit (some producer) now db ≡ admitted state before
    → (prior : Option ProducerState) × (state ≡ some (accepted_state producer now))
      × (validate_producer prior producer now ≡ accepted (accepted_state producer now))
unfolding admit
admitted_state producer now db before state h =
    let found =
      get_producer_state producer.id (saturating_sub now (pos producer_state_ttl_ms)) db in
    let (s, e, q) = admit_accepts (validate_producer found.0 producer now) found.1 before state h in
    let k : s ≡ accepted_state producer now =
      ((validate_producer_accepts found.0 producer now s).0 q).1 in
    (found.0, e ∙ ap some k, q ∙ ap accepted k)

-- A request that finds its own state is refused as a duplicate.
admit_duplicate :
    (producer : ProducerHeaders) (later : ℤ) (db : Db)
    → (found : Option ProducerState)
    → (get_producer_state producer.id (saturating_sub later (pos producer_state_ttl_ms)) db).0
      ≡ found
    → validate_producer found producer later ≡ duplicate producer.seq
    → admit (some producer) later db ≡ refused (duplicate producer.seq)
unfolding admit
admit_duplicate producer later db found e d = rw (e, d) (unfold admit_state in refl)

refused_answer :
    (env : Env) (again : Bytes) (producer : ProducerHeaders) (other : Option Text) (closes : Bool)
    (later : ℤ) (m : Meta) (db : Db)
    → db.meta ≡ some m
    → admit (some producer) later db ≡ refused (duplicate producer.seq)
    → append_tx env again (some producer) other closes later db
      ≡ ok (rolled_back (duplicate_answer producer), db)
unfolding append_tx append_fresh
refused_answer env again producer other closes later m db e d =
    ap (append_fresh env again (some producer) other closes later db) e
    ∙ ap (append_admitted env again (some producer) other closes later m db) d
    ∙ (unfold append_admitted refuse producer_failure in refl)

-- The transaction of an append that repeats the request that the producer committed last, while its
-- state lasts and the stream is as that append left it, is refused with 204 and that request's
-- numbers, and changes nothing, whatever payload, Stream-Seq and closure it comes with. (The checks
-- that handle_post makes before the transaction, of content type, body and a closed stream, are not
-- part of it.)
pub retry_is_duplicate :
    (env : Env) (payload again : Bytes) (producer : ProducerHeaders) (seq other : Option Text)
    (close_stream closes : Bool) (now later : ℤ) (fresh : Meta) (db : Db) (answer : Response)
    (after : Db)
    → db.meta ≡ some fresh
    → append_tx env payload (some producer) seq close_stream now db ≡ ok (committed answer, after)
    → ltb_ℤ now (saturating_sub later (pos producer_state_ttl_ms)) ≡ false
    → append_tx env again (some producer) other closes later after
      ≡ ok (rolled_back (duplicate_answer producer), after)
retry_is_duplicate env payload again producer seq other close_stream closes now later fresh db
      answer after m h t =
    let c =
      append_tx-committed env payload (some producer) seq close_stream now fresh db answer after m
        h in
    let (prior, e, v) = admitted_state producer now db c.before c.state c.is_admitted in
    let own = accepted_state producer now in
    let ends : after ≡ written env (some producer) (some own) seq close_stream now c.appended =
      c.ends ∙ ap (λ s. written env (some producer) s seq close_stream now c.appended) e in
    let same : after.producers ≡ (commit_producer_state producer.id own c.appended).producers =
      ap (λ (d : Db). d.producers) ends
      ∙ producers-written env producer own seq close_stream now c.appended in
    let cutoff = saturating_sub later (pos producer_state_ttl_ms) in
    let found : (get_producer_state producer.id cutoff after).0 ≡ some own =
      get_producer_state_cong producer.id cutoff after
        (commit_producer_state producer.id own c.appended) same
      ∙ get_producer_state-commit_producer_state producer.id cutoff c.appended own t in
    let d : validate_producer (some own) producer later ≡ duplicate producer.seq =
      (validate_producer_retry prior producer producer now later own v).1 refl (omega arith) in
    let before_meta : c.before.meta ≡ some fresh =
      ap (λ (d : Db). d.meta) (admit_frame (some producer) now db c.before c.state c.is_admitted)
      ∙ m in
    let stored_meta =
      meta-append_message fresh.current_offset payload now c.before c.appended c.offset fresh
        c.stored before_meta in
    let after_meta =
      ap (λ (d : Db). d.meta) c.ends
      ∙ meta-written env (some producer) c.state seq close_stream now c.appended _ stored_meta in
    refused_answer env again producer other closes later _ after after_meta
      (admit_duplicate producer later after (some own) found d)
