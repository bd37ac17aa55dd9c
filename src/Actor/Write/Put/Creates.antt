-- ===== src/Actor/Write/Put/Creates.antt =====
-- A PUT of src/actor/write.rs where there is no stream, and the same PUT again.
use rivet_durable_streams.Prelude.{
  ◌+◌, ◌<◌, ◌≡◌, refl, ap, ◌∙◌, Bool, true, false, ℤ, Text, Bytes, List, [], ◌∷◌, ◌++◌, Option,
  none, some, length, is_empty, opt_eq, text_eq_refl, unwrap_or, inr, sym, ok_injective,
  if◌then◌else◌, codes, Result, ok, err, arith,
}
use rivet_durable_streams.Protocol.Offset.{zero_offset}
use rivet_durable_streams.Protocol.Offset.Order.{offset_text, limit, zero_offset-eq-offset_text}
use rivet_durable_streams.Protocol.Http.{response}
use rivet_durable_streams.Store.Tables.{Meta, Message, Db}
use rivet_durable_streams.Store.Meta.{create_meta, new_meta, is_expired}
use rivet_durable_streams.Actor.Types.{Env, World}
use rivet_durable_streams.Actor.Exec.{bind_result}
use rivet_durable_streams.Actor.Lifecycle.{check_visible, visible_meta}
use rivet_durable_streams.Store.Append.{append_message}
use rivet_durable_streams.Store.Append.Order.{
  IsLog, appended, append_message-IsLog, meta-append_message,
}
use rivet_durable_streams.Actor.Fork.Create.{append_nonempty}
use rivet_durable_streams.Actor.Fork.Duty.{meta-append_nonempty}
use rivet_durable_streams.Actor.Write.Put.{
  PutOptions, opt_int_eq, bool_eq, content_type_matches, config_matches, existing_answer,
  resolved_content_type, put_meta, put_tx, put_visible, put_parsed,
}

opt_int_eq_refl : (a : Option ℤ) → opt_int_eq a a ≡ true
opt_int_eq_refl none = refl
opt_int_eq_refl (some a) = ground arith

opt_eq_refl : (a : Option Text) → opt_eq a a ≡ true
opt_eq_refl none = refl
opt_eq_refl (some t) = text_eq_refl t

bool_eq_refl : (a : Bool) → bool_eq a a ≡ true
bool_eq_refl true = refl
bool_eq_refl false = refl

-- The tail of a new stream with a first message.
abbrev pub first_tail : Bytes → Text
first_tail payload = if is_empty payload then zero_offset else offset_text 0 (5 + length payload)

abbrev pub first_messages : Bytes → ℤ → List Message
first_messages [] now = []
first_messages (x ∷ xs) now =
    record { offset = first_tail (x ∷ xs); content = x ∷ xs; ts = now } ∷ []

abbrev settled : Result (Text × Db) → Result (Option Text × Db)
settled r = elim r [ err e ↦ err e | ok (current_offset, after) ↦ ok (some current_offset, after) ]

put_tx-settled :
    (meta : Meta) (payload : Bytes) (now : ℤ) (db : Db)
    → db.meta ≡ none
    → put_tx meta payload now db
      ≡ settled (append_nonempty zero_offset payload now (record db { meta = some meta }))
unfolding put_tx create_meta
put_tx-settled meta payload now db e = ground arith

-- The transaction of a PUT that commits where there is no stream has made the row that it was given.
pub meta-put_tx :
    (meta : Meta) (payload : Bytes) (now : ℤ) (db after : Db) (offset : Option Text)
    → db.meta ≡ none
    → put_tx meta payload now db ≡ ok (offset, after)
    → (next : Text) × (after.meta ≡ some (record meta { current_offset = next }))
meta-put_tx meta payload now db after offset e h =
    made (append_nonempty zero_offset payload now (record db { meta = some meta })) refl
      (sym (put_tx-settled meta payload now db e) ∙ h)
  where
    made :
        (r : Result (Text × Db))
        → append_nonempty zero_offset payload now (record db { meta = some meta }) ≡ r
        → settled r ≡ ok (offset, after)
        → (next : Text) × (after.meta ≡ some (record meta { current_offset = next }))
    made (err x) q k = cc
    made (ok (current, end)) q k =
        let (next, m) =
          meta-append_nonempty zero_offset payload now (record db { meta = some meta }) end current
            meta q refl in
        (next, ap (λ (p : Option Text × Db). p.1.meta) (sym (ok_injective _ _ k)) ∙ m)

-- The new stream, as the PUT asks for it.
abbrev pub asked_for : Text → PutOptions → Text → ℤ → Meta
asked_for generation options tail now = record {
  generation = generation;
  content_type = some (unwrap_or options.content_type (codes "application/octet-stream"));
  ttl_seconds = options.ttl_seconds;
  expires_at = options.expires_at;
  closed = options.create_closed;
  closed_by = none;
  current_offset = tail;
  last_seq = none;
  created_at = now;
  last_accessed_at = now;
  forked_from = none;
  fork_offset = none;
  fork_sub_offset = none;
  fork_edge_id = none;
  fork_source_gen = none;
  soft_deleted = false;
}

asked_for-put_meta :
    (generation : Text) (options : PutOptions) (tail : Text) (now : ℤ)
    → record (put_meta generation options now) { current_offset = tail }
      ≡ asked_for generation options tail now
unfolding put_meta new_meta resolved_content_type
asked_for-put_meta generation options tail now = refl

zero_tail :
    (generation : Text) (options : PutOptions) (now : ℤ)
    → put_meta generation options now ≡ asked_for generation options zero_offset now
unfolding put_meta new_meta resolved_content_type
zero_tail generation options now = refl

-- Where there is no stream and no message, the transaction of a PUT of a body below the offset
-- limit makes a stream whose log is the payload, if there is any. It has the content type, the
-- lifetime, the expiry and the closure of the PUT (and without a content type the one of bytes), is
-- no fork, and was made and last used at the time of the PUT.
pub put_tx_creates :
    (options : PutOptions) (generation : Text) (payload : Bytes) (now : ℤ) (db : Db)
    → db.meta ≡ none
    → db.messages ≡ []
    → 5 + length payload < limit
    → (after : Db) × (put_tx (put_meta generation options now) payload now db
        ≡ ok (some (first_tail payload), after))
      × (after.messages ≡ first_messages payload now)
      × (after.meta ≡ some (asked_for generation options (first_tail payload) now))
      × IsLog (first_tail payload) after.messages
put_tx_creates options generation [] now db none_yet empty b =
    let meta = put_meta generation options now in
    (
      record db { meta = some meta },
      put_tx-settled meta [] now db none_yet ∙ (unfold append_nonempty in refl),
      empty,
      ap some (zero_tail generation options now),
      rw empty (record { ascending = tt; at_most = tt }),
    )
put_tx_creates options generation (x ∷ xs) now db none_yet empty b =
    let meta = put_meta generation options now in
    let fresh : Db = record db { meta = some meta } in
    let next = offset_text 0 (5 + length (x ∷ xs)) in
    let (stored, rows, log) =
      append_message-IsLog 0 0 (x ∷ xs) now fresh (omega arith) b
        (rw empty (record { ascending = tt; at_most = tt })) in
    let appends : append_message zero_offset (x ∷ xs) now fresh
        ≡ ok (next, appended next (x ∷ xs) now fresh) =
      ap (λ o. append_message o (x ∷ xs) now fresh) zero_offset-eq-offset_text ∙ stored in
    (
      appended next (x ∷ xs) now fresh,
      put_tx-settled meta (x ∷ xs) now db none_yet ∙ (unfold append_nonempty in ap settled appends),
      rows ∙ ap (λ ms. ms ++ record { offset = next; content = x ∷ xs; ts = now } ∷ []) empty,
      meta-append_message zero_offset (x ∷ xs) now fresh (appended next (x ∷ xs) now fresh) next
            meta appends refl
          ∙ ap some (asked_for-put_meta generation options next now),
      log,
    )

config_matches-asked_for :
    (options : PutOptions) (generation tail t : Text) (now : ℤ)
    → options.content_type ≡ some t
    → options.forked_from ≡ none
    → options.fork_offset ≡ none
    → options.fork_sub_offset ≡ none
    → config_matches options (asked_for generation options tail now) ≡ true
unfolding config_matches content_type_matches
config_matches-asked_for options generation tail t now c f o s =
    rw (c, f, o, s, text_eq_refl, opt_int_eq_refl, opt_eq_refl, bool_eq_refl) refl

-- A stream that has not expired is the visible one.
visible_live :
    (env : Env) (later : ℤ) (m : Meta) (found : Option Meta) (w : World env.Rest)
    → found ≡ some m
    → is_expired env.platform m later ≡ false
    → check_visible env later found w ≡ (ok (some m), w)
unfolding check_visible
visible_live env later m found w e live = rw (e, check_visible, live) refl

-- After the transaction of a PUT with a content type that is no fork has created its stream, a PUT
-- whose headers were read as the same options, with any body and at a time when the stream has not
-- expired (as one with a lifetime of 0 or a past expiry has at once), is answered 200 with the
-- stream's content type, tail and closure, and changes nothing, if nothing else has happened to the
-- stream.
pub put_parsed_repeats :
    (env : Env) (options : PutOptions) (generation t : Text) (payload again : Bytes) (now later : ℤ)
    (db : Db) (tail : Option Text) (w : World env.Rest)
    → options.content_type ≡ some t
    → options.forked_from ≡ none
    → options.fork_offset ≡ none
    → options.fork_sub_offset ≡ none
    → db.meta ≡ none
    → db.messages ≡ []
    → 5 + length payload < limit
    → put_tx (put_meta generation options now) payload now db ≡ ok (tail, w.db)
    → is_expired env.platform (asked_for generation options (first_tail payload) now) later ≡ false
    → put_parsed env again later (inr options) w ≡ (
      ok (
          response 200
            (("content-type", t)
              ∷ ("stream-next-offset", first_tail payload)
              ∷ (if options.create_closed then ("stream-closed", codes "true") ∷ [] else []))
            []),
      w,
    )
unfolding put_parsed put_visible visible_meta
put_parsed_repeats env options generation t payload again now later db tail w c f o s none_yet empty
      b put live =
    let (after, created, _, found, _) =
      put_tx_creates options generation payload now db none_yet empty b in
    let m = asked_for generation options (first_tail payload) now in
    let same : after ≡ w.db = ap (λ p. p.1) (ok_injective _ _ (sym created ∙ put)) in
    let here : w.db.meta ≡ some m = ap (λ (d : Db). d.meta) (sym same) ∙ found in
    let matches = config_matches-asked_for options generation (first_tail payload) t now c f o s in
    ap
      (λ (r : Result (Option Meta) × World env.Rest).
        bind_result r.0 r.1 (put_visible env options again later))
      (visible_live env later m w.db.meta w here live)
    ∙ (unfold existing_answer in rw (matches, c) refl)
