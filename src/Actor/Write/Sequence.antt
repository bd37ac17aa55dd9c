-- ===== src/Actor/Write/Sequence.antt =====
-- `Stream-Seq` in the transaction of an append (src/actor/write.rs).
use Prim.Native.Nat.Ordering.{lt}
use rivet_durable_streams.Prelude.{
  ◌≡◌, refl, sym, ap, ◌∙◌, Bool, false, ℤ, Text, Bytes, Option, some, cmp_text, lt_of_gt_text, ok,
  arith,
}
use rivet_durable_streams.Protocol.Http.{Response}
use rivet_durable_streams.Store.Tables.{Meta, Db}
use rivet_durable_streams.Store.Append.Order.{meta-append_message}
use rivet_durable_streams.Actor.Types.{Env, ProducerHeaders}
use rivet_durable_streams.Actor.Write.{committed, seq_conflict, append_tx}
use rivet_durable_streams.Actor.Write.Effect.{admit_frame, meta-written}
use rivet_durable_streams.Actor.Write.Appends.{append_tx-committed}

no_conflict-lt :
    (env : Env) (last next : Text) (old new : Bytes)
    → env.platform.url_decode last ≡ some old
    → env.platform.url_decode next ≡ some new
    → seq_conflict env (some last) (some next) ≡ ok false
    → cmp_text old new ≡ lt
unfolding seq_conflict
no_conflict-lt env last next old new d e h = ground (arith, lt_of_gt_text new old)

-- Where an append with a `Stream-Seq` commits on a stream that has one, the new one is greater as
-- bytes, and it is the one that is stored.
pub append_tx_seq_grows :
    (env : Env) (payload : Bytes) (producer : Option ProducerHeaders) (last next : Text)
    (old new : Bytes) (close_stream : Bool) (now : ℤ) (fresh : Meta) (db : Db) (answer : Response)
    (after : Db)
    → db.meta ≡ some fresh
    → fresh.last_seq ≡ some last
    → env.platform.url_decode last ≡ some old
    → env.platform.url_decode next ≡ some new
    → append_tx env payload producer (some next) close_stream now db ≡ ok (committed answer, after)
    → (cmp_text old new ≡ lt) × (m : Meta) × (after.meta ≡ some m) × (m.last_seq ≡ some next)
append_tx_seq_grows env payload producer last next old new close_stream now fresh db answer after m
      l d e h =
    let c =
      append_tx-committed env payload producer (some next) close_stream now fresh db answer after m
        h in
    let before_meta : c.before.meta ≡ some fresh =
      ap (λ (d : Db). d.meta) (admit_frame producer now db c.before c.state c.is_admitted) ∙ m in
    let stored_meta =
      meta-append_message fresh.current_offset payload now c.before c.appended c.offset fresh
        c.stored before_meta in
    (
      no_conflict-lt env last next old new d e
          (ap (λ s. seq_conflict env s (some next)) (sym l) ∙ c.no_conflict),
      _,
      ap (λ (d : Db). d.meta) c.ends
          ∙ meta-written env producer c.state (some next) close_stream now c.appended _ stored_meta,
      refl,
    )
