-- ===== src/Actor/Log/Tables.antt =====
-- The statements of src/store.rs as steps of the abstract log.
use rivet_durable_streams.Prelude.{
  ◌≡◌, ◌≢◌, refl, ap, inl, inr, true, ℤ, Text, Option, none, some, Option-cases, Result, ok,
  ok_injective,
}
use rivet_durable_streams.Store.Tables.{Meta, Db}
use rivet_durable_streams.Store.Meta.{
  update_meta, touch, set_last_seq, set_closed, set_soft_deleted, purge,
}
use rivet_durable_streams.Actor.Log.{Stream, stream, appear, vanish, stay, Run, here, next}

pub join :
    {watched : Text} {a b c : Option Stream} → Run watched a b → Run watched b c → Run watched a c
join r here = r
join r (next s step) = next (join r s) step

-- The tables change as the log may.
abbrev pub Evolves : Text → Db → Db → Type 0
Evolves watched before after = Run watched (stream before) (stream after)

-- The tables that a transaction ends with.
pub ended_with :
    {watched : Text} {A : Type 0} (a b : A) (start end after : Db)
    → ◌≡◌ {A = Result (A × Db)} (ok (a, end)) (ok (b, after))
    → Evolves watched start end
    → Evolves watched start after
ended_with a b start end after h r =
    let e : end ≡ after = ap (λ p. p.1) (ok_injective _ _ h) in rw (← e) r

-- A change of the row `meta` that keeps the stream's generation and never opens it.
pub update_meta-Evolves :
    {watched : Text} (f : Meta → Meta) (db : Db)
    → ((meta : Meta) → (f meta).generation ≡ meta.generation)
    → ((meta : Meta) → meta.closed ≡ true → (f meta).closed ≡ true)
    → Evolves watched db (update_meta f db)
unfolding stream update_meta
update_meta-Evolves f db generation closed = elim (Option-cases db.meta) [
  | inl e ↦ rw e here
  | inr (meta, e) ↦
      rw e (next here (stay _ _ (generation meta) ((λ offset m h. h), λ h. (closed meta h, refl))))
]

pub touch-Evolves : {watched : Text} (now : ℤ) (db : Db) → Evolves watched db (touch now db)
unfolding touch
touch-Evolves now db = update_meta-Evolves _ db (λ m. refl) (λ m h. h)

pub set_last_seq-Evolves :
    {watched : Text} (seq : Text) (db : Db) → Evolves watched db (set_last_seq seq db)
unfolding set_last_seq
set_last_seq-Evolves seq db = update_meta-Evolves _ db (λ m. refl) (λ m h. h)

pub set_closed-Evolves :
    {watched : Text} (by : Option Text) (db : Db) → Evolves watched db (set_closed by db)
unfolding set_closed
set_closed-Evolves by db = update_meta-Evolves _ db (λ m. refl) (λ m h. refl)

pub set_soft_deleted-Evolves : {watched : Text} (db : Db) → Evolves watched db (set_soft_deleted db)
unfolding set_soft_deleted
set_soft_deleted-Evolves db = update_meta-Evolves _ db (λ m. refl) (λ m h. h)

pub purge-Evolves : {watched : Text} (db : Db) → Evolves watched db (purge db)
unfolding purge stream
purge-Evolves db = next here (vanish _)

pub create-Evolves :
    {watched : Text} (before after : Db) (m : Meta)
    → before.meta ≡ none
    → after.meta ≡ some m
    → m.generation ≢ watched
    → Evolves watched before after
unfolding stream
create-Evolves before after m e k fresh = rw (e, k) (next here (appear _ fresh))
