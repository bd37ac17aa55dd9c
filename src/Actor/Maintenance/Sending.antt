-- ===== src/Actor/Maintenance/Sending.antt =====
-- src/actor/maintenance.rs: what sending a list of releases makes of the world.
use mathlib.Core.List.{Mem, mem-cons_self, mem-cons_of_mem}
use rivet_durable_streams.Prelude.{
  ◌≡◌, refl, sym, ◌∙◌, ◌⊎◌, inl, inr, Bool, true, false, ◌||◌, Text, List, [], ◌∷◌, text_eq, Result,
  ok, err, Bool-cases,
}
use rivet_durable_streams.Store.Tables.{GcRelease, Db, has_row}
use rivet_durable_streams.Store.Tables.Laws.{has_row-delete_row}
use rivet_durable_streams.Store.Forks.{release_key, dequeue_gc_release}
use rivet_durable_streams.Actor.Types.{Env, World}
use rivet_durable_streams.Actor.Exec.{commit, ◌>>=◌}
use rivet_durable_streams.Actor.Maintenance.{dequeue_if_ok, send_releases}

-- The actor owes no release for this edge, or owes one.
abbrev pub IsSettled : Text → Db → Type 0
IsSettled edge_id db = has_row release_key edge_id db.gc_releases ≡ false

abbrev pub IsOwed : Text → Db → Type 0
IsOwed edge_id db = has_row release_key edge_id db.gc_releases ≡ true

-- Dequeuing settles its edge, and changes nothing for another.
dequeued_this :
    (edge_id k : Text) (db : Db)
    → text_eq edge_id k ≡ true
    → IsSettled k (dequeue_gc_release edge_id db)
unfolding dequeue_gc_release
dequeued_this edge_id k db this =
    has_row-delete_row release_key edge_id k db.gc_releases ∙ rw this refl

dequeued_other :
    (edge_id k : Text) (db : Db)
    → text_eq edge_id k ≡ false
    → has_row release_key k (dequeue_gc_release edge_id db).gc_releases
      ≡ has_row release_key k db.gc_releases
unfolding dequeue_gc_release
dequeued_other edge_id k db other =
    has_row-delete_row release_key edge_id k db.gc_releases ∙ rw other refl

module _ (env : Env) where
  -- The source, asked at some time for a release of this edge, took it.
  pub record Took (k : Text) (releases : List GcRelease) : Type 0 where
    pub release : GcRelease
    pub is_queued : Mem release releases
    pub is_of_edge : text_eq release.edge_id k ≡ true
    pub scope : Text
    pub handle : env.Handle
    pub is_source : env.source_handle scope release.parent_path ≡ ok handle
    pub others : env.Rest
    pub is_ok :
        (env.fork_release handle
          (record { edge_id = release.edge_id; source_generation = release.source_generation })
          others).0
        ≡ ok tt

  -- What sending these releases makes of the world, for every edge: it is settled if it was, or if
  -- its source took the release; an edge that is still owed has asked for another flush.
  pub record Sent (releases : List GcRelease) (retry : Bool) (w : World env.Rest) (r : Result Bool)
      (later : World env.Rest) : Type 0 where
    pub again : Bool
    pub is_ok : r ≡ ok again
    pub alarms : later.alarms ≡ w.alarms
    pub keeps : (k : Text) → IsSettled k w.db → IsSettled k later.db
    pub frees : (k : Text) → IsSettled k later.db → IsSettled k w.db ⊎ Took k releases
    pub sticks : retry ≡ true → again ≡ true
    pub settles :
        (again ≡ true) ⊎ ((k : Text) → has_row release_key k releases ≡ true → IsSettled k later.db)

  pub Sent-none : (retry : Bool) (w : World env.Rest) → Sent [] retry w (ok retry) w
  unfolding has_row
  Sent-none retry w = record {
    again = retry;
    is_ok = refl;
    alarms = refl;
    keeps = λ k h. h;
    frees = λ k h. inl h;
    sticks = λ h. h;
    settles = inr (λ k h. cc);
  }

  Took-more :
      (k : Text) (release : GcRelease) (releases : List GcRelease)
      → Took k releases
      → Took k (release ∷ releases)
  Took-more k release releases took = record {
    release = took.release;
    is_queued = mem-cons_of_mem _ took.is_queued;
    is_of_edge = took.is_of_edge;
    scope = took.scope;
    handle = took.handle;
    is_source = took.is_source;
    others = took.others;
    is_ok = took.is_ok;
  }

  -- The source took the release.
  Sent-ok :
      (release : GcRelease) (releases : List GcRelease) (retry : Bool)
      (w taken later : World env.Rest) (r : Result Bool) (handle : env.Handle)
      → env.source_handle w.tenant_scope release.parent_path ≡ ok handle
      → (env.fork_release handle
          (record { edge_id = release.edge_id; source_generation = release.source_generation })
          w.rest).0
        ≡ ok tt
      → taken.alarms ≡ w.alarms
      → taken.db ≡ dequeue_gc_release release.edge_id w.db
      → Sent releases (retry || false) taken r later
      → Sent (release ∷ releases) retry w r later
  unfolding has_row
  Sent-ok release releases retry w taken later r handle source replied alarms db sent = record {
    again = sent.again;
    is_ok = sent.is_ok;
    alarms = sent.alarms ∙ alarms;
    keeps = λ k h. sent.keeps k (
        rw db (elim (Bool-cases (text_eq release.edge_id k)) [
          | inl this ↦ dequeued_this release.edge_id k w.db this
          | inr other ↦ dequeued_other release.edge_id k w.db other ∙ h
        ]));
    frees = λ k h. elim (sent.frees k h) [
      | inr took ↦ inr (Took-more k release releases took)
      | inl settled ↦ elim (Bool-cases (text_eq release.edge_id k)) [
        | inl this ↦ inr (record {
          release = release;
          is_queued = mem-cons_self;
          is_of_edge = this;
          scope = w.tenant_scope;
          handle = handle;
          is_source = source;
          others = w.rest;
          is_ok = replied;
        })
        | inr other ↦ inl (sym (dequeued_other release.edge_id k w.db other) ∙ (rw db at settled))
      ]
    ];
    sticks = λ h. sent.sticks (rw h refl);
    settles = elim sent.settles [
      | inl again ↦ inl again
      | inr settled ↦ inr (λ k h. elim (Bool-cases (text_eq release.edge_id k)) [
        | inl this ↦ sent.keeps k (rw db (dequeued_this release.edge_id k w.db this))
        | inr other ↦ settled k (rw other at h)
      ])
    ];
  }

  -- The source failed or was not reached.
  Sent-err :
      (release : GcRelease) (releases : List GcRelease) (retry : Bool)
      (w taken later : World env.Rest) (r : Result Bool)
      → taken.alarms ≡ w.alarms
      → taken.db ≡ w.db
      → Sent releases (retry || true) taken r later
      → Sent (release ∷ releases) retry w r later
  Sent-err release releases retry w taken later r alarms db sent = record {
    again = sent.again;
    is_ok = sent.is_ok;
    alarms = sent.alarms ∙ alarms;
    keeps = λ k h. sent.keeps k (rw db h);
    frees = λ k h. elim (sent.frees k h) [
      | inl settled ↦ inl (rw db at settled)
      | inr took ↦ inr (Took-more k release releases took)
    ];
    sticks = λ h. sent.sticks (or_true retry);
    settles = inl (sent.sticks (or_true retry));
  }
    where
      or_true : (b : Bool) → (b || true) ≡ true
      or_true true = refl
      or_true false = refl

  -- The rest of a flush after the source's reply.
  abbrev after_reply :
      GcRelease
      → List GcRelease
      → Bool
      → Result (Unit {0})
      → World env.Rest
      → Result Bool × World env.Rest
  after_reply release releases retry reply w =
      (dequeue_if_ok env release.edge_id reply >>= λ failed.
      send_releases env releases (retry || failed))
        w

  pub Sent-reply :
      (release : GcRelease) (releases : List GcRelease) (retry : Bool) (reply : Result (Unit {0}))
      (left : env.Rest) (w : World env.Rest) (handle : env.Handle)
      → env.source_handle w.tenant_scope release.parent_path ≡ ok handle
      → (env.fork_release handle
          (record { edge_id = release.edge_id; source_generation = release.source_generation })
          w.rest).0
        ≡ reply
      → ((retry : Bool) (w : World env.Rest)
          → Sent releases retry w
              (send_releases env releases retry w).0
              (send_releases env releases retry w).1)
      → let out = after_reply release releases retry reply (record w { rest = left }) in
        Sent (release ∷ releases) retry w out.0 out.1
  unfolding dequeue_if_ok commit
  Sent-reply release releases retry (ok u) left w handle source e ih =
      let taken = record w { rest = left; db = dequeue_gc_release release.edge_id w.db } in
      Sent-ok release releases retry w taken _ _ handle source e refl refl
        (ih (retry || false) taken)
  Sent-reply release releases retry (err x) left w handle source e ih =
      let taken = record w { rest = left } in
      Sent-err release releases retry w taken _ _ refl refl (ih (retry || true) taken)
