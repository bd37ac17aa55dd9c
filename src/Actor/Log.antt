-- ===== src/Actor/Log.antt =====
-- What a stream promises, whatever its actor is asked: an abstract log, and the steps that it may take.
pub mod Tables
pub mod Appends
pub mod Steps
pub mod Lifecycle
pub mod Seen
pub mod Writes
pub mod Posts
pub mod Reads
pub mod Actions
pub mod Forks
pub mod Puts
pub mod Callbacks
use rivet_durable_streams.Prelude.{
  ◌≡◌, ◌≢◌, ◌⊎◌, inl, inr, refl, sym, ◌∙◌, Bool, true, false, Text, Bytes, List, Option, none, some,
}
use rivet_durable_streams.Store.Tables.{Meta, Message, Db, find_row}
use rivet_durable_streams.Store.Append.{message_key}

-- A stream as its readers know it: under which offsets it has which messages.
pub record Stream : Type 0 where
  pub generation : Text
  pub closed : Bool
  pub content : Text → Option Message

unfoldable pub stream_of : Option Meta → List Message → Option Stream
stream_of none messages = none
stream_of (some meta) messages = some (record {
  generation = meta.generation;
  closed = meta.closed;
  content = λ offset. find_row message_key offset messages;
})

-- The stream that an actor's tables hold.
unfoldable pub stream : Db → Option Stream
unfolding stream_of
stream db = stream_of db.meta db.messages

-- What a stream keeps of another: the messages, and once it is closed, all.
abbrev pub Keeps : Stream → Stream → Type 0
Keeps before after =
    ((offset : Text) (message : Message)
      → before.content offset ≡ some message
      → after.content offset ≡ some message)
    × (before.closed ≡ true → (after.closed ≡ true) × (after.content ≡ before.content))

-- A stream appears where there was none, and never under the watched generation; or it goes; or it
-- stays, and then keeps what it had.
pub data Step (watched : Text) : Option Stream → Option Stream → Type 0 where
  appear : (after : Stream) → after.generation ≢ watched → Step watched none (some after)
  vanish : (before : Option Stream) → Step watched before none
  stay :
      (before after : Stream)
      → after.generation ≡ before.generation
      → Keeps before after
      → Step watched (some before) (some after)

pub data Run (watched : Text) (before : Option Stream) : Option Stream → Type 0 where
  here : Run watched before before
  next :
      {middle after : Option Stream}
      → Run watched before middle
      → Step watched middle after
      → Run watched before after

-- In a run from the watched stream: it is there with what it had, or it is gone for good.
abbrev IsGone : Text → Option Stream → Type 0
IsGone watched none = Unit {0}
IsGone watched (some now) = now.generation ≢ watched

abbrev IsKept : Stream → Option Stream → Type 0
IsKept before none = ⊥
IsKept before (some now) = (now.generation ≡ before.generation) × Keeps before now

Step-on :
    (before : Stream) (middle after : Option Stream)
    → IsGone before.generation middle ⊎ IsKept before middle
    → Step before.generation middle after
    → IsGone before.generation after ⊎ IsKept before after
Step-on before none (some after) h (appear _ fresh) = inl fresh
Step-on before middle none h (vanish _) = inl tt
Step-on before (some now) (some after) (inl gone) (stay _ _ same keeps) =
    inl (λ e. gone (sym same ∙ e))
Step-on before (some now) (some after) (inr (own, kept)) (stay _ _ same keeps) = inr (
  same ∙ own,
  (
    (λ offset message h. keeps.0 offset message (kept.0 offset message h)),
    λ closed.
        let (still, content) = kept.1 closed in ((keeps.1 still).0, (keeps.1 still).1 ∙ content),
  ),
)

Run-on :
    (before : Stream) (after : Option Stream)
    → Run before.generation (some before) after
    → IsGone before.generation after ⊎ IsKept before after
Run-on before after here = inr (refl, ((λ offset message h. h), λ closed. (closed, refl)))
Run-on before after (next run step) = Step-on before _ after (Run-on before _ run) step

-- A stream that is there after a run, under the same generation, kept what it had.
pub Run-Keeps :
    (before after : Stream)
    → Run before.generation (some before) (some after)
    → after.generation ≡ before.generation
    → Keeps before after
Run-Keeps before after run same = elim (Run-on before (some after) run) [
  | inl gone ↦ absurd (gone same)
  | inr kept ↦ kept.1
]
