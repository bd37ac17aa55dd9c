-- ===== src/Actor/Read/Pump/Data.antt =====
-- The data that `pump_sse` of src/actor/read.rs sends beside the body of a plain read.
use rivet_durable_streams.Prelude.{
  ◌≡◌, Bool, true, false, not, ◌&&◌, ◌||◌, text_eq, cmp_text, codes, none, some, Text, Option,
  if◌then◌else◌, Bool-cases, inl, inr, refl,
}
use rivet_durable_streams.Protocol.Content.{normalize_content_type, starts_with}
use rivet_durable_streams.Protocol.Utf8.{is_utf8, from_utf8_lossy}
use rivet_durable_streams.Actor.Write.{is_json}
use rivet_durable_streams.Protocol.Utf8.Lossy.{from_utf8_lossy-is_utf8}
use rivet_durable_streams.Store.Platform.{Platform}
use rivet_durable_streams.Actor.Types.{ReadSnapshot}
use rivet_durable_streams.Actor.Read.Reply.{read_body}
use rivet_durable_streams.Actor.Read.Events.{is_text, start_pump}
use rivet_durable_streams.Actor.Read.Pump.{event_data}

-- The content types of text and JSON.
abbrev pub is_textual : Option Text → Bool
is_textual none = false
is_textual (some value) =
    let media = normalize_content_type (some value) in
    starts_with (codes "text/") media || text_eq media (codes "application/json")

-- The choice that `start_pump` makes.
chosen :
    (p : Platform) (content_type : Option Text) (body : Text)
    → is_utf8 body ≡ true
    → (if not (is_text content_type) && not (is_json content_type)
        then p.standard_encode body
        else from_utf8_lossy body)
      ≡ (if is_textual content_type then body else p.standard_encode body)
unfolding is_text is_json normalize_content_type codes cmp_text
chosen p none body h = refl
chosen p (some value) body h =
    elim (Bool-cases (starts_with (codes "text/") (normalize_content_type (some value)))) [
      | inl text ↦ rw text (from_utf8_lossy-is_utf8 body h)
      | inr other ↦
          elim (Bool-cases
            (text_eq (normalize_content_type (some value)) (codes "application/json"))) [
              | inl json ↦ rw (other, json) (from_utf8_lossy-is_utf8 body h)
              | inr binary ↦ rw (other, binary) refl
            ]
    ]

-- Of a snapshot whose body is UTF-8, an event of a stream that was started for it carries what a
-- catch-up read of the snapshot has as its body: as it is where the content type is text or JSON, and
-- in base64 for any other and where there is none.
pub event_data-read_body :
    (p : Platform) (offset : Text) (cursor : Option Text) (snapshot : ReadSnapshot)
    → is_utf8 (read_body snapshot) ≡ true
    → event_data p (start_pump offset cursor snapshot.meta) snapshot.batch.messages ≡ (
        if is_textual snapshot.meta.content_type
        then read_body snapshot
        else p.standard_encode (read_body snapshot))
unfolding event_data read_body start_pump
event_data-read_body p offset cursor snapshot h =
    chosen p snapshot.meta.content_type (read_body snapshot) h
