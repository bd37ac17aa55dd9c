-- ===== src/Facade/Handle/Answers.antt =====
-- `handle` of src/facade.rs: the headers of its answers.
use Prim.Native.String.{◌++◌ as str_append}
use rivet_durable_streams.Prelude.{
  refl, ◌&&◌, String, Text, Bytes, [], Option, none, some, codes, Result, ok, err, Bool-cases, inl,
  inr,
}
use rivet_durable_streams.Facade.Upstream.{
  PublicMethod, Config, PublicRequest, PublicResponse, Upstream, Fetch,
}
use rivet_durable_streams.Facade.Upstream.PublicMethod.{
  get, head, put, post, delete, options, other,
}
use rivet_durable_streams.Facade.Reply.{apply_cors}
use rivet_durable_streams.Facade.Bridge.{bridge_request_headers}
use rivet_durable_streams.Facade.Routing.{is_reserved}
use rivet_durable_streams.Facade.Handle.{
  Facing, actor_handle, fetch_of, locally, ◌>>=◌, is_put, is_success, unless_reserved, continue,
  Flow, answer, next, check_method, settled, present, received, or_bad_request, append_public,
  publish, check_path, receive_body, resolve, fetch, forward, finish, handle, failed,
}
use rivet_durable_streams.Facade.Handle.Cors.{
  IsOpen, all_public-append_public, apply_cors-IsOpen, set_header-IsOpen, extra_names_public,
  set_location-IsOpen, cors_response-IsOpen, cors_text-IsOpen,
}

-- If the step ends the request, its answer is open.
data EndsOpen {A : Type 0} : Flow A → Type 0 where
  answered : (a : PublicResponse) → IsOpen a.headers → EndsOpen (answer a)
  goes_on : (a : A) → EndsOpen (next a)

check_method-EndsOpen : (method : PublicMethod) → EndsOpen (check_method method)
unfolding check_method
check_method-EndsOpen options = answered _ (cors_response-IsOpen 204 [])
check_method-EndsOpen other = answered _ (
    set_header-IsOpen "allow" _ _ extra_names_public.1 (refl, refl, refl, refl, refl, refl)
      (cors_response-IsOpen 405 []))
check_method-EndsOpen get = goes_on _
check_method-EndsOpen head = goes_on _
check_method-EndsOpen put = goes_on _
check_method-EndsOpen post = goes_on _
check_method-EndsOpen delete = goes_on _

settled-EndsOpen :
    {A : Type 0} (late message : String) (o : Option (Result A)) → EndsOpen (settled late message o)
unfolding settled failed
settled-EndsOpen late message none = answered _ (cors_text-IsOpen 504 (codes late))
settled-EndsOpen late message (some (err error)) =
    answered _ (cors_text-IsOpen 502 (codes (str_append message error)))
settled-EndsOpen late message (some (ok a)) = goes_on _

present-EndsOpen : {A : Type 0} (flow : Flow (Option A)) → EndsOpen flow → EndsOpen (present flow)
unfolding present
present-EndsOpen _ (answered a h) = answered a h
present-EndsOpen _ (goes_on none) = answered _ (cors_text-IsOpen 404 (codes "Stream not found"))
present-EndsOpen _ (goes_on (some actor)) = goes_on _

received-EndsOpen : (o : Option (Result (Option Bytes))) → EndsOpen (received o)
unfolding received
received-EndsOpen none = answered _ (cors_text-IsOpen 408 (codes "Request body timed out"))
received-EndsOpen (some (err error)) =
    answered _ (cors_text-IsOpen 400 (codes "Invalid request body"))
received-EndsOpen (some (ok none)) = answered _ (cors_text-IsOpen 413 (codes "Payload too large"))
received-EndsOpen (some (ok (some body))) = goes_on _

or_bad_request-EndsOpen : {A : Type 0} (r : Result A) → EndsOpen (or_bad_request r)
unfolding or_bad_request
or_bad_request-EndsOpen (ok a) = goes_on _
or_bad_request-EndsOpen (err message) = answered _ (cors_text-IsOpen 400 (codes message))

-- The same of a step that may act, whatever state the actors are in.
record AnswersOpen {R A : Type 0} (m : Facing R A) : Type 0 where
  open_in : (rest : R) → EndsOpen (m rest).0

continued :
    {R A B : Type 0} (flow : Flow A) (rest : R) (f : A → Facing R B)
    → EndsOpen flow
    → ((a : A) → AnswersOpen (f a))
    → EndsOpen (continue flow rest f).0
continued _ rest f (answered a h) k = answered a h
continued _ rest f (goes_on a) k = (k a).open_in rest

bind-AnswersOpen :
    {R A B : Type 0} (m : Facing R A) (f : A → Facing R B)
    → AnswersOpen m
    → ((a : A) → AnswersOpen (f a))
    → AnswersOpen (m >>= f)
bind-AnswersOpen m f h k = record {
  open_in = λ rest. continued (m rest).0 (m rest).1 f (h.open_in rest) k;
}

locally-AnswersOpen :
    {R A : Type 0} (flow : Flow A) → EndsOpen flow → AnswersOpen {R = R} (locally flow)
locally-AnswersOpen flow h = record { open_in = λ rest. h }

unless_reserved-EndsOpen :
    (routed : Text) (flow : Flow Text) → EndsOpen flow → EndsOpen (unless_reserved routed flow)
unfolding unless_reserved
unless_reserved-EndsOpen routed _ (answered a h) = answered a h
unless_reserved-EndsOpen routed _ (goes_on path) = elim (Bool-cases (is_reserved routed)) [
  | inl e ↦ rw e (answered _ (cors_text-IsOpen 404 (codes "Stream not found")))
  | inr e ↦ rw e (goes_on path)
]

module _ (u : Upstream) (config : Config) (request : PublicRequest) where
  check_path-EndsOpen : EndsOpen (check_path u config request)
  unfolding check_path
  check_path-EndsOpen = unless_reserved-EndsOpen request.path _ (or_bad_request-EndsOpen _)

  receive_body-EndsOpen : EndsOpen (receive_body u config request)
  unfolding receive_body
  receive_body-EndsOpen = received-EndsOpen _

  resolve-AnswersOpen : (actor : u.Handle) → AnswersOpen (resolve u config request.method actor)
  unfolding resolve
  resolve-AnswersOpen actor = elim (Bool-cases (is_put request.method)) [
    | inl e ↦ record { open_in = λ rest. rw e (settled-EndsOpen _ _ _) }
    | inr e ↦ record { open_in = λ rest. rw e (present-EndsOpen _ (settled-EndsOpen _ _ _)) }
  ]

  fetch-AnswersOpen : (actor : u.Handle) (f : Fetch) → AnswersOpen (fetch u config actor f)
  unfolding fetch
  fetch-AnswersOpen actor f = record { open_in = λ rest. settled-EndsOpen _ _ _ }

  forward-AnswersOpen : AnswersOpen (forward u config request)
  unfolding forward
  forward-AnswersOpen =
      bind-AnswersOpen _ _ (locally-AnswersOpen _ (check_method-EndsOpen request.method)) λ allowed.
        bind-AnswersOpen _ _ (locally-AnswersOpen _ check_path-EndsOpen) λ path.
          bind-AnswersOpen _ _ (locally-AnswersOpen _ receive_body-EndsOpen) λ body.
            bind-AnswersOpen _ _
              (locally-AnswersOpen _ (
                settled-EndsOpen "" "Actor request failed: "
                  (some (actor_handle u config request.method path))))
              λ handle. bind-AnswersOpen _ _ (resolve-AnswersOpen handle) λ actor.
                bind-AnswersOpen _ _
                  (locally-AnswersOpen _
                    (or_bad_request-EndsOpen (bridge_request_headers u.platform request.headers)))
                  λ headers. fetch-AnswersOpen actor (fetch_of u config request body headers)

  publish-IsOpen :
      (actor_response : PublicResponse) → IsOpen (publish config request actor_response).headers
  unfolding publish
  publish-IsOpen actor_response =
      let opened : IsOpen (apply_cors (append_public [] actor_response.headers)) =
        apply_cors-IsOpen _ (all_public-append_public [] actor_response.headers refl) in
      elim (Bool-cases (is_put request.method && is_success actor_response.status)) [
        | inl e ↦ rw e (set_location-IsOpen config request.headers request.original_path _ opened)
        | inr e ↦ rw e opened
      ]

  finish-IsOpen :
      (flow : Flow PublicResponse) → EndsOpen flow → IsOpen (finish u config request flow).headers
  unfolding finish
  finish-IsOpen _ (answered a h) = h
  finish-IsOpen _ (goes_on actor_response) = publish-IsOpen actor_response

  -- Every answer of the facade to a request on a stream, whatever the actors and the time make of
  -- it, has the CORS headers (any origin, the methods, the request and the stream headers), forbids
  -- sniffing, allows use from other origins, and has no header whose name begins with `x-rivet-`.
  pub handle-IsOpen : (rest : u.Rest) → IsOpen (handle u config request rest).0.headers
  unfolding handle
  handle-IsOpen rest =
      finish-IsOpen (forward u config request rest).0 (forward-AnswersOpen.open_in rest)
