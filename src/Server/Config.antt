-- ===== src/Server/Config.antt =====
-- src/main.rs: the port, and the configurations of the actors' server and of their client.
mod Authorized
use rivet_durable_streams.Prelude.{
  ℕ, Bool, Text, Bytes, [], ◌∷◌, ◌++◌, Option, none, some, or_else, is_some_and, is_empty,
  if◌then◌else◌, Result, ok, ◌>>=◌, ok_or, codes,
}
use rivet_durable_streams.Protocol.Utf8.{is_utf8}
use rivet_durable_streams.Protocol.Decimal.{parse_unsigned}
use rivet_durable_streams.Protocol.Content.{eq_ignore_ascii_case, trim_end_matches}
use rivet_durable_streams.Protocol.Http.{Headers}

-- `args.port`, and the variables `PORT` and `RIVET_PORT`.
unfoldable pub port_of : Option ℕ → Option Text → Option Text → Result ℕ
port_of (some port) port_variable rivet_port = ok port
port_of none port_variable rivet_port = elim (or_else port_variable rivet_port) [
  | none ↦ ok 8787
  | some value ↦ ok_or (parse_unsigned 65535 value) "parse PORT"
]

-- `RIVETKIT_RUNTIME_MODE`
unfoldable pub is_serverless : Option Text → Bool
unfolding eq_ignore_ascii_case
is_serverless mode = is_some_and mode (λ value. eq_ignore_ascii_case value (codes "serverless"))

-- `rivetkit::ServeConfig`, as far as it is used.
pub record ServeConfig : Type 0 where
  pub endpoint : Text
  pub token : Option Text
  pub namespace : Text
  pub pool_name : Text

-- `rivetkit_client::ClientConfig`
pub record ClientConfig : Type 0 where
  pub endpoint : Text
  pub token : Option Text
  pub namespace : Option Text
  pub pool_name : Option Text
  pub headers : Headers

-- The crates url and percent_encoding. The setters fail on a URL that cannot have a user.
pub record UrlCrate : Type 1 where
  pub Url : Type 0
  pub parse_url : Text → Result Url
  pub username : Url → Text
  pub password : Url → Option Text
  pub set_username : Text → Url → Option Url
  pub set_password : Option Text → Url → Option Url
  pub url_to_string : Url → Text
  pub percent_decode_str : Text → Bytes

unfoldable pub client_config : ServeConfig → ClientConfig
client_config serve_config = record {
  endpoint = serve_config.endpoint;
  token = serve_config.token;
  namespace = some serve_config.namespace;
  pool_name = some serve_config.pool_name;
  headers = elim serve_config.token [
    | none ↦ []
    | some token ↦ ("authorization", codes "Bearer " ++ token) ∷ []
  ];
}

module _ (crate : UrlCrate) where
  unfoldable pub decode_url_auth : Text → Option Text
  unfolding is_utf8
  decode_url_auth value =
      let decoded = crate.percent_decode_str value in if is_utf8 decoded then some decoded else none

  -- `decode_url_auth(endpoint.username()).filter(|value| !value.is_empty())`
  unfoldable pub namespace_of : crate.Url → Text → Text
  unfolding decode_url_auth
  namespace_of url namespace = elim (decode_url_auth (crate.username url)) [
    | none ↦ namespace
    | some user ↦ if is_empty user then namespace else user
  ]

  -- `endpoint.password().and_then(decode_url_auth)`
  unfoldable pub token_of : crate.Url → Option Text → Option Text
  unfolding decode_url_auth
  token_of url token = elim (crate.password url) [
    | none ↦ token
    | some password ↦ or_else (decode_url_auth password) token
  ]

  unfoldable pub normalize_serve_config : ServeConfig → Result ServeConfig
  unfolding namespace_of token_of trim_end_matches
  normalize_serve_config serve_config = do
    endpoint ← crate.parse_url serve_config.endpoint
    without_user ← ok_or (crate.set_username [] endpoint) "clear RIVET_ENDPOINT username"
    cleared ← ok_or (crate.set_password none without_user) "clear RIVET_ENDPOINT password"
    ok record {
      endpoint = trim_end_matches b'/' (crate.url_to_string cleared);
      token = token_of endpoint serve_config.token;
      namespace = namespace_of endpoint serve_config.namespace;
      pool_name = serve_config.pool_name;
    }
