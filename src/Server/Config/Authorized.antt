-- ===== src/Server/Config/Authorized.antt =====
-- src/main.rs: the credentials that the actors' client sends.
use rivet_durable_streams.Prelude.{
  ◌≡◌, refl, sym, Text, [], ◌++◌, Option, none, some, ok, ok_or, bind_ok, ok_injective, codes,
}
use rivet_durable_streams.Protocol.Http.{get_header}
use rivet_durable_streams.Server.Config.{
  ServeConfig, decode_url_auth, UrlCrate, client_config, token_of, normalize_serve_config,
}

token_of_lem :
    (crate : UrlCrate) (url : crate.Url) (token : Option Text) (password secret : Text)
    → crate.password url ≡ some password
    → decode_url_auth crate password ≡ some secret
    → token_of crate url token ≡ some secret
unfolding token_of
token_of_lem crate url token password secret held decoded = rw (held, token_of, decoded) refl

-- Where the endpoint names a password, the client sends it, decoded, as its bearer token, whatever
-- token the configuration had.
client_config-normalize_serve_config :
    (crate : UrlCrate) (serve_config ready : ServeConfig) (url : crate.Url) (password secret : Text)
    → crate.parse_url serve_config.endpoint ≡ ok url
    → crate.password url ≡ some password
    → decode_url_auth crate password ≡ some secret
    → normalize_serve_config crate serve_config ≡ ok ready
    → (let config = client_config ready in
        (config.token ≡ some secret)
        × (get_header "authorization" config.headers ≡ some (codes "Bearer " ++ secret)))
unfolding normalize_serve_config client_config get_header
client_config-normalize_serve_config crate serve_config ready url password secret parsed held
      decoded h =
    let h1 = rw parsed at h in
    let (without_user, (_, h2)) = bind_ok (ok_or (crate.set_username [] url) _) _ ready h1 in
    let (cleared, (_, h3)) = bind_ok (ok_or (crate.set_password none without_user) _) _ ready h2 in
    let token = token_of_lem crate url serve_config.token password secret held decoded in
    rw (sym (ok_injective _ ready h3)) (token, rw token refl)
