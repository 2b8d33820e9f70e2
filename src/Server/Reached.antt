-- ===== src/Server/Reached.antt =====
-- Who comes to which handler of internal/server/server.go.
use llm_gateway.Base.{◌↔◌, Bool, Option, String}
use llm_gateway.Auth.{KeyInfo, Authentication}
use llm_gateway.Server.{Options, Endpoint}
use llm_gateway.Server.Routes.{IsApi, IsAdmin, Reaches}
use llm_gateway.Server.Api.{guarded, IsAdmitted, api_reached_iff}
use llm_gateway.Server.Admin.{IsAdministrator, admin_reached_iff}

-- With an authenticator and a limiter, a request reaches a handler of /v1 exactly where its header is
-- a bearer token that the authenticator knows as a key and the limiter lets that key through, which
-- is then the key in its context. It reaches a handler of keys exactly where the server has one and
-- an administrator's token that is not empty, and the header is that token's bearer token; it then
-- brings no key.
pub reached_iff :
    (opts : Options) (a : String → Authentication) (f : KeyInfo → Bool) (header : String)
    (key : Option KeyInfo) (e d : Endpoint)
    → IsApi e
    → IsAdmin d
    → let server = guarded opts a f header key in
      (Reaches server e header key ↔ IsAdmitted opts a f header key)
      × (Reaches server d header key ↔ IsAdministrator server header key)
reached_iff opts a f header key e d is_api is_admin = (
  api_reached_iff opts a f header key e is_api,
  admin_reached_iff (guarded opts a f header key) header key d is_admin,
)
