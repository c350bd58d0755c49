-- ===== src/Cloudsync/Client.antt =====
-- internal/cloudsync/client.go: what the device makes of the cloud's answers. Package net/http and the
-- decoding of JSON are parameters.
use pos_agent.Base.{
  ℕ, not, Option, none, some, List, [], ◌∷◌, ◌++◌, Text, text, text_eq, ◌==◌, if◌then◌else◌,
  nat_eqb, trim_right,
}
use pos_agent.Base.Int.{ℤ, pos}
use pos_agent.Base.Decimal.{itoa}
use pos_agent.Cloudsync.Engine.{Reply, answer, failed, PushPayload, PullResult, SyncClient}

-- An HTTP response: its status, the message under "error" in the first 4096 bytes of its body, the
-- body, and its cookies.
pub record HttpResponse : Type 0 where
  pub status : ℕ
  pub error : Text
  pub body : Text
  pub cookies : List (Text × Text)

-- `LinkInfo`
pub record LinkInfo : Type 0 where
  pub shop_id : Text
  pub email : Text
  pub token : Text

-- What the client calls: a POST to a URL with a body, and with a session cookie or without; and the
-- encoding and decoding of bodies. A failed decoding is its message.
pub record Http : Type 0 where
  pub request : Text → Option Text → Text → Reply HttpResponse
  pub login_body : Text → Text → Text
  pub push_body : PushPayload → Text
  pub pull_body : ℤ → Text
  pub read_login : Text → Reply (Text × Text)
  pub read_push : Text → Reply (Unit {0})
  pub read_pull : Text → Reply PullResult

-- `joinURL`
unfoldable pub join_url : Text → Text → Text
unfolding trim_right
join_url base path = trim_right b'/' base ++ path

-- `serverError`
unfoldable pub server_error : HttpResponse → Text
unfolding itoa
server_error resp =
    if not (resp.error == []) then resp.error else text "cloud returned " ++ itoa (pos resp.status)

-- `ErrUnauthorized`
abbrev pub unauthorized : Text
unauthorized = text "cloud session is no longer valid"

abbrev unrecognised : Text
unrecognised = text "that email or password was not recognised"

-- The checks of a response, with the message for status 401, and what follows status 200.
unfoldable pub checked :
    {A : Type 0} → Text → Reply HttpResponse → (HttpResponse → Reply A) → Reply A
unfolding server_error
checked refused (failed message) next = failed (text "cannot reach the cloud: " ++ message)
checked refused (answer resp) next =
    if nat_eqb resp.status 401
    then failed refused
    else if not (nat_eqb resp.status 200)
    then failed (server_error resp)
    else next resp

-- The last cookie of the session's name.
unfoldable pub session_token : List (Text × Text) → Text → Text
session_token [] token = token
session_token ((name, value) ∷ cookies) token =
    session_token cookies (if name == text "pos_session" then value else token)

abbrev link_info : Text → Reply (Text × Text) → Reply LinkInfo
link_info token (failed message) = failed message
link_info token (answer (shop_id, email)) =
    if token == []
    then failed (text "the cloud did not return a session")
    else answer (record { shop_id = shop_id; email = email; token = token })

module _ (http : Http) where
  -- `Login`
  unfoldable pub login : Text → Text → Text → Reply LinkInfo
  unfolding join_url checked session_token
  login base_url email password =
      checked unrecognised
        (http.request (join_url base_url (text "/api/auth/login")) none
          (http.login_body email password))
        (λ resp. link_info (session_token resp.cookies []) (http.read_login resp.body))

  -- `post`
  unfoldable pub post : {A : Type 0} → Text → Text → Text → Text → (Text → Reply A) → Reply A
  unfolding join_url checked
  post base_url path token body read =
      checked unauthorized (http.request (join_url base_url path) (some token) body)
        (λ resp. read resp.body)

  -- `Push` and `Pull`: the client that the engine is given.
  unfoldable pub http_client : SyncClient
  unfolding post
  http_client = record {
    push = λ base_url token payload.
        post base_url (text "/api/sync/push") token (http.push_body payload) http.read_push;
    pull = λ base_url token since.
        post base_url (text "/api/sync/pull") token (http.pull_body since) http.read_pull;
  }
