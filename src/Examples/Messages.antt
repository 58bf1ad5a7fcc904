-- ===== src/Examples/Messages.antt =====
-- The terminal's messages to the management server, and its replies, at concrete inputs.
use service_payment_bridge.Prelude.{
  ◌≡◌, refl, ◌↔◌, ◌⊎◌, true, false, none, some, [], Bytes, codes, str_eq, if◌then◌else◌,
}
use service_payment_bridge.Tms.Tasks.{Json}
use service_payment_bridge.Tms.Trade.{device_auth, location_upload}
use service_payment_bridge.Tms.Reply.{Session, resolve_http_packet}
use service_payment_bridge.Tms.Reply.Token.{After, Parsed, TokenKept, resolve_http_packet-TokenKept}
use service_payment_bridge.Tms.Account.{
  Account, Exchange, asking, device_authentication, tms_term_auth_api,
}
use service_payment_bridge.Tms.Account.Flag.{tms_term_auth_api-flag}

-- A reply to an authentication: a node is a text, and the document's name is the empty one.
abbrev reply_json : Json Bytes
reply_json = record {
  member = λ n name.
      if str_eq name (codes "code")
      then some (codes "00")
      else if str_eq name (codes "sn")
      then some (codes "61000001")
      else if str_eq name (codes "token")
      then some (codes "T1")
      else none;
  children = λ n. [];
  is_null = λ n. false;
  is_array = λ n. false;
  text = λ n. some n;
  number = λ n. 0;
  asc_to_long = λ s. 0;
  asc_to_bcd = λ s. s;
  needed = λ f. 0;
}

abbrev before_auth : Session
before_auth = record {
  version = codes "1.0";
  sn = codes "61000001";
  token = [];
  resp_code = [];
  resp_msg = [];
  kind = device_auth;
  files = [];
}

abbrev auth_reply : Bytes
auth_reply = codes "HTTP/1.1 200 OK\r\n\r\n{}"

resolve_http_packet-TokenKept_example :
    After
      (resolve_http_packet reply_json (λ s. some s) auth_reply before_auth)
      (TokenKept reply_json (Parsed reply_json (λ s. some s) auth_reply) before_auth)
resolve_http_packet-TokenKept_example =
    resolve_http_packet-TokenKept reply_json (λ s. some s) auth_reply before_auth

-- A server that answers 0 to everything.
abbrev always : Exchange
always s = some (0, s)

abbrev accepted_account : Account
accepted_account = record { authenticated = false; session = before_auth }

abbrev authenticated_account : Account
authenticated_account = record {
  authenticated = true;
  session = asking location_upload before_auth;
}

auth_done : tms_term_auth_api always true accepted_account ≡ some (0, authenticated_account)
unfolding tms_term_auth_api
auth_done = refl

tms_term_auth_api-flag_example : (true ≡ true) ↔ (
    ((true ≡ true) × ((s : Session) × (device_authentication always before_auth ≡ some (0, s))))
    ⊎ ((true ≡ false) × (false ≡ true)))
tms_term_auth_api-flag_example =
    tms_term_auth_api-flag always true accepted_account authenticated_account 0 auth_done
