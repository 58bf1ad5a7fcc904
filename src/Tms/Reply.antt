-- ===== src/Tms/Reply.antt =====
-- tms_tms.c: the reply to a message (Tms_HttpGetTranResult, Tms_ResolveHTTPPacket, Tms_UnPackPacket) and the
-- exchange around it (Tms_SendRecvData, Tms_CreateTxdRxdResolve); behind a failed receive the moment counts on
-- from the request. `none` is an overrun or a read through NULL.
pub mod Token
use service_payment_bridge.Prelude.{
  ℕ, zero, suc, ◌+◌, ◌-◌, Bool, true, false, ◌&&◌, not, Option, none, some, List, [], ◌∷◌, ◌++◌,
  Bytes, codes, cstr, find, length, take, drop, str_eq, ltb, leb, ◌==◌, if◌then◌else◌,
}
use service_payment_bridge.Tms.Exchange.{ask}
use service_payment_bridge.Tms.Packet.{Packet, packet, receive_error, overrun, waiting, recv_packet}
use service_payment_bridge.Tms.Tasks.{Json, Listed, listed, crashed, overran, unsolve_get_term_task}
use service_payment_bridge.Tms.Trade.{
  File, Kind, device_auth, terminfo_upload, getterm_task, urlgetfile, notify, update,
  location_upload, Terminal,
}

-- TmsStruct.version and sn, G_token, TmsTrade.respCode, respMsg, trade_type and the files listed.
pub record Session : Type 0 where
  pub version : Bytes
  pub sn : Bytes
  pub token : Bytes
  pub resp_code : Bytes
  pub resp_msg : Bytes
  pub kind : Kind
  pub files : List File

abbrev pub Answer : Type 0
Answer = Option (ℕ × Session)

-- Tms_HttpGetTranResult: "200" anywhere on the first line, without its last byte; tmp[64], respMsg[32].
unfoldable pub status_line : Session → Bytes → Answer
status_line s line = elim (find (codes "200") line) [
  | none ↦ some (2, record s { resp_msg = take 31 line })
  | some k ↦ some (0, s)
]

unfoldable pub http_get_tran_result : Session → Bytes → Answer
unfolding status_line
http_get_tran_result s reply = elim (find (codes "\n") reply) [
  | none ↦ some (8, s)
  | some zero ↦ none
  | some (suc k) ↦ if leb 64 k then none else status_line s (take k reply)
]

-- A text copied over the front of another one, without a NUL.
abbrev pub over : Bytes → Bytes → Bytes
over s old = s ++ drop (length s) old

module _ {Node : Type 0} (j : Json Node) where
  -- A member's text, where there is one that is not null: `none` for a NULL text.
  unfoldable pub member_text : Node → Bytes → Option (Option Bytes)
  member_text root name = elim (j.member root name) [
    | none ↦ some none
    | some m ↦
        if j.is_null m then some none else elim (j.text m) [ none ↦ none | some s ↦ some (some s) ]
  ]

  unfoldable pub agrees : Option Bytes → Bytes → Bool
  agrees none t = true
  agrees (some s) t = str_eq s t

  -- respCode[16], respMsg[32] and G_token[21].
  unfoldable pub text_into : ℕ → Option Bytes → Bytes → Option Bytes
  text_into room none old = some old
  text_into room (some s) old = if leb room (length s) then none else some (over s old)

  unfoldable pub new_token : Option (Option Bytes) → Session → Answer
  new_token none s = none
  new_token (some none) s = some (0, s)
  new_token (some (some t)) s = if leb 21 (length t) then none else some (0, record s { token = t })

  unfoldable pub with_tasks : Listed → Session → Answer
  with_tasks (listed fs c) s = some (c, record s { files = fs })
  with_tasks crashed s = none
  with_tasks overran s = none

  -- "switch(TmsTrade.trade_type)"
  unfoldable pub by_kind : Node → Kind → Session → Answer
  unfolding new_token with_tasks member_text unsolve_get_term_task
  by_kind root device_auth s = new_token (member_text root (codes "token")) s
  by_kind root terminfo_upload s = some (0, s)
  by_kind root getterm_task s = with_tasks (unsolve_get_term_task j root s.files) s
  by_kind root notify s = some (0, s)
  by_kind root location_upload s = some (0, s)
  by_kind root urlgetfile s = some (1, s)
  by_kind root update s = some (1, s)

  unfoldable pub accepted : Node → Session → Answer
  unfolding by_kind
  accepted root s =
      let rest = by_kind root s.kind s in
      if str_eq s.resp_code (codes "00") then rest else some (2, s)

  unfoldable pub keep_response :
      Option (Option Bytes) → Option (Option Bytes) → Session → Option Session
  unfolding text_into
  keep_response none message s = none
  keep_response (some code) none s = none
  keep_response (some code) (some message) s = elim (text_into 16 code s.resp_code) [
    | none ↦ none
    | some c ↦ elim (text_into 32 message s.resp_msg) [
      | none ↦ none
      | some m ↦ some (record s { resp_code = c; resp_msg = m })
    ]
  ]

  -- Behind the two comparisons.
  unfoldable pub responded : Node → Session → Answer
  unfolding accepted keep_response member_text
  responded root s =
      elim (keep_response (member_text root (codes "code")) (member_text root (codes "message"))
        s) [ none ↦ none | some t ↦ accepted root t ]

  unfoldable pub compared : Node → Option (Option Bytes) → Option (Option Bytes) → Session → Answer
  unfolding agrees responded
  compared root none sn s = none
  compared root (some version) none s = if agrees version s.version then none else some (11, s)
  compared root (some version) (some sn) s =
      let rest = responded root s in
      if agrees version s.version
      then if agrees sn s.sn then rest else some (11, s)
      else some (11, s)

  -- Tms_UnPackPacket of a text that cJSON_Parse reads as `root`.
  unfoldable pub un_pack_packet : Option Node → Session → Answer
  unfolding compared member_text
  un_pack_packet none s = some (8, s)
  un_pack_packet (some root) s =
      compared root (member_text root (codes "version")) (member_text root (codes "sn")) s

  unfoldable pub resolved : (Bytes → Option Node) → Bytes → Answer → Answer
  unfolding un_pack_packet
  resolved parse reply none = none
  resolved parse reply (some (suc c, s)) = some (suc c, s)
  resolved parse reply (some (zero, s)) = elim (find (codes "{") reply) [
    | none ↦ some (8, s)
    | some k ↦ un_pack_packet (parse (drop k reply)) s
  ]

  -- Tms_ResolveHTTPPacket
  unfoldable pub resolve_http_packet : (Bytes → Option Node) → Bytes → Session → Answer
  unfolding resolved http_get_tran_result
  resolve_http_packet parse reply s =
      resolved parse (cstr reply) (http_get_tran_result s (cstr reply))

  -- Tms_SendRecvData for what is not TYPE_URLGETFILE, and Tms_CreateTxdRxdResolve of a packet; the moment
  -- behind it.
  unfoldable pub received : (Bytes → Option Node) → Packet → ℕ → Session → Answer × ℕ
  unfolding resolve_http_packet
  received parse (packet b i) t s = (resolve_http_packet parse b s, i)
  received parse receive_error t s = (some (7, s), t)
  received parse overrun t s = (none, t)
  received parse waiting t s = (none, t)

  unfoldable pub send_recv_resolve :
      (Bytes → Option Node) → Terminal → Bytes → ℕ → Session → Answer × ℕ
  unfolding received ask recv_packet
  send_recv_resolve parse e text t s =
      let asked : Bool × ℕ = ask e t text in
      if asked.0
      then received parse (recv_packet e.device [] asked.1 2048) asked.1 s
      else (some (6, s), asked.1)
