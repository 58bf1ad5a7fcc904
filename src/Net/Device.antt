-- ===== src/Net/Device.antt =====
-- network.c: the socket table, and the platform calls that the file makes. The calls are not in the
-- repository: an oracle answers each, from all calls made before, and each is logged with its answer.
use service_payment_bridge.Prelude.{
  ℕ, suc, Bool, false, Option, none, some, List, [], ◌∷◌, Bytes, ℤ, pos, replicate, if◌then◌else◌,
}
use mathlib.Core.Option

-- One entry of the table. `valid` is an int of the source that is only 0 or 1.
pub record Slot : Type 0 where
  pub valid : Bool
  pub socket : ℤ
  pub ssl : ℤ

abbrev pub max_sockets : ℕ
max_sockets = 10

abbrev pub certi_len : ℕ
certi_len = 2048

abbrev pub free_slot : Slot
free_slot = record { valid = false; socket = pos 0; ssl = pos 0 }

pub data Commode : Type 0 where
  wifi sim : Commode

pub data Call : Type 0 where
  wifi_socket_create wifi_ssl_socket_create socket_create ssl_socket_create : Call
  wifi_tcp_connect wifi_ssl_connect tcp_connect ssl_connect : ℤ → Bytes → Bytes → ℕ → Call
  wifi_tcp_close wifi_socket_close wifi_ssl_socket_close socket_close ssl_socket_close : ℤ → Call
  wifi_ssl_config : ℤ → ℕ → Call
  wifi_download_crt send_ssl_file : ℕ → Bytes → Call
  set_ssl_mode set_ssl_ver : ℕ → Call
  set_dns timer_set ppp_check ppp_open : Call
  delay : ℕ → Call
  timer_check : ℤ → ℕ → Call
  file_size read_file : Bytes → Call
  wifi_recv wifi_ssl_recv recv ssl_recv : ℤ → ℤ → ℕ → Call
  wifi_send wifi_ssl_send : ℤ → Bytes → ℕ → Call
  send ssl_send : ℤ → Bytes → Call

abbrev pub Log : Type 0
Log = List (Call × ℤ)

-- What a call returns, and what it writes to the buffer that it is given.
pub record Oracle : Type 0 where
  pub ret : Log → Call → ℤ
  pub filled : Log → Call → Bytes

pub record Net : Type 0 where
  pub sockets : List Slot
  pub commode : Commode
  pub log : Log

abbrev pub M : Type 0 → Type 0
M A = Net → A × Net

abbrev pub pure : {A : Type 0} → A → M A
pure a s = (a, s)

infixl 5 ◌>>=◌ ◌>>◌
abbrev pub ◌>>=◌ : {A B : Type 0} → M A → (A → M B) → M B
◌>>=◌ m f s = let (a, s') = m s in f a s'

abbrev pub ◌>>◌ : {A B : Type 0} → M A → M B → M B
m >> k = m >>= λ _. k

module _ (o : Oracle) where
  unfoldable pub invoke : Call → M ℤ
  invoke c s = let r = o.ret s.log c in (r, record s { log = (c, r) ∷ s.log })

  -- The bytes that the call about to be made will write.
  unfoldable pub buffer : Call → M Bytes
  buffer c s = (o.filled s.log c, s)

unfoldable pub get_commode : M Commode
get_commode s = (s.commode, s)

unfoldable pub get_sockets : M (List Slot)
get_sockets s = (s.sockets, s)

unfoldable pub set_sockets : List Slot → M (Unit {0})
set_sockets ss s = (tt, record s { sockets = ss })

-- net_init
unfoldable pub net_init : Commode → Log → Net
net_init m l = record { sockets = replicate max_sockets free_slot; commode = m; log = l }

-- "Find an empty socket slot"
unfoldable pub find_free : List Slot → Option ℕ
find_free [] = none
find_free (x ∷ xs) = if x.valid then Option.map suc (find_free xs) else some 0
