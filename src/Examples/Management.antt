-- ===== src/Examples/Management.antt =====
-- tms_tms.c and tms_base64.c at concrete inputs.
use service_payment_bridge.Prelude.{
  ℕ, zero, suc, ◌≡◌, refl, none, some, [], ◌∷◌, ◌++◌, Bytes, pos, negsuc, codes, find, has_prefix,
  get_elem?, arith, inl,
}
use service_payment_bridge.Base64.{base64_decode, base64_encode}
use service_payment_bridge.Base64.RoundTrip.{base64_decode-encode}
use service_payment_bridge.Config.Lines.{atoi}
use service_payment_bridge.Http.Payload.{
  Device, Received, Receives, bytes, timed_out, trim, cut_spaces, skip_spaces,
}
use service_payment_bridge.Tms.Packet.{recv_packet, packet, announced}
use service_payment_bridge.Tms.Packet.Bounds.{Fits, recv_packet-Fits}
use service_payment_bridge.Tms.Packet.Fragments.{recv_packet-join}
use service_payment_bridge.Tms.Packet.Head.{Head}
use service_payment_bridge.Tms.Trade.{
  Trade, File, Kind, uncomplete, complete, State, Terminal, type_app,
}
use service_payment_bridge.Tms.Store.Intact.{IsSound}
use service_payment_bridge.Tms.Download.{download_files}
use service_payment_bridge.Tms.Download.Safety.{download_files-IsSound}
use service_payment_bridge.Tms.Install.{Machine, Run, update_api}
use service_payment_bridge.Tms.Install.Order.{InOrder, update_api-InOrder}

-- A reply in three fragments.
abbrev reply_head : Bytes
reply_head = codes "HTTP/1.1 200 OK\r\nContent-Length: 2\r\n\r\n"

reply_head-Head : Head reply_head
unfolding find has_prefix
reply_head-Head = record {
  end = 34;
  start = 17;
  size = 2;
  plain = omega arith;
  ends = refl;
  whole = refl;
  named = refl;
  line = refl;
  inside = omega arith;
  short = omega arith;
}

abbrev answer : ℕ → Received
answer zero = bytes (codes "HTTP/1.1 200 OK\r\nConte")
answer (suc zero) = bytes (codes "nt-Length: 2\r\n\r\n{")
answer (suc (suc zero)) = bytes (codes "}")
answer (suc (suc (suc n))) = timed_out

abbrev server : Device
server = record { recv = λ i max. answer i }

recv_packet-join_example : recv_packet server [] 0 4 ≡ packet (reply_head ++ codes "{}") 3
unfolding reply_head-Head announced atoi trim cut_spaces skip_spaces
recv_packet-join_example =
    recv_packet-join reply_head-Head (codes "{}") server 4
      (codes "HTTP/1.1 200 OK\r\nConte" ∷ codes "nt-Length: 2\r\n\r\n{" ∷ codes "}" ∷ [])
      (omega arith, refl, (omega arith, refl, (omega arith, refl, tt))) refl refl (omega arith)

-- A device that gives one byte for each receive, at most.
abbrev drip : ℕ → Received
drip zero = timed_out
drip (suc n) = bytes (b'x' ∷ [])

abbrev dripping : Device
dripping = record { recv = λ i max. drip max }

dripping-Receives : Receives dripping
dripping-Receives i zero b h = cc
dripping-Receives i (suc n) b h = ground arith

recv_packet-Fits_example : Fits (recv_packet dripping [] 0 2048)
recv_packet-Fits_example = recv_packet-Fits dripping 0 dripping-Receives

abbrev pub image : File
image = record {
  name = codes "app.img";
  kind = type_app;
  version = codes "2.0";
  path = codes "https://host/app.img";
  md5 = [];
  size = 4;
  start = 0;
  status = uncomplete;
  task_id = 1;
  item_id = 1;
}

abbrev pub trade : Trade
trade = record {
  kind = Kind.getterm_task;
  message = [];
  current = 0;
  files = image ∷ [];
  hashed = [];
}

abbrev pub terminal : Terminal
terminal = record {
  send = λ t b. pos 0;
  device = server;
  connect = λ t. pos 0;
  write = λ t. pos 0;
  digest = λ b. b;
}

abbrev pub before : State
before = record { trade = trade; log = []; clock = 0 }

one_file : (i : ℕ) (f : File) → get_elem? (image ∷ []) i ≡ some f → (i ≡ 0) × (f ≡ image)
one_file zero f h = (refl, cc)
one_file (suc i) f h = cc

before-IsSound : IsSound terminal before
before-IsSound = record {
  apart = λ i j f g ne x y. absurd (ne (omega (arith, (one_file i f x).0, (one_file j g y).0)));
  whole = λ i f x. rw (one_file i f x).1 tt;
  fresh = λ i f h x. absurd (omega (arith, (one_file i f x).0));
  tracks = λ f x. inl (rw (one_file 0 f x).1 refl);
}

download_files-IsSound_example : IsSound terminal (download_files terminal before none 3).0
download_files-IsSound_example = download_files-IsSound terminal before none 3 before-IsSound

abbrev machine : Machine
machine = record {
  rename = λ t. pos 0;
  unzip = λ t. pos 0;
  install = λ t. negsuc 1;
  read = λ t. (negsuc 0, 0);
  send = λ t. pos 0;
  size = λ t. 9000;
  wifi_older = λ v t. pos 1;
}

abbrev downloaded : Trade
downloaded = record trade { files = record image { status = complete } ∷ [] }

abbrev start : Run
start = record { trade = downloaded; acts = []; clock = 0 }

update_api-InOrder_example : InOrder (update_api machine 9 start).0.acts
update_api-InOrder_example = update_api-InOrder machine 9 downloaded

base64_decode-encode_example :
    base64_decode (base64_encode 7 (72 ∷ 105 ∷ [])) ≡ some (72 ∷ 105 ∷ [])
base64_decode-encode_example =
    base64_decode-encode 7 (72 ∷ 105 ∷ []) (omega arith) (omega arith) (omega arith)
