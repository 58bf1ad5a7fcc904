-- ===== src/Config/Bounds.antt =====
-- param.c: the strings of the settings fit their arrays, and the topics are never cut.
use service_payment_bridge.Prelude.{
  take_short, ℕ, zero, suc, ◌≤◌, ◌<◌, ◌≡◌, refl, ap, Bool, true, false, Option, none, some, [], ◌∷◌,
  ◌++◌, Bytes, codes, length, cstr, length-append, length-take, take, if◌then◌else◌, arith, ℤ, sym,
  ◌∙◌,
}
use service_payment_bridge.Config.Init.{SysParam, Fits, default_cfg, apply_mqtt_param}
use service_payment_bridge.Config.Lines.{
  Cfg, apply_cfg_line, apply_line, read_lines, read_mqtt_cfg, line_of, skip_bom,
}

if-Fits : (b : Bool) (x y : Cfg) → Fits x → Fits y → Fits (if b then x else y)
if-Fits true x y h k = h
if-Fits false x y h k = k

server_Fits : (v : Bytes) (g : Cfg) → Fits g → Fits (record g { server = take 127 v })
server_Fits v g h = ground (arith, length-take 127 v)

port_Fits : (v : Bytes) (g : Cfg) → Fits g → Fits (record g { port = take 7 v })
port_Fits v g h = ground (arith, length-take 7 v)

ssl_Fits : (n : ℤ) (g : Cfg) → Fits g → Fits (record g { ssl = n })
ssl_Fits n g h = ground arith

merchant_Fits : (v : Bytes) (g : Cfg) → Fits g → Fits (record g { merchant = take 31 v })
merchant_Fits v g h = ground (arith, length-take 31 v)

user_Fits : (v : Bytes) (g : Cfg) → Fits g → Fits (record g { user = take 63 v })
user_Fits v g h = ground (arith, length-take 63 v)

pass_Fits : (v : Bytes) (g : Cfg) → Fits g → Fits (record g { pass = take 63 v })
pass_Fits v g h = ground (arith, length-take 63 v)

apply_cfg_line-Fits : (k v : Bytes) (g : Cfg) → Fits g → Fits (apply_cfg_line k v g)
unfolding apply_cfg_line
apply_cfg_line-Fits k v g h = if-Fits _ _ _ (server_Fits v g h) (
    if-Fits _ _ _ (port_Fits v g h) (
      if-Fits _ _ _ (ssl_Fits _ g h) (
        if-Fits _ _ _ (merchant_Fits v g h)
          (if-Fits _ _ _ (user_Fits v g h) (if-Fits _ _ _ (pass_Fits v g h) h)))))

apply_line-Fits : (l : Bytes) (g : Cfg) → Fits g → Fits (apply_line l g)
unfolding apply_line
apply_line-Fits l g h = grind (arith, apply_cfg_line-Fits)

read_lines-Fits : (f : ℕ) (s : Bytes) (g : Cfg) → Fits g → Fits (read_lines f s g)
unfolding read_lines
read_lines-Fits zero s g h = h
read_lines-Fits (suc f) [] g h = h
read_lines-Fits (suc f) (c ∷ s) g h =
    grind (arith, read_lines-Fits f, apply_line-Fits (line_of (c ∷ s)) g h)

default_cfg-Fits : Fits default_cfg
default_cfg-Fits = omega arith

read_mqtt_cfg-Fits : (file : Option Bytes) → Fits (read_mqtt_cfg file default_cfg)
unfolding read_mqtt_cfg
read_mqtt_cfg-Fits none = default_cfg-Fits
read_mqtt_cfg-Fits (some b) =
    let s = skip_bom (cstr (take 512 b)) in
    read_lines-Fits (suc (length s)) s default_cfg default_cfg-Fits

-- Whatever the settings file holds, each setting fits its array; and with a serial number of at most
-- 31 bytes neither topic is cut.
pub apply_mqtt_param-Fits :
    (file : Option Bytes) (p : SysParam)
    → length p.sn ≤ 31
    → let d = apply_mqtt_param file p in
      (length d.sys.mqtt_server < 128)
      × (length d.sys.mqtt_port < 8)
      × (length d.merchant < 32)
      × (length d.user < 64)
      × (length d.pass < 64)
      × (d.device_topic ≡ codes "topic/" ++ (d.merchant ++ b'/' ∷ p.sn))
      × (d.request_topic ≡ codes "qris/request/" ++ (d.merchant ++ b'/' ∷ p.sn))
unfolding apply_mqtt_param
apply_mqtt_param-Fits file p h =
    let g = read_mqtt_cfg file default_cfg in
    let v = read_mqtt_cfg-Fits file in
    let l = length-append {0} g.merchant (b'/' ∷ p.sn) in
    (
      v.server_fits,
      v.port_fits,
      v.merchant_fits,
      v.user_fits,
      v.pass_fits,
      take_short 95 _ (omega arith),
      take_short 95 _ (omega arith),
    )

take_all : (n : ℕ) (s t : Bytes) → length s ≡ n → take n (s ++ t) ≡ s
take_all zero [] t h = refl
take_all zero (c ∷ s) t h = absurd (omega arith)
take_all (suc n) [] t h = absurd (omega arith)
take_all (suc n) (c ∷ s) t h = ap (◌∷◌ c) (take_all n s t (omega arith))

-- The client id is cut to 31 bytes: serial numbers that agree on their first 22 bytes give one client
-- id, whatever follows.
pub client_id_collision :
    (file : Option Bytes) (p : SysParam) (s t u : Bytes)
    → length s ≡ 22
    → (apply_mqtt_param file (record p { sn = s ++ t })).sys.mqtt_client_id
      ≡ (apply_mqtt_param file (record p { sn = s ++ u })).sys.mqtt_client_id
unfolding apply_mqtt_param
client_id_collision file p s t u h =
    ap (λ x. codes "clientId-" ++ x) (take_all 22 s t h ∙ sym (take_all 22 s u h))
