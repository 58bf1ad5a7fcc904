-- ===== src/Examples/Firmware.antt =====
-- monitor.c and param.c at concrete inputs.
use service_payment_bridge.Prelude.{
  ◌<◌, ◌≡◌, refl, none, some, List, [], ◌∷◌, ◌++◌, codes, arith, length,
}
use service_payment_bridge.Config.Bounds.{apply_mqtt_param-Fits}
use service_payment_bridge.Config.Init.{
  Commode, SysParam, zero_param, default_cfg, apply_mqtt_param, init_param, init_param-stored,
}
use service_payment_bridge.Config.Lines.{read_mqtt_cfg, skip_bom}
use service_payment_bridge.Config.Print.{Entry, print, apply_all, read_mqtt_cfg-print}

abbrev settings : List Entry
settings =
    record { key = codes "server"; value = codes "a.com" }
    ∷ record { key = codes "user"; value = codes "u" }
    ∷ []

read_mqtt_cfg-print_example :
    read_mqtt_cfg (some (print settings)) default_cfg ≡ apply_all settings default_cfg
unfolding skip_bom
read_mqtt_cfg-print_example =
    read_mqtt_cfg-print settings default_cfg (ground arith) (ground arith) (omega arith) refl

abbrev stored : SysParam
stored = record zero_param { wifi_ssid = codes "shop"; sound_level = 3 }

init_param-stored_example :
    let r = init_param (some stored) (codes "S1") none in
    let d = r.0 in
    let e = (init_param (some zero_param) (codes "S1") none).0 in
    let f = (init_param none (codes "S1") none).0 in
    (d.sys.mqtt_server ≡ e.sys.mqtt_server)
    × (d.sys.mqtt_server ≡ f.sys.mqtt_server)
    × (d.sys.mqtt_port ≡ f.sys.mqtt_port)
    × (d.sys.mqtt_ssl ≡ f.sys.mqtt_ssl)
    × (d.sys.mqtt_qos ≡ 1)
    × (f.sys.mqtt_qos ≡ 1)
    × (d.sys.mqtt_keepalive ≡ f.sys.mqtt_keepalive)
    × (d.sys.mqtt_client_id ≡ f.sys.mqtt_client_id)
    × (d.device_topic ≡ f.device_topic)
    × (d.request_topic ≡ f.request_topic)
    × (d.sys.wifi_ssid ≡ codes "shop")
    × (d.sys.wifi_pwd ≡ [])
    × (d.sys.commode ≡ Commode.sim)
    × (d.sys.sound_level ≡ 3)
    × (r.1 ≡ d.sys)
    × (init_param (some r.1) (codes "S1") none ≡ r)
    × (init_param (some (init_param none (codes "S1") none).1) (codes "S1") none
        ≡ init_param none (codes "S1") none)
init_param-stored_example = init_param-stored stored zero_param (codes "S1") none

apply_mqtt_param-Fits_example :
    let d = apply_mqtt_param none zero_param in
    (length d.sys.mqtt_server < 128)
    × (length d.sys.mqtt_port < 8)
    × (length d.merchant < 32)
    × (length d.user < 64)
    × (length d.pass < 64)
    × (d.device_topic ≡ codes "topic/" ++ (d.merchant ++ b'/' ∷ []))
    × (d.request_topic ≡ codes "qris/request/" ++ (d.merchant ++ b'/' ∷ []))
apply_mqtt_param-Fits_example = apply_mqtt_param-Fits none zero_param (omega arith)
