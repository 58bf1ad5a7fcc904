-- ===== src/Config/Init.antt =====
-- param.c: applyMqttParam, and the parts of initParam and saveParam over sys_param.dat.
use service_payment_bridge.Prelude.{
  ℕ, ◌<◌, ◌≡◌, refl, Option, none, some, [], ◌∷◌, ◌++◌, Bytes, codes, length, ℤ, pos,
}
use service_payment_bridge.Config.Lines.{Cfg, copy, read_mqtt_cfg}

pub data Commode : Type 0 where
  wifi sim : Commode

-- SYS_PARAM, less the reserved bytes.
pub record SysParam : Type 0 where
  pub mqtt_server : Bytes
  pub mqtt_port : Bytes
  pub mqtt_ssl : ℤ
  pub mqtt_qos : ℕ
  pub mqtt_keepalive : ℕ
  pub mqtt_topic : Bytes
  pub mqtt_client_id : Bytes
  pub sn : Bytes
  pub sound_level : ℕ
  pub commode : Commode
  pub wifi_ssid : Bytes
  pub wifi_pwd : Bytes

-- G_sys_param and the MQTT variables of param.c.
pub record Device : Type 0 where
  pub sys : SysParam
  pub merchant : Bytes
  pub user : Bytes
  pub pass : Bytes
  pub device_topic : Bytes
  pub request_topic : Bytes

abbrev pub default_cfg : Cfg
default_cfg = record {
  server = codes "192.168.137.1";
  port = codes "18883";
  ssl = pos 1;
  merchant = [];
  user = [];
  pass = [];
}

-- applyMqttParam, with what ReadFile_Api gives of MQTT_CFG_FILE.
unfoldable pub apply_mqtt_param : Option Bytes → SysParam → Device
apply_mqtt_param file p =
    let g = read_mqtt_cfg file default_cfg in
    record {
      sys = record p {
        mqtt_server = g.server;
        mqtt_port = g.port;
        mqtt_ssl = g.ssl;
        mqtt_qos = 1;
        mqtt_keepalive = 60;
        mqtt_client_id = copy 32 (codes "clientId-" ++ p.sn);
      };
      merchant = g.merchant;
      user = g.user;
      pass = g.pass;
      device_topic = copy 96 (codes "topic/" ++ (g.merchant ++ b'/' ∷ p.sn));
      request_topic = copy 96 (codes "qris/request/" ++ (g.merchant ++ b'/' ∷ p.sn));
    }

-- memset(&G_sys_param, 0, sizeof(SYS_PARAM)); TRANCOMM_SIM stands for the zero of `commode`.
abbrev pub zero_param : SysParam
zero_param = record {
  mqtt_server = [];
  mqtt_port = [];
  mqtt_ssl = pos 0;
  mqtt_qos = 0;
  mqtt_keepalive = 0;
  mqtt_topic = [];
  mqtt_client_id = [];
  sn = [];
  sound_level = 0;
  commode = Commode.sim;
  wifi_ssid = [];
  wifi_pwd = [];
}

-- initParam behind the card settings: `stored` is sys_param.dat when its size is right and it was read
-- whole, `serial` what readSN gives. The second part is what saveParam writes.
unfoldable pub init_param : Option SysParam → Bytes → Option Bytes → Device × SysParam
init_param (some p) serial file =
    let d = apply_mqtt_param file (record p { sn = serial }) in (d, d.sys)
init_param none serial file =
    let d = apply_mqtt_param file (record zero_param { sn = serial }) in
    let d' : Device = record d {
      sys = record (d.sys) { sound_level = 1; commode = Commode.wifi };
    } in
    (d', d'.sys)

-- Every string of the settings fits its array.
pub record Fits (g : Cfg) : Type 0 where
  pub server_fits : length g.server < 128
  pub port_fits : length g.port < 8
  pub merchant_fits : length g.merchant < 32
  pub user_fits : length g.user < 64
  pub pass_fits : length g.pass < 64

-- The MQTT settings, with the QoS and the keep-alive, are those of the firmware and the settings file,
-- whatever was stored, and the stored WiFi credentials, mode and volume are kept; what is saved is what is
-- used, and a restart that reads what was saved comes up with the same settings and saves the same.
pub init_param-stored :
    (p q : SysParam) (serial : Bytes) (file : Option Bytes)
    → let r = init_param (some p) serial file in
      let d = r.0 in
      let e = (init_param (some q) serial file).0 in
      let f = (init_param none serial file).0 in
      (d.sys.mqtt_server ≡ e.sys.mqtt_server)
      × (d.sys.mqtt_server ≡ f.sys.mqtt_server)
      × (d.sys.mqtt_port ≡ f.sys.mqtt_port)
      × (d.sys.mqtt_ssl ≡ f.sys.mqtt_ssl)
      × (d.sys.mqtt_qos ≡ 1)
      × (f.sys.mqtt_qos ≡ 1)
      × (d.sys.mqtt_keepalive ≡ f.sys.mqtt_keepalive)
      × (d.sys.mqtt_client_id ≡ f.sys.mqtt_client_id)
      × (d.device_topic ≡ f.device_topic)
      × (d.request_topic ≡ f.request_topic)
      × (d.sys.wifi_ssid ≡ p.wifi_ssid)
      × (d.sys.wifi_pwd ≡ p.wifi_pwd)
      × (d.sys.commode ≡ p.commode)
      × (d.sys.sound_level ≡ p.sound_level)
      × (r.1 ≡ d.sys)
      × (init_param (some r.1) serial file ≡ r)
      × (init_param (some (init_param none serial file).1) serial file
          ≡ init_param none serial file)
unfolding init_param apply_mqtt_param
init_param-stored p q serial file = (
  refl, refl, refl, refl, refl, refl, refl, refl, refl, refl, refl, refl, refl, refl, refl, refl,
  refl,
)
