-- ===== src/Manager/Options.antt =====
-- cmd/main.go: the flags, and the options of the servers and of the manager that come from them.
use churnless.Base.{
  Bool, true, false, Option, none, some, String, List, [], ◌∷◌, if◌then◌else◌, str_eq,
}

-- What flag.Parse leaves in the variables.
pub record Flags : Type 0 where
  pub metrics_bind_address : String
  pub health_probe_bind_address : String
  pub leader_elect : Bool
  pub metrics_secure : Bool
  pub webhook_cert_path : String
  pub webhook_cert_name : String
  pub webhook_cert_key : String
  pub metrics_cert_path : String
  pub metrics_cert_name : String
  pub metrics_cert_key : String
  pub enable_http2 : Bool

-- Without arguments.
abbrev pub default_flags : Flags
default_flags = record {
  metrics_bind_address = "0";
  health_probe_bind_address = ":8081";
  leader_elect = false;
  metrics_secure = true;
  webhook_cert_path = "";
  webhook_cert_name = "tls.crt";
  webhook_cert_key = "tls.key";
  metrics_cert_path = "";
  metrics_cert_name = "tls.crt";
  metrics_cert_key = "tls.key";
  enable_http2 = false;
}

-- tls.Config; `rest` stands for its other fields.
pub record TlsConfig : Type 0 where
  pub next_protos : List String
  pub rest : String

abbrev pub TlsOption : Type 0
TlsOption = TlsConfig → TlsConfig

-- `len(path) > 0`
abbrev is_given : String → Bool
is_given path = if str_eq path "" then false else true

-- CertDir, CertName and KeyName
pub record Certificate : Type 0 where
  pub cert_dir : String
  pub cert_name : String
  pub key_name : String

abbrev certificate_of : String → String → String → Certificate
certificate_of path name key =
    if is_given path
    then record { cert_dir = path; cert_name = name; key_name = key }
    else record { cert_dir = ""; cert_name = ""; key_name = "" }

pub record WebhookOptions : Type 0 where
  pub tls_opts : List TlsOption
  pub certificate : Certificate

pub data FilterProvider : Type 0 where
  with_authentication_and_authorization : FilterProvider

pub record MetricsOptions : Type 0 where
  pub bind_address : String
  pub secure_serving : Bool
  pub tls_opts : List TlsOption
  pub filter_provider : Option FilterProvider
  pub certificate : Certificate

-- ctrl.Options, with the options of the webhook server in place of the server.
pub record ManagerOptions : Type 0 where
  pub metrics : MetricsOptions
  pub webhook_server : WebhookOptions
  pub health_probe_bind_address : String
  pub leader_election : Bool
  pub leader_election_id : String

unfoldable pub disable_http2 : TlsOption
disable_http2 c = record c { next_protos = "http/1.1" ∷ [] }

unfoldable pub tls_options : Flags → List TlsOption
unfolding disable_http2
tls_options flags = if flags.enable_http2 then [] else disable_http2 ∷ []

unfoldable pub webhook_options : Flags → WebhookOptions
unfolding tls_options
webhook_options flags = record {
  tls_opts = tls_options flags;
  certificate =
      certificate_of flags.webhook_cert_path flags.webhook_cert_name flags.webhook_cert_key;
}

unfoldable pub metrics_options : Flags → MetricsOptions
unfolding tls_options
metrics_options flags = record {
  bind_address = flags.metrics_bind_address;
  secure_serving = flags.metrics_secure;
  tls_opts = tls_options flags;
  filter_provider =
      if flags.metrics_secure then some with_authentication_and_authorization else none;
  certificate =
      certificate_of flags.metrics_cert_path flags.metrics_cert_name flags.metrics_cert_key;
}

unfoldable pub manager_options : Flags → ManagerOptions
unfolding webhook_options metrics_options
manager_options flags = record {
  metrics = metrics_options flags;
  webhook_server = webhook_options flags;
  health_probe_bind_address = flags.health_probe_bind_address;
  leader_election = flags.leader_elect;
  leader_election_id = "4f928859.churnless.io";
}
