-- ===== src/Manager/Options.antt =====
-- The flags of cmd/main.go, and the options for the servers and the manager that it makes of them.
pub mod Protocols
use backup_operator.Base.{String, Bool, true, false, List, [], ◌∷◌, is_empty, if◌then◌else◌}

-- The variables that `flag.Parse` fills.
pub record Flags : Type 0 where
  pub metrics_addr : String
  pub metrics_cert_path : String
  pub metrics_cert_name : String
  pub metrics_cert_key : String
  pub webhook_cert_path : String
  pub webhook_cert_name : String
  pub webhook_cert_key : String
  pub enable_leader_election : Bool
  pub probe_addr : String
  pub secure_metrics : Bool
  pub enable_http2 : Bool

-- Their values when no flag is given.
abbrev pub default_flags : Flags
default_flags = record {
  metrics_addr = "0";
  metrics_cert_path = "";
  metrics_cert_name = "tls.crt";
  metrics_cert_key = "tls.key";
  webhook_cert_path = "";
  webhook_cert_name = "tls.crt";
  webhook_cert_key = "tls.key";
  enable_leader_election = false;
  probe_addr = ":8081";
  secure_metrics = true;
  enable_http2 = false;
}

-- The part of a `tls.Config` that the options write, and the rest of it.
pub record TlsConfig : Type 0 where
  pub next_protos : List String
  pub other : String

abbrev pub TlsOption : Type 0
TlsOption = TlsConfig → TlsConfig

unfoldable pub disable_http2 : TlsOption
disable_http2 c = record c { next_protos = "http/1.1" ∷ [] }

unfoldable pub tls_opts : Flags → List TlsOption
tls_opts flags = if flags.enable_http2 then [] else disable_http2 ∷ []

pub record WebhookOptions : Type 0 where
  pub tls_opts : List TlsOption
  pub cert_dir : String
  pub cert_name : String
  pub key_name : String

unfoldable pub webhook_server_options : Flags → WebhookOptions
webhook_server_options flags =
    let bare : WebhookOptions = record {
      tls_opts = tls_opts flags;
      cert_dir = "";
      cert_name = "";
      key_name = "";
    } in
    if is_empty flags.webhook_cert_path then bare else record bare {
      cert_dir = flags.webhook_cert_path;
      cert_name = flags.webhook_cert_name;
      key_name = flags.webhook_cert_key;
    }

-- `filters.WithAuthenticationAndAuthorization`, the one provider that the program uses.
pub data FilterProvider : Type 0 where
  no_filter with_authentication_and_authorization : FilterProvider

pub record MetricsOptions : Type 0 where
  pub bind_address : String
  pub secure_serving : Bool
  pub tls_opts : List TlsOption
  pub filter_provider : FilterProvider
  pub cert_dir : String
  pub cert_name : String
  pub key_name : String

unfoldable pub metrics_server_options : Flags → MetricsOptions
metrics_server_options flags =
    let bare : MetricsOptions = record {
      bind_address = flags.metrics_addr;
      secure_serving = flags.secure_metrics;
      tls_opts = tls_opts flags;
      filter_provider =
          if flags.secure_metrics then with_authentication_and_authorization else no_filter;
      cert_dir = "";
      cert_name = "";
      key_name = "";
    } in
    if is_empty flags.metrics_cert_path then bare else record bare {
      cert_dir = flags.metrics_cert_path;
      cert_name = flags.metrics_cert_name;
      key_name = flags.metrics_cert_key;
    }

pub record ManagerOptions : Type 0 where
  pub metrics : MetricsOptions
  pub webhook_server : WebhookOptions
  pub health_probe_bind_address : String
  pub leader_election : Bool
  pub leader_election_id : String

unfoldable pub manager_options : Flags → ManagerOptions
manager_options flags = record {
  metrics = metrics_server_options flags;
  webhook_server = webhook_server_options flags;
  health_probe_bind_address = flags.probe_addr;
  leader_election = flags.enable_leader_election;
  leader_election_id = "a6ca9057.mybackup.com";
}
