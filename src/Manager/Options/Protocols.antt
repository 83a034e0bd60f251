-- ===== src/Manager/Options/Protocols.antt =====
-- What the servers of the manager speak, and to whom.
use backup_operator.Base.{◌≡◌, refl, Bool-cases, inl, inr, List, [], ◌∷◌, is_empty, if◌then◌else◌}
use backup_operator.Manager.Options.{
  Flags, TlsConfig, TlsOption, disable_http2, tls_opts, webhook_server_options,
  metrics_server_options, manager_options, no_filter, with_authentication_and_authorization,
}

-- A server applies the options to its configuration one after the other.
abbrev pub configured : List TlsOption → TlsConfig → TlsConfig
configured [] c = c
configured (o ∷ os) c = configured os (o c)

-- The protocols that a server offers: one, or those of its own configuration.
abbrev pub Offers : Flags → List TlsOption → Type 0
Offers flags os =
    (c : TlsConfig)
    → (configured os c).next_protos
      ≡ (if flags.enable_http2 then c.next_protos else "http/1.1" ∷ [])

tls_opts-Offers : (flags : Flags) → Offers flags (tls_opts flags)
unfolding tls_opts disable_http2
tls_opts-Offers flags c = elim (Bool-cases flags.enable_http2) [
  | inl on ↦ rw on refl
  | inr off ↦ rw off refl
]

webhook-tls_opts : (flags : Flags) → (webhook_server_options flags).tls_opts ≡ tls_opts flags
unfolding webhook_server_options
webhook-tls_opts flags = elim (Bool-cases (is_empty flags.webhook_cert_path)) [
  | inl empty ↦ rw empty refl
  | inr given ↦ rw given refl
]

metrics-tls_opts : (flags : Flags) → (metrics_server_options flags).tls_opts ≡ tls_opts flags
unfolding metrics_server_options
metrics-tls_opts flags = elim (Bool-cases (is_empty flags.metrics_cert_path)) [
  | inl empty ↦ rw empty refl
  | inr given ↦ rw given refl
]

metrics-filter :
    (flags : Flags)
    → (metrics_server_options flags).filter_provider
      ≡ (if flags.secure_metrics then with_authentication_and_authorization else no_filter)
unfolding metrics_server_options
metrics-filter flags = elim (Bool-cases (is_empty flags.metrics_cert_path)) [
  | inl empty ↦ rw empty refl
  | inr given ↦ rw given refl
]

metrics-secure_serving :
    (flags : Flags) → (metrics_server_options flags).secure_serving ≡ flags.secure_metrics
unfolding metrics_server_options
metrics-secure_serving flags = elim (Bool-cases (is_empty flags.metrics_cert_path)) [
  | inl empty ↦ rw empty refl
  | inr given ↦ rw given refl
]

-- Whatever certificates are given, both servers of the manager offer HTTP/1.1 alone unless HTTP/2 is
-- enabled, in which case their own protocols stay, and the metrics are served through
-- authentication and authorization exactly when they are served securely.
pub manager_options-Offers :
    (flags : Flags)
    → Offers flags (manager_options flags).webhook_server.tls_opts
      × Offers flags (manager_options flags).metrics.tls_opts
      × ((manager_options flags).metrics.filter_provider ≡ (
          if (manager_options flags).metrics.secure_serving
          then with_authentication_and_authorization
          else no_filter))
unfolding manager_options
manager_options-Offers flags = (
  λ c. rw (webhook-tls_opts flags) (tls_opts-Offers flags c),
  λ c. rw (metrics-tls_opts flags) (tls_opts-Offers flags c),
  rw (metrics-secure_serving flags) (metrics-filter flags),
)
