-- ===== src/Manager/Hardened.antt =====
-- The defaults of cmd/main.go that keep the servers safe.
use churnless.Base.{◌≡◌, refl, true, false, some, List, [], ◌∷◌}
use churnless.Manager.Options.{
  Flags, TlsConfig, TlsOption, with_authentication_and_authorization, ManagerOptions, tls_options,
  manager_options, webhook_options, metrics_options, disable_http2,
}

-- The options of a server are applied to its configuration in order.
abbrev pub configured : List TlsOption → TlsConfig → TlsConfig
configured [] c = c
configured (f ∷ fs) c = configured fs (f c)

pub record Hardened (options : ManagerOptions) : Type 0 where
  pub webhook_protos :
      (c : TlsConfig) → (configured options.webhook_server.tls_opts c).next_protos ≡ "http/1.1" ∷ []
  pub metrics_protos :
      (c : TlsConfig) → (configured options.metrics.tls_opts c).next_protos ≡ "http/1.1" ∷ []
  pub metrics_encrypted : options.metrics.secure_serving ≡ true
  pub metrics_filtered :
      options.metrics.filter_provider ≡ some with_authentication_and_authorization

-- Where HTTP/2 is not asked for and the metrics are not made insecure, whatever the other flags are:
-- both servers offer HTTP/1.1 alone, and the metrics are encrypted and only for those whom Kubernetes
-- authorizes.
pub manager_options-Hardened :
    (flags : Flags)
    → flags.enable_http2 ≡ false
    → flags.metrics_secure ≡ true
    → Hardened (manager_options flags)
unfolding manager_options webhook_options metrics_options tls_options disable_http2
manager_options-Hardened flags old secure = record {
  webhook_protos = λ c. rw old refl;
  metrics_protos = λ c. rw old refl;
  metrics_encrypted = secure;
  metrics_filtered = rw secure refl;
}
