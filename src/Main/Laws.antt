-- ===== src/Main/Laws.antt =====
-- The start of the manager, and what the flags give.
use workbench_operator.Base.{
  String, Bool, true, false, some, List, [], ◌∷◌, ◌++◌, ◌≡◌, refl, ◌≢◌, All, if◌then◌else◌, ◌⊎◌,
  inl, inr, Bool-cases, pos, arith,
}
use workbench_operator.Kube.{Container, SecurityContext, Service, Volume, VolumeMount}
use workbench_operator.Workbench.{Workbench, WorkbenchApp}
use workbench_operator.Storage.{
  s3, nfs, local, get_enabled_providers, if_wanted, provider_of, new_s3_provider, new_nfs_provider,
}
use workbench_operator.Job.{build_job, app_container, init_container}
use workbench_operator.Job.Laws.{IsConfined, build_job-security}
use workbench_operator.Main.{
  Flags, default_flags, config_of, TlsConfig, manager_options, HostCall, get_config, new_manager,
  set_up_controller, add_healthz_check, add_readyz_check, start_manager, Host, Ended, main,
}

-- The calls of the start, in order.
abbrev pub start_calls : Flags → List HostCall
start_calls f =
    get_config
    ∷ new_manager (manager_options f)
    ∷ set_up_controller (config_of f)
    ∷ add_healthz_check
    ∷ add_readyz_check
    ∷ start_manager
    ∷ []

-- The calls of a list in turn, up to the first one that fails.
module _ (H : Host) where
  pub run_until_failure : List HostCall → H.State → List HostCall → Ended
  run_until_failure [] s calls = record { exit_code = 0; calls = calls }
  run_until_failure (c ∷ cs) s calls =
      let rest = run_until_failure cs (H.run c s).1 (c ∷ calls) in
      if (H.run c s).0 then rest else record { exit_code = 1; calls = c ∷ calls }

-- The process makes the calls of the start in their order, each only if all before it succeeded, and
-- exits with 1 at the first that fails, or with 0 when all have succeeded.
main_lem :
    (H : Host) (f : Flags) (s : H.State) → main H f s ≡ run_until_failure H (start_calls f) s []
unfolding main run_until_failure
main_lem H f s = refl

abbrev pub apply_all : List (TlsConfig → TlsConfig) → TlsConfig → TlsConfig
apply_all [] c = c
apply_all (g ∷ gs) c = apply_all gs (g c)

-- What the options of both servers do to a TLS configuration: without the flag for HTTP/2 they leave
-- one that offers HTTP/1.1 alone, and with the flag they change nothing.
pub manager_options-http2 :
    (f : Flags) (c : TlsConfig)
    → let metrics = apply_all (manager_options f).metrics_tls_opts c in
      let webhook = apply_all (manager_options f).webhook_tls_opts c in
      ((f.enable_http2 ≡ false)
        × (metrics.next_protos ≡ "http/1.1" ∷ [])
        × (webhook.next_protos ≡ "http/1.1" ∷ []))
      ⊎ ((f.enable_http2 ≡ true) × (metrics ≡ c) × (webhook ≡ c))
unfolding manager_options
manager_options-http2 f c = elim (Bool-cases f.enable_http2) [
  | inl on ↦ rw on (inr (refl, refl, refl))
  | inr off ↦ rw off (inl (refl, refl, refl))
]

not_local :
    (wants_s3 wants_nfs wants_local : Bool)
    → All
        (λ b. b.storage_type ≢ local)
        (if_wanted wants_s3 (provider_of (config_of default_flags) s3)
          ++ (if_wanted wants_nfs (provider_of (config_of default_flags) nfs)
              ++ if_wanted wants_local (provider_of (config_of default_flags) local)))
unfolding config_of provider_of new_s3_provider new_nfs_provider
not_local true true true = (λ e. cc, (λ e. cc, tt))
not_local true true false = (λ e. cc, (λ e. cc, tt))
not_local true false true = (λ e. cc, tt)
not_local true false false = (λ e. cc, tt)
not_local false true true = (λ e. cc, tt)
not_local false true false = (λ e. cc, tt)
not_local false false true = tt
not_local false false false = tt

-- With the default flags no workbench gets a provider of local storage. The job of an app then has one
-- container, which runs as the user of the workbench and is confined, and one init container, which
-- runs as root with five capabilities, and cannot gain privileges and is not privileged.
pub default_flags_are_safe :
    (wb : Workbench) (uid : String) (app : WorkbenchApp) (service : Service) (vs : List Volume)
    (ms : List VolumeMount)
    → let p = (build_job wb (config_of default_flags) uid app service vs ms).template.spec in
      All (λ b. b.storage_type ≢ local) (get_enabled_providers (config_of default_flags) wb)
      × ((c : Container) × (s : SecurityContext) × (p.containers ≡ c ∷ [])
          × (c.security_context ≡ some s)
          × IsConfined s
          × (s.run_as_user ≡ some wb.spec.server.user_id))
      × ((c : Container) × (s : SecurityContext) × (p.init_containers ≡ c ∷ [])
          × (c.security_context ≡ some s)
          × (s.run_as_user ≡ some (pos 0))
          × (s.allow_privilege_escalation ≡ some false)
          × (s.privileged ≢ some true)
          × (s.capabilities
              ≡ some (record {
                add = "CHOWN" ∷ "SETUID" ∷ "SETGID" ∷ "DAC_OVERRIDE" ∷ "FOWNER" ∷ [];
                drop = "ALL" ∷ [];
              })))
unfolding config_of get_enabled_providers build_job app_container init_container
default_flags_are_safe wb uid app service vs ms =
    let ((s, e, confined, user), _) =
      (build_job-security wb (config_of default_flags) uid app service vs ms).0.0 refl in
    (
      not_local _ _ _,
      (_, s, refl, e, confined, user),
      (_, _, refl, refl, refl, refl, (λ q. ground arith), refl),
    )
