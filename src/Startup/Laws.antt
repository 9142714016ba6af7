-- ===== src/Startup/Laws.antt =====
-- When the proxy of Executables/ueapplcmproxymain.cpp serves, and with which status it ends.
use etsimec.Prelude.{Bool, true, Str, Outcome, ◌≡◌, ◌≢◌, arith, []}
use etsimec.Startup.{success, ProxyOptions, etsi_mec_options, proxy_body, exit_status}

-- Options that the proxy accepts.
pub record IsServable (validate : Str → Bool) (o : ProxyOptions) : Type 0 where
  pub rooted : o.api_root ≢ []
  pub valid : validate o.api_root ≡ true
  pub reachable : o.server_endpoint ≢ []

-- With such options the proxy does what its server does.
pub proxy_body-serves :
    (validate : Str → Bool) (serve : Str → Str → Outcome (Unit {0})) (o : ProxyOptions)
    → IsServable validate o
    → proxy_body validate serve o ≡ serve o.api_root o.server_endpoint
unfolding proxy_body etsi_mec_options
proxy_body-serves validate serve o h = ground (arith, h.rooted, h.valid, h.reachable)

-- It succeeds only with such options.
pub proxy_body-IsServable :
    (validate : Str → Bool) (serve : Str → Str → Outcome (Unit {0})) (o : ProxyOptions)
    → exit_status (proxy_body validate serve o) ≡ success
    → IsServable validate o
unfolding proxy_body etsi_mec_options exit_status
proxy_body-IsServable validate serve o e = record {
  rooted = λ h. ground arith;
  valid = ground arith;
  reachable = λ h. ground arith;
}
