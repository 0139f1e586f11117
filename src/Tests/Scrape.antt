-- ===== src/Tests/Scrape.antt =====
-- Scrapes of the metrics under a configuration.
use Prim.Native.String.{String}
use logtrace_backend.Common.{
  ℕ, ◌+◌, ◌≡◌, refl, true, ◌↔◌, ◌==◌, nat_eq, string_eq, if◌then◌else◌, ==_iff, Bool-cases, inl,
  inr, arith, some,
}
use logtrace_backend.Common.Int.{pos}
use logtrace_backend.GoText.{is_string_empty, trim_space, trim_left, trim_right, is_space}
use logtrace_backend.Domain.{ok}
use logtrace_backend.Config.{Config, validate, with_default_ports}
use logtrace_backend.Routing.Metrics.{Outcome, metrics_endpoint, metrics_endpoint-serves}

abbrev compare_texts : String → String → ℕ
compare_texts s t = if s == t then 1 else 0

compares_texts : (s t : String) → (compare_texts s t ≡ 1) ↔ (s ≡ t)
compares_texts s t = elim (Bool-cases (s == t)) [
  | inl e ↦ (λ h. (==_iff s t).0 e, λ h. ground arith)
  | inr e ↦ (λ h. absurd (ground arith), λ h. absurd (ground (arith, (==_iff s t).1 h)))
]

abbrev pub with_ports : ℕ → ℕ → Config
with_ports port swagger = record {
  sender = "team@logtrace.io";
  http_port = pos port;
  swagger_port = pos swagger;
  metrics_password = "secret";
  metrics_username = "prometheus";
  hash_secret = "hash";
  google_client_id = "client";
  google_client_secret = "google";
  jwt_key = "jwt";
  csrf_secret = "csrf";
  trial_days = pos 14;
}

ports_filled : validate (λ s. true) (with_ports 0 0) ≡ ok (with_ports 8080 8081)
unfolding validate with_default_ports is_string_empty trim_space trim_left trim_right is_space
ports_filled = refl

abbrev scrape : ℕ → String × ℕ
scrape n = ("up 1", n + 1)

metrics_endpoint-serves_example :
    Outcome
      (λ s. true)
      compare_texts
      compares_texts
      scrape
      (with_ports 8080 8081)
      (some ("prometheus", "secret"))
      0
      (metrics_endpoint compare_texts scrape true
        (with_ports 8080 8081)
        (some ("prometheus", "secret"))
        0)
metrics_endpoint-serves_example =
    metrics_endpoint-serves (λ s. true) compare_texts compares_texts scrape (with_ports 0 0)
      (with_ports 8080 8081) (some ("prometheus", "secret")) 0 ports_filled
