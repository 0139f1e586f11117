-- ===== src/Config.antt =====
-- config/env.go: Validate, on the parts of Config that it reads. It returns the configuration with its
-- default ports; `parse_address` says whether mail.ParseAddress takes an address.
pub mod Checks
pub mod Env
pub mod Schema
use Prim.Native.String.{String}
use logtrace_backend.Common.{ℕ, zero, suc, Bool, true, false, not, if◌then◌else◌}
use logtrace_backend.Common.Int.{ℤ, pos, negsuc}
use logtrace_backend.GoText.{is_string_empty}
use logtrace_backend.Domain.{other, Result, ok, err}

pub record Config : Type 0 where
  pub sender : String
  pub http_port : ℤ
  pub swagger_port : ℤ
  pub metrics_password : String
  pub metrics_username : String
  pub hash_secret : String
  pub google_client_id : String
  pub google_client_secret : String
  pub jwt_key : String
  pub csrf_secret : String
  pub trial_days : ℤ

abbrev pub is_negative : ℤ → Bool
is_negative (pos n) = false
is_negative (negsuc n) = true

abbrev pub or_default : ℕ → ℤ → ℤ
or_default n (pos zero) = pos n
or_default n (pos (suc m)) = pos (suc m)
or_default n (negsuc m) = negsuc m

unfoldable pub with_default_ports : Config → Config
with_default_ports c = record c {
  http_port = or_default 8080 c.http_port;
  swagger_port = or_default 8081 c.swagger_port;
}

unfoldable pub validate : (String → Bool) → Config → Result Config
validate parse_address c =
    if not (parse_address c.sender)
    then err (other "email sender is invalid")
    else if is_negative c.http_port
    then err (other "please provide a valid HTTP port number greater than 0")
    else if is_string_empty c.metrics_password
    then err (other "metrics password must be provided if metrics is enabled")
    else if is_string_empty c.metrics_username
    then err (other "metrics username must be provided if metrics is enabled")
    else if is_string_empty c.hash_secret
    then err (other "you must provide a hash secret for your api keys")
    else if is_string_empty c.google_client_id
    then err (other "google client secret is needed")
    else if is_string_empty c.google_client_secret
    then err (other "client secret is required")
    else if is_string_empty c.jwt_key
    then err (other "please provide your JWT key")
    else if is_string_empty c.csrf_secret
    then err (other "please provide a secret for CSRF protection")
    else if is_negative c.trial_days
    then err (other "trial days must be 0 or greater than 0")
    else ok (with_default_ports c)
