-- ===== src/Seed/AuditLogs.antt =====
-- internal/seed/data.go: AuditLogSeedData. All calls of `time.Now()` give the same moment, and a map is the text
-- of its JSON.
use logtrace_backend.Common.{◌*◌, ◌-◌, List, [], ◌∷◌}
use logtrace_backend.Common.Int.{pos}
use logtrace_backend.Domain.{Time}
use logtrace_backend.Trail.{AuditLog}
use logtrace_backend.Seed.{hour, minute, zero_details, zero_audit_log}

abbrev user_created : Time → AuditLog
user_created now = record zero_audit_log {
  name = "user.created";
  timestamp = now - (2 * hour);
  request_details = record zero_details {
    timestamp = now - (2 * hour);
    http_method = "POST";
    http_endpoint = "/users";
    http_status_code = pos 201;
    ip_address = "192.168.1.10";
    client_user_agent = "Chrome 114";
    geo_ip_location = "New York, US";
    request_headers = "{\"Content-Type\":\"application/json\"}";
    request_duration = "200ms";
  };
  user_id = "usr_001";
  user_name = "alice morgan";
  metadata = "{\"email\":\"alice.morgan@example.com\"}";
}

abbrev user_role_changed : Time → AuditLog
user_role_changed now = record zero_audit_log {
  name = "user.role_changed";
  timestamp = now - (90 * minute);
  request_details = record zero_details {
    timestamp = now - (90 * minute);
    http_method = "PATCH";
    http_endpoint = "/users/role";
    http_status_code = pos 200;
    ip_address = "192.168.1.20";
    client_user_agent = "Safari 16";
    geo_ip_location = "San Francisco, US";
    request_headers = "{\"Content-Type\":\"application/json\"}";
    request_duration = "150ms";
  };
  user_id = "usr_002";
  user_name = "bob hartley";
  metadata = "{\"new_role\":\"admin\",\"old_role\":\"member\"}";
}

abbrev api_key_revoked : Time → AuditLog
api_key_revoked now = record zero_audit_log {
  name = "api_key.revoked";
  timestamp = now - (80 * minute);
  request_details = record zero_details {
    timestamp = now - (80 * minute);
    http_method = "DELETE";
    http_endpoint = "/api-keys";
    http_status_code = pos 200;
    ip_address = "172.16.0.20";
    client_user_agent = "Firefox 115";
    geo_ip_location = "London, GB";
    request_headers = "{\"Content-Type\":\"application/json\"}";
    request_duration = "120ms";
  };
  user_id = "usr_003";
  user_name = "carol nguyen";
  metadata = "{\"key_prefix\":\"ltk_test\"}";
}

abbrev billing_subscription_upgraded : Time → AuditLog
billing_subscription_upgraded now = record zero_audit_log {
  name = "billing.subscription_upgraded";
  timestamp = now - (70 * minute);
  request_details = record zero_details {
    timestamp = now - (70 * minute);
    http_method = "PUT";
    http_endpoint = "/billing/subscription";
    http_status_code = pos 200;
    ip_address = "203.0.113.45";
    client_user_agent = "okhttp";
    geo_ip_location = "Tokyo, JP";
    request_headers = "{\"Content-Type\":\"application/json\"}";
    request_duration = "180ms";
  };
  user_id = "usr_004";
  user_name = "david okafor";
  metadata = "{\"from_plan\":\"starter\",\"to_plan\":\"growth\"}";
}

abbrev organization_settings_updated : Time → AuditLog
organization_settings_updated now = record zero_audit_log {
  name = "organization.settings_updated";
  timestamp = now - (60 * minute);
  request_details = record zero_details {
    timestamp = now - (60 * minute);
    http_method = "PATCH";
    http_endpoint = "/organization/settings";
    http_status_code = pos 200;
    ip_address = "198.51.100.33";
    client_user_agent = "Chrome 114";
    geo_ip_location = "Stockholm, SE";
    request_headers = "{\"Content-Type\":\"application/json\"}";
    request_duration = "160ms";
  };
  user_id = "usr_005";
  user_name = "emily svensson";
  metadata = "{\"fields\":\"name,timezone\"}";
}

abbrev invitation_sent : Time → AuditLog
invitation_sent now = record zero_audit_log {
  name = "invitation.sent";
  timestamp = now - (50 * minute);
  request_details = record zero_details {
    timestamp = now - (50 * minute);
    http_method = "POST";
    http_endpoint = "/invitations";
    http_status_code = pos 201;
    ip_address = "192.0.2.88";
    client_user_agent = "Postman";
    geo_ip_location = "Berlin, DE";
    request_headers = "{\"Content-Type\":\"application/json\"}";
    request_duration = "220ms";
  };
  user_id = "usr_006";
  user_name = "frank delacroix";
  metadata = "{\"invited_email\":\"new.member@example.com\"}";
}

abbrev two_factor_enabled : Time → AuditLog
two_factor_enabled now = record zero_audit_log {
  name = "two_factor.enabled";
  timestamp = now - (40 * minute);
  request_details = record zero_details {
    timestamp = now - (40 * minute);
    http_method = "POST";
    http_endpoint = "/settings/2fa";
    http_status_code = pos 200;
    ip_address = "192.168.1.20";
    client_user_agent = "Safari 16";
    geo_ip_location = "San Francisco, US";
    request_headers = "{\"Content-Type\":\"application/json\"}";
    request_duration = "150ms";
  };
  user_id = "usr_007";
  user_name = "grace kimani";
  metadata = "{\"method\":\"totp\"}";
}

abbrev data_export_requested : Time → AuditLog
data_export_requested now = record zero_audit_log {
  name = "data.export_requested";
  timestamp = now - (30 * minute);
  request_details = record zero_details {
    timestamp = now - (30 * minute);
    http_method = "POST";
    http_endpoint = "/data/export";
    http_status_code = pos 202;
    ip_address = "192.168.1.25";
    client_user_agent = "python-requests";
    geo_ip_location = "New York, US";
    request_headers = "{\"Content-Type\":\"application/json\"}";
    request_duration = "200ms";
  };
  user_id = "usr_008";
  user_name = "henry walker";
  metadata = "{\"format\":\"json\",\"resource\":\"audit_logs\"}";
}

abbrev webhook_deleted : Time → AuditLog
webhook_deleted now = record zero_audit_log {
  name = "webhook.deleted";
  timestamp = now - (20 * minute);
  request_details = record zero_details {
    timestamp = now - (20 * minute);
    http_method = "DELETE";
    http_endpoint = "/webhooks";
    http_status_code = pos 200;
    ip_address = "192.168.1.30";
    client_user_agent = "node-fetch";
    geo_ip_location = "London, GB";
    request_headers = "{\"Content-Type\":\"application/json\"}";
    request_duration = "140ms";
  };
  user_id = "usr_009";
  user_name = "isabella costa";
  metadata = "{\"webhook_url\":\"https://hooks.example.com/old\"}";
}

abbrev session_force_logout : Time → AuditLog
session_force_logout now = record zero_audit_log {
  name = "session.force_logout";
  timestamp = now - (10 * minute);
  request_details = record zero_details {
    timestamp = now - (10 * minute);
    http_method = "POST";
    http_endpoint = "/session/force-logout";
    http_status_code = pos 200;
    ip_address = "10.10.0.1";
    client_user_agent = "Chrome 114";
    geo_ip_location = "Windows 11";
    request_headers = "{\"Content-Type\":\"application/json\"}";
    request_duration = "120ms";
  };
  user_id = "usr_010";
  user_name = "james otieno";
  metadata = "{\"reason\":\"suspicious_activity\"}";
}

unfoldable pub audit_log_seed_data : Time → List AuditLog
audit_log_seed_data now =
    user_created now
    ∷ user_role_changed now
    ∷ api_key_revoked now
    ∷ billing_subscription_upgraded now
    ∷ organization_settings_updated now
    ∷ invitation_sent now
    ∷ two_factor_enabled now
    ∷ data_export_requested now
    ∷ webhook_deleted now
    ∷ session_force_logout now
    ∷ []
