-- ===== src/Seed/Events.antt =====
-- internal/seed/data.go: EventSeedData. All calls of `time.Now()` give the same moment, and a map is the text
-- of its JSON.
use logtrace_backend.Common.{List, [], ◌∷◌}
use logtrace_backend.Common.Int.{pos}
use logtrace_backend.Domain.{Time}
use logtrace_backend.Trail.{Event}
use logtrace_backend.Seed.{zero_details, zero_event}

abbrev user_login : Time → Event
user_login now = record zero_event {
  event_type = "authentication";
  username = "alice morgan";
  user_id = "usr_001";
  request_details = record zero_details {
    timestamp = now;
    http_method = "POST";
    http_endpoint = "/auth/login";
    http_status_code = pos 200;
    ip_address = "192.168.1.10";
    client_user_agent = "Mozilla/5.0 (Windows NT 10.0; Win64; x64) Chrome/114.0";
    geo_ip_location = "New York, US";
    request_headers = "{\"Content-Type\":\"application/json\"}";
    request_duration = "150ms";
  };
  name = "user.login";
  metadata = "{\"browser\":\"Chrome\",\"os\":\"Windows 10\"}";
  created_at = now;
}

abbrev user_logout : Time → Event
user_logout now = record zero_event {
  event_type = "authentication";
  username = "bob hartley";
  user_id = "usr_002";
  request_details = record zero_details {
    timestamp = now;
    http_method = "POST";
    http_endpoint = "/auth/logout";
    http_status_code = pos 200;
    ip_address = "192.168.1.11";
    operating_system = "macOS Ventura";
    client_user_agent = "Mozilla/5.0 (Macintosh; Intel Mac OS X 13_4) Safari/16.0";
    geo_ip_location = "San Francisco, US";
    request_headers = "{\"Content-Type\":\"application/json\"}";
    request_duration = "100ms";
  };
  name = "user.logout";
  metadata = "{\"browser\":\"Safari\",\"os\":\"macOS\"}";
  created_at = now;
}

abbrev payment_initiated : Time → Event
payment_initiated now = record zero_event {
  event_type = "transaction";
  username = "carol nguyen";
  user_id = "usr_003";
  request_details = record zero_details {
    timestamp = now;
    http_method = "POST";
    http_endpoint = "/payments";
    http_status_code = pos 201;
    ip_address = "172.16.0.20";
    client_user_agent = "axios/1.4.0";
    geo_ip_location = "London, GB";
    request_headers = "{\"Content-Type\":\"application/json\"}";
    request_duration = "150ms";
  };
  name = "payment.initiated";
  metadata = "{\"amount\":\"99.99\",\"currency\":\"USD\"}";
  created_at = now;
}

abbrev profile_updated : Time → Event
profile_updated now = record zero_event {
  event_type = "account";
  username = "david okafor";
  user_id = "usr_004";
  request_details = record zero_details {
    timestamp = now;
    http_method = "PATCH";
    http_endpoint = "/users/profile";
    http_status_code = pos 200;
    ip_address = "203.0.113.45";
    client_user_agent = "okhttp/4.9.3";
    geo_ip_location = "Lagos, NG";
    request_headers = "{\"Content-Type\":\"application/json\"}";
    request_duration = "100ms";
  };
  name = "profile.updated";
  metadata = "{\"fields_changed\":\"email,phone\"}";
  created_at = now;
}

abbrev document_uploaded : Time → Event
document_uploaded now = record zero_event {
  event_type = "file";
  username = "emily svensson";
  user_id = "usr_005";
  request_details = record zero_details {
    timestamp = now;
    http_method = "POST";
    http_endpoint = "/documents/upload";
    http_status_code = pos 201;
    ip_address = "198.51.100.33";
    client_user_agent = "Mozilla/5.0 (X11; Linux x86_64)";
    geo_ip_location = "Stockholm, SE";
    request_headers = "{\"Content-Type\":\"application/json\"}";
    request_duration = "150ms";
  };
  name = "document.uploaded";
  metadata = "{\"file_type\":\"pdf\",\"size_kb\":\"1024\"}";
  created_at = now;
}

abbrev api_key_created : Time → Event
api_key_created now = record zero_event {
  event_type = "developer";
  username = "frank delacroix";
  user_id = "usr_006";
  request_details = record zero_details {
    timestamp = now;
    http_method = "POST";
    http_endpoint = "/developers/keys";
    http_status_code = pos 201;
    ip_address = "192.0.2.88";
    client_user_agent = "PostmanRuntime/7.32.0";
    geo_ip_location = "Paris, FR";
    request_headers = "{\"Content-Type\":\"application/json\"}";
    request_duration = "150ms";
  };
  name = "api_key.created";
  metadata = "{\"key_prefix\":\"ltk_live\"}";
  created_at = now;
}

abbrev password_reset : Time → Event
password_reset now = record zero_event {
  event_type = "security";
  username = "grace kimani";
  user_id = "usr_007";
  request_details = record zero_details {
    timestamp = now;
    http_method = "POST";
    http_endpoint = "/auth/password/reset";
    http_status_code = pos 200;
    ip_address = "100.64.0.12";
    client_user_agent = "Mozilla/5.0 (iPhone; CPU iPhone OS 16_0)";
    geo_ip_location = "Nairobi, KE";
    request_headers = "{\"Content-Type\":\"application/json\"}";
    request_duration = "100ms";
  };
  name = "password.reset";
  metadata = "{\"method\":\"email_link\"}";
  created_at = now;
}

abbrev report_exported : Time → Event
report_exported now = record zero_event {
  event_type = "data";
  username = "henry walker";
  user_id = "usr_008";
  request_details = record zero_details {
    timestamp = now;
    http_method = "GET";
    http_endpoint = "/reports/export";
    http_status_code = pos 200;
    ip_address = "192.168.10.50";
    client_user_agent = "python-requests/2.31.0";
    geo_ip_location = "Sydney, AU";
    request_headers = "{\"Content-Type\":\"application/json\"}";
    request_duration = "100ms";
  };
  name = "report.exported";
  metadata = "{\"format\":\"csv\",\"rows\":\"5000\"}";
  created_at = now;
}

abbrev webhook_triggered : Time → Event
webhook_triggered now = record zero_event {
  event_type = "integration";
  username = "isabella costa";
  user_id = "usr_009";
  request_details = record zero_details {
    timestamp = now;
    http_method = "POST";
    http_endpoint = "/webhooks/trigger";
    http_status_code = pos 200;
    ip_address = "203.0.113.99";
    client_user_agent = "node-fetch/3.3.0";
    geo_ip_location = "São Paulo, BR";
    request_headers = "{\"Content-Type\":\"application/json\"}";
    request_duration = "100ms";
  };
  name = "webhook.triggered";
  metadata = "{\"event_type\":\"payment.success\"}";
  created_at = now;
}

abbrev organization_created : Time → Event
organization_created now = record zero_event {
  event_type = "admin";
  username = "james otieno";
  user_id = "usr_010";
  request_details = record zero_details {
    timestamp = now;
    http_method = "POST";
    http_endpoint = "/organizations";
    http_status_code = pos 201;
    ip_address = "10.10.0.1";
    client_user_agent = "Mozilla/5.0 (Windows NT 10.0; Win64; x64)";
    geo_ip_location = "Kampala, UG";
    request_headers = "{\"Content-Type\":\"application/json\"}";
    request_duration = "150ms";
  };
  name = "organization.created";
  metadata = "{\"plan\":\"starter\"}";
  created_at = now;
}

unfoldable pub event_seed_data : Time → List Event
event_seed_data now =
    user_login now
    ∷ user_logout now
    ∷ payment_initiated now
    ∷ profile_updated now
    ∷ document_uploaded now
    ∷ api_key_created now
    ∷ password_reset now
    ∷ report_exported now
    ∷ webhook_triggered now
    ∷ organization_created now
    ∷ []
