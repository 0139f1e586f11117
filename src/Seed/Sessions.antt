-- ===== src/Seed/Sessions.antt =====
-- internal/seed/data.go: SessionSeedData. All calls of `time.Now()` give the same moment, and a map is the text
-- of its JSON.
use logtrace_backend.Common.{◌+◌, ◌*◌, ◌-◌, some, List, [], ◌∷◌}
use logtrace_backend.Common.Int.{pos}
use logtrace_backend.Domain.{Time}
use logtrace_backend.Trail.{Session}
use logtrace_backend.Seed.{hour, minute, zero_details, zero_session}

abbrev alice_morgan : Time → Session
alice_morgan now = record zero_session {
  user_id = "usr_001";
  user_name = "alice morgan";
  request_details = record zero_details {
    timestamp = now;
    http_method = "GET";
    http_endpoint = "/dashboard";
    http_status_code = pos 200;
    ip_address = "192.168.1.10";
    operating_system = "Windows 10";
    client_user_agent = "Mozilla/5.0 (Windows NT 10.0; Win64; x64) Chrome/114.0";
    geo_ip_location = "New York, US";
  };
  login_at = now - (2 * hour);
  status = "active";
  token = "tok_alice_001";
  metadata = "{\"mfa\":\"true\"}";
}

abbrev bob_hartley : Time → Session
bob_hartley now = record zero_session {
  user_id = "usr_002";
  user_name = "bob hartley";
  request_details = record zero_details {
    timestamp = now;
    http_method = "POST";
    http_endpoint = "/organizations";
    http_status_code = pos 201;
    ip_address = "10.10.0.1";
    client_user_agent = "Mozilla/5.0 (Windows NT 10.0; Win64; x64)";
    geo_ip_location = "Kampala, UG";
    request_headers = "{\"Content-Type\":\"application/json\"}";
    request_duration = "150ms";
  };
  login_at = now - (45 * minute);
  status = "active";
  token = "tok_bob_002";
  metadata = "{\"mfa\":\"false\"}";
}

abbrev carol_nguyen : Time → Session
carol_nguyen now = record zero_session {
  user_id = "usr_003";
  user_name = "carol nguyen";
  request_details = record zero_details {
    timestamp = now;
    http_method = "GET";
    http_endpoint = "/profile";
    http_status_code = pos 200;
    ip_address = "172.16.0.20";
    client_user_agent = "Firefox/115.0";
    geo_ip_location = "London, GB";
    request_headers = "{\"Content-Type\":\"application/json\"}";
    request_duration = "100ms";
  };
  login_at = now - (5 * hour);
  logout_at = some (now - (4 * hour));
  status = "succesful";
  token = "tok_carol_003";
  metadata = "{\"mfa\":\"true\"}";
}

abbrev david_okafor : Time → Session
david_okafor now = record zero_session {
  user_id = "usr_004";
  user_name = "david okafor";
  request_details = record zero_details {
    timestamp = now;
    http_method = "GET";
    http_endpoint = "/settings";
    http_status_code = pos 200;
    ip_address = "203.0.113.45";
    client_user_agent = "okhttp/4.9.1";
    geo_ip_location = "Lagos, NG";
    request_headers = "{\"Content-Type\":\"application/json\"}";
    request_duration = "100ms";
  };
  login_at = now - (26 * hour);
  logout_at = some (now - (25 * hour));
  status = "expired";
  token = "tok_david_004";
  metadata = "{\"mfa\":\"false\"}";
}

abbrev emily_svensson : Time → Session
emily_svensson now = record zero_session {
  user_id = "usr_005";
  user_name = "emily svensson";
  request_details = record zero_details {
    timestamp = now;
    http_method = "GET";
    http_endpoint = "/profile";
    http_status_code = pos 200;
    ip_address = "198.51.100.33";
    client_user_agent = "Chrome/114.0";
    geo_ip_location = "Stockholm, SE";
    request_headers = "{\"Content-Type\":\"application/json\"}";
    request_duration = "100ms";
  };
  login_at = now - (30 * minute);
  status = "active";
  token = "tok_emily_005";
  metadata = "{\"mfa\":\"true\"}";
}

abbrev frank_delacroix : Time → Session
frank_delacroix now = record zero_session {
  user_id = "usr_006";
  user_name = "frank delacroix";
  request_details = record zero_details {
    timestamp = now;
    http_method = "GET";
    http_endpoint = "/profile";
    http_status_code = pos 200;
    ip_address = "192.0.2.88";
    client_user_agent = "Postman";
    geo_ip_location = "Paris, FR";
    request_headers = "{\"Content-Type\":\"application/json\"}";
    request_duration = "100ms";
  };
  login_at = now - (3 * hour);
  logout_at = some (now - (2 * hour + 30 * minute));
  status = "succesful";
  token = "tok_frank_006";
  metadata = "{\"mfa\":\"true\"}";
}

abbrev grace_kimani : Time → Session
grace_kimani now = record zero_session {
  user_id = "usr_007";
  user_name = "grace kimani";
  request_details = record zero_details {
    timestamp = now;
    http_method = "GET";
    http_endpoint = "/profile";
    http_status_code = pos 200;
    ip_address = "100.64.0.12";
    client_user_agent = "Mobile Safari";
    geo_ip_location = "Nairobi, KE";
    request_headers = "{\"Content-Type\":\"application/json\"}";
    request_duration = "100ms";
  };
  login_at = now - (10 * minute);
  status = "active";
  token = "tok_grace_007";
  metadata = "{\"mfa\":\"false\"}";
}

abbrev henry_walker : Time → Session
henry_walker now = record zero_session {
  user_id = "usr_008";
  user_name = "henry walker";
  request_details = record zero_details {
    timestamp = now;
    http_method = "POST";
    http_endpoint = "/login";
    http_status_code = pos 401;
    ip_address = "192.168.10.50";
    client_user_agent = "python-requests / Linux";
    geo_ip_location = "Sydney, AU";
    request_headers = "{\"Content-Type\":\"application/json\"}";
    request_duration = "150ms";
  };
  login_at = now - (1 * hour);
  status = "failed";
  token = "tok_henry_008";
  metadata = "{\"reason\":\"invalid_credentials\"}";
}

abbrev isabella_costa : Time → Session
isabella_costa now = record zero_session {
  user_id = "usr_009";
  user_name = "isabella costa";
  request_details = record zero_details {
    timestamp = now;
    http_method = "GET";
    http_endpoint = "/profile";
    http_status_code = pos 200;
    ip_address = "203.0.113.99";
    client_user_agent = "node-fetch / Node.js 18";
    geo_ip_location = "São Paulo, BR";
    request_headers = "{\"Content-Type\":\"application/json\"}";
    request_duration = "100ms";
  };
  login_at = now - (15 * minute);
  status = "active";
  token = "tok_isabella_009";
  metadata = "{\"mfa\":\"true\"}";
}

abbrev james_otieno : Time → Session
james_otieno now = record zero_session {
  user_id = "usr_010";
  user_name = "james otieno";
  request_details = record zero_details {
    timestamp = now;
    http_method = "GET";
    http_endpoint = "/profile";
    http_status_code = pos 200;
    ip_address = "10.10.0.1";
    client_user_agent = "Chrome 114 / Windows 11";
    geo_ip_location = "Kampala, UG";
    request_headers = "{\"Content-Type\":\"application/json\"}";
    request_duration = "100ms";
  };
  login_at = now - (5 * minute);
  status = "active";
  token = "tok_james_010";
  metadata = "{\"mfa\":\"false\"}";
}

unfoldable pub session_seed_data : Time → List Session
session_seed_data now =
    alice_morgan now
    ∷ bob_hartley now
    ∷ carol_nguyen now
    ∷ david_okafor now
    ∷ emily_svensson now
    ∷ frank_delacroix now
    ∷ grace_kimani now
    ∷ henry_walker now
    ∷ isabella_costa now
    ∷ james_otieno now
    ∷ []
