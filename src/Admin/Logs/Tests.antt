-- ===== src/Admin/Logs/Tests.antt =====
-- The log of a request for a contact, whose domain was proved.
use agent_embassy.Prelude.{ℕ, ◌-◌, ◌≡◌, ◌&&◌, refl, Option, none, some, arith, leb, if◌then◌else◌}
use agent_embassy.Python.Attempt.{value}
use agent_embassy.Python.Text.{is_space}
use agent_embassy.Admin.Logs.{parse_line}
use agent_embassy.Admin.Logs.Scanning.{all_of}
use agent_embassy.Admin.Logs.RoundTrip.{Line, IsWritten, print_line, parse_line-print}

abbrev decimal_value : ℕ → Option ℕ
decimal_value c = if leb 48 c && leb c 57 then some (c - 48) else none

abbrev line : Line
line = record {
  remote_addr = "10.0.0.7";
  remote_user = "-";
  time_local = "01/Aug/2026:10:00:00 +0000";
  method = "GET";
  path = "/catalog/contact.json";
  protocol = "HTTP/1.1";
  status = "200";
  body_bytes_sent = "512";
  http_referer = "-";
  http_user_agent = "agent/1.0 (demo)";
  http_x_forwarded_for = "-";
  verified_domain = "example.org";
}

line-IsWritten : IsWritten decimal_value line
unfolding all_of is_space
line-IsWritten = record {
  remote_addr = (refl, refl);
  remote_user = (refl, refl);
  time_local = (refl, refl);
  method = (refl, refl);
  path = (refl, refl);
  protocol = (refl, refl);
  status = (refl, refl);
  body_bytes_sent = (refl, refl);
  http_referer = refl;
  http_user_agent = refl;
  http_x_forwarded_for = refl;
  verified_domain = refl;
}

parse_line-print_example :
    parse_line decimal_value (print_line line "\n")
    ≡ value (
        some (record {
          ip = "10.0.0.7";
          time = "01/Aug/2026:10:00:00 +0000";
          method = "GET";
          path = "/catalog/contact.json";
          status = 200;
          user_agent = "agent/1.0 (demo)";
          verified_domain = some "example.org";
        }))
parse_line-print_example =
    parse_line-print decimal_value line "\n" refl line-IsWritten (omega arith)
