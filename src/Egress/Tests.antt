-- ===== src/Egress/Tests.antt =====
-- Runs of the proxy's parts, and the theorems at such runs.
use claw_crate.Base.{
  ℕ, ◌≤◌, ◌≡◌, refl, ◌≢◌, ◌↔◌, Text, codes, true, false, Option, none, some, List, [], ◌∷◌, ◌++◌,
  All,
}
use claw_crate.Egress.Hosts.{parse_connect_target, normalize_host, is_host_allowed}
use claw_crate.Egress.Lines.{bytes, Reader, read_limited_line, read_limited_from, take_available}
use claw_crate.Egress.Lines.Pieces.{IsRead, read_limited_line-IsRead}
use claw_crate.Egress.Denials.{
  EgressDenial, domain_not_allowed, sni_rejected, try_acquire_handler_slot,
}
use claw_crate.Egress.Sni.{found, parse_server_name_extension, extract_sni_from_client_hello}
use claw_crate.Egress.Sni.Defined.{IsDefined, extract_sni-IsDefined}
use claw_crate.Egress.Handler.{
  World, respond, connect, record_denial, shut_down, tunnel, ok, handle_request, decide, check_sni,
  handle_client_connection,
}
use claw_crate.Egress.Enforced.{IsPermitted, handle_client_connection-Permitted}
use claw_crate.Egress.Rules.{AllowedBy, is_host_allowed_iff}
use claw_crate.Egress.Bounded.{start, acquired, active_handlers-bound}

abbrev rules : List Text
rules = codes "example.com" ∷ codes "*.pkg.dev" ∷ []

abbrev no_address : Text → Option Text
no_address name = none

matching :
    (is_host_allowed no_address (codes "example.com") rules ≡ true)
    × (is_host_allowed no_address (codes "registry.pkg.dev") rules ≡ true)
    × (is_host_allowed no_address (codes "pkg.dev") rules ≡ false)
    × (is_host_allowed no_address (codes "evil.com") rules ≡ false)
unfolding is_host_allowed
matching = (refl, refl, refl, refl)

targets :
    (parse_connect_target (codes "example.com:443") ≡ some (codes "example.com", 443))
    × (parse_connect_target (codes "[::1]:8443") ≡ some (codes "::1", 8443))
    × (parse_connect_target (codes "missing-port") ≡ none)
    × (parse_connect_target (codes "example.com:65536") ≡ none)
unfolding parse_connect_target
targets = (refl, refl, refl, refl)

is_host_allowed_iff_example : (is_host_allowed no_address (codes "A.pkg.dev.") rules ≡ true) ↔ (
    (normalize_host (codes "A.pkg.dev.") ≢ [])
    × AllowedBy (normalize_host (codes "A.pkg.dev.")) rules none)
is_host_allowed_iff_example = is_host_allowed_iff no_address (codes "A.pkg.dev.") rules

-- A ClientHello with the server name "a.b" alone.
abbrev hello : List ℕ
hello =
    22 ∷ 3 ∷ 1 ∷ 0 ∷ 59 ∷ 1 ∷ 0 ∷ 0 ∷ 55 ∷ 3 ∷ 3 ∷ 0 ∷ 0 ∷ 0 ∷ 0 ∷ 0 ∷ 0 ∷ 0 ∷ 0 ∷ 0 ∷ 0 ∷ 0 ∷ 0 ∷ 0
    ∷ 0 ∷ 0 ∷ 0 ∷ 0 ∷ 0 ∷ 0 ∷ 0 ∷ 0 ∷ 0 ∷ 0 ∷ 0 ∷ 0 ∷ 0 ∷ 0 ∷ 0 ∷ 0 ∷ 0 ∷ 0 ∷ 0 ∷ 0 ∷ 0 ∷ 2 ∷ 19 ∷ 1
    ∷ 1 ∷ 0 ∷ 0 ∷ 12 ∷ 0 ∷ 0 ∷ 0 ∷ 8 ∷ 0 ∷ 6 ∷ 0 ∷ 0 ∷ 3 ∷ 97 ∷ 46 ∷ 98 ∷ []

server_name : extract_sni_from_client_hello some hello ≡ found (codes "a.b")
unfolding extract_sni_from_client_hello parse_server_name_extension normalize_host
server_name = refl

extract_sni-IsDefined_example : IsDefined (extract_sni_from_client_hello some hello)
extract_sni-IsDefined_example = extract_sni-IsDefined some hello

abbrev world : World
world = record {
  from_utf8 = some;
  parse_ip = no_address;
  client_nodelay = true;
  upstream_nodelay = true;
  write_works = λ status. true;
  connects = λ host port. true;
  peek_tls_preface = some hello;
  tunnels = λ ahead. true;
}

abbrev request : Text → Reader
request target = record {
  buffer = [];
  later = bytes (codes "CONNECT " ++ target) ∷ bytes (codes " HTTP/1.1\r\n\r\n") ∷ [];
}

tunnelled :
    handle_client_connection world (codes "a.b" ∷ []) true (request (codes "a.b:443"))
    ≡ (connect (codes "a.b") 443 ∷ respond 200 ∷ tunnel (codes "a.b") 443 [] ∷ [], ok)
unfolding handle_client_connection read_limited_from take_available handle_request decide check_sni
    extract_sni_from_client_hello parse_server_name_extension
tunnelled = refl

wrong_name :
    handle_client_connection world (codes "c.d" ∷ codes "a.b" ∷ []) true (request (codes "c.d:443"))
    ≡ (
      connect (codes "c.d") 443
          ∷ respond 200
          ∷ record_denial
              (record { host = codes "c.d"; port = 443; reason = sni_rejected (codes "a.b") })
          ∷ shut_down
          ∷ [],
      ok,
    )
unfolding handle_client_connection read_limited_from take_available handle_request decide check_sni
    extract_sni_from_client_hello parse_server_name_extension
wrong_name = refl

handle_client_connection-Permitted_example :
    All
      (IsPermitted world rules true)
      (handle_client_connection world rules true (request (codes "evil.com:80"))).0
handle_client_connection-Permitted_example =
    handle_client_connection-Permitted world rules true (request (codes "evil.com:80"))

read_limited_line-IsRead_example :
    IsRead 16 []
      (codes "CONNECT a:1 HTTP/1.1\r\n\r\n")
      (read_limited_line 16 (request (codes "a:1")))
read_limited_line-IsRead_example = read_limited_line-IsRead 16 (request (codes "a:1")) (_, (_, _))

abbrev denial : ℕ → EgressDenial
denial port = record { host = codes "evil.com"; port = port; reason = domain_not_allowed }

active_handlers-bound_example : (◌≡◌ {A = ℕ} 1 1) × (1 ≤ 2)
unfolding try_acquire_handler_slot
active_handlers-bound_example = active_handlers-bound 2 1 1 (acquired start refl)
