-- ===== src/Egress/Enforced.antt =====
-- The proxy does for a client only what the rules permit.
use claw_crate.Base.{
  codes, ℕ, ◌≡◌, refl, ◌⊎◌, inl, inr, Text, Bool, true, false, ◌&&◌, ◌||◌, not, Option, none, some,
  List, All, if◌then◌else◌, ◌==◌, arith, Option-cases,
}
use claw_crate.Egress.Hosts.{parse_connect_target, is_host_allowed, hostnames_match}
use claw_crate.Egress.Denials.{EgressDenialReason, domain_not_allowed, sni_rejected}
use claw_crate.Egress.Lines.{
  Reader, LimitedLineRead, eof, line, too_long, read_failed, read_limited_line,
}
use claw_crate.Egress.Sni.{Parse, panics, out_of_fuel, absent, found, extract_sni_from_client_hello}
use claw_crate.Egress.Handler.{
  World, Effect, respond, connect, record_denial, shut_down, tunnel, Returned, answer, tls_preface,
  check_sni, established, decide, Headers, headers_end, refused, closed, failed, read_headers,
  handle_target, handle_request, handle_client_connection, check_preface, after_headers,
  max_header_count, max_request_line_bytes, after_request_line, eq_ignore_ascii_case, next_word,
}

module _ (world : World) (allowed_domains : List Text) (enforce_sni : Bool) where
  abbrev IsAllowed : Text → Type 0
  IsAllowed host = is_host_allowed world.parse_ip host allowed_domains ≡ true

  -- The name in the client's hello, whatever was buffered, is that of the target and allowed.
  abbrev HasServerName : Text → List ℕ → Type 0
  HasServerName host prefetched =
      (preface : List ℕ) × (sni : Text) × (tls_preface world prefetched ≡ some preface)
      × (extract_sni_from_client_hello world.from_utf8 preface ≡ found sni)
      × (hostnames_match host sni ≡ true)
      × IsAllowed sni

  abbrev IsGrounded : Text → EgressDenialReason → Type 0
  IsGrounded host domain_not_allowed = ¬ IsAllowed host
  IsGrounded host (sni_rejected sni) = (hostnames_match host sni ≡ false) ⊎ (¬ IsAllowed sni)

  abbrev pub IsPermitted : Effect → Type 0
  IsPermitted (respond status) = Unit
  IsPermitted (connect host port) = IsAllowed host
  IsPermitted (record_denial d) = IsGrounded d.host d.reason
  IsPermitted shut_down = Unit
  IsPermitted (tunnel host port prefetched) =
      IsAllowed host × (enforce_sni ≡ true → port ≡ 443 → HasServerName host prefetched)

  abbrev Permitted : List Effect × Returned → Type 0
  Permitted r = All IsPermitted r.0

  if-Permitted :
      (c : Bool) (a b : List Effect × Returned)
      → (c ≡ true → Permitted a)
      → (c ≡ false → Permitted b)
      → Permitted (if c then a else b)
  if-Permitted true a b h g = h refl
  if-Permitted false a b h g = g refl

  answer-Permitted : (status : ℕ) → Permitted (answer world status)
  answer-Permitted status = ground arith

  check_sni-Permitted :
      (host : Text) (port : ℕ) (prefetched preface : List ℕ) (p : Parse)
      → IsAllowed host
      → tls_preface world prefetched ≡ some preface
      → extract_sni_from_client_hello world.from_utf8 preface ≡ p
      → Permitted (check_sni world allowed_domains host port prefetched p)
  unfolding check_sni
  check_sni-Permitted host port prefetched preface (found sni) h t e =
      if-Permitted
        (not (hostnames_match host sni) || not (is_host_allowed world.parse_ip sni allowed_domains))
        _ _ (λ c. (ground arith, ground arith))
        (λ c. ((h, λ _ _. (preface, sni, t, e, ground arith, ground arith)), ground arith))
  check_sni-Permitted host port prefetched preface absent h t e = ground arith
  check_sni-Permitted host port prefetched preface panics h t e = ground arith
  check_sni-Permitted host port prefetched preface out_of_fuel h t e = ground arith

  check_preface-Permitted :
      (host : Text) (port : ℕ) (prefetched : List ℕ) (o : Option (List ℕ))
      → IsAllowed host
      → tls_preface world prefetched ≡ o
      → Permitted (check_preface world allowed_domains host port prefetched o)
  check_preface-Permitted host port prefetched none h t = ground arith
  check_preface-Permitted host port prefetched (some preface) h t =
      check_sni-Permitted host port prefetched preface _ h t refl

  established-Permitted :
      (host : Text) (port : ℕ) (prefetched : List ℕ)
      → IsAllowed host
      → Permitted (established world allowed_domains enforce_sni host port prefetched)
  unfolding established
  established-Permitted host port prefetched h =
      if-Permitted (enforce_sni && port == 443) _ _
        (λ c. check_preface-Permitted host port prefetched (tls_preface world prefetched) h refl)
        (λ c. ((h, λ on https. ground arith), ground arith))

  decide-Permitted :
      (host : Text) (port : ℕ) (reader : Reader)
      → Permitted (decide world allowed_domains enforce_sni host port reader)
  unfolding decide
  decide-Permitted host port reader =
      if-Permitted (not (is_host_allowed world.parse_ip host allowed_domains)) _ _
        (λ c. (λ h. ground arith, answer-Permitted 403))
        (λ c.
          let h : IsAllowed host = ground arith in
          (
            h,
            if-Permitted (not (world.connects host port)) _ _ (λ _. answer-Permitted 502)
                (λ _.
                  if-Permitted (not world.upstream_nodelay) _ _ (λ _. ground arith)
                    (λ _.
                      if-Permitted (not (world.write_works 200)) _ _ (λ _. ground arith)
                        (λ _. (ground arith, established-Permitted host port reader.buffer h)))),
          ))

  Headers-Permitted :
      (host : Text) (port : ℕ) (headers : Headers)
      → Permitted (after_headers world allowed_domains enforce_sni host port headers)
  Headers-Permitted host port (headers_end reader) = decide-Permitted host port reader
  Headers-Permitted host port (refused status) = answer-Permitted status
  Headers-Permitted host port closed = ground arith
  Headers-Permitted host port failed = ground arith

  handle_target-Permitted :
      (reader : Reader) (target : Text × ℕ)
      → Permitted (handle_target world allowed_domains enforce_sni reader target)
  unfolding handle_target
  handle_target-Permitted reader (host, port) =
      Headers-Permitted host port (read_headers max_header_count 0 reader)

  handle_request-Permitted :
      (reader : Reader) (request_line : Text)
      → Permitted (handle_request world allowed_domains enforce_sni reader request_line)
  unfolding handle_request
  handle_request-Permitted reader request_line =
      if-Permitted (not (eq_ignore_ascii_case (next_word request_line).0 (codes "CONNECT"))) _ _
        (λ _. answer-Permitted 405)
        (λ _. elim (Option-cases (parse_connect_target (next_word (next_word request_line).1).0)) [
          | inl e ↦ rw e (answer-Permitted 400)
          | inr (target, e) ↦ rw e (handle_target-Permitted reader target)
        ])

  read-Permitted :
      (read : LimitedLineRead) (reader : Reader)
      → Permitted (after_request_line world allowed_domains enforce_sni reader read)
  read-Permitted eof reader = ground arith
  read-Permitted read_failed reader = ground arith
  read-Permitted too_long reader = answer-Permitted 400
  read-Permitted (line l) reader = elim (Option-cases (world.from_utf8 l)) [
    | inl e ↦ rw (e, after_request_line) (answer-Permitted 400)
    | inr (request_line, e) ↦
        rw (e, after_request_line) (handle_request-Permitted reader request_line)
  ]

  -- Whatever a client sends and the network does, every effect of a connection's handler is one
  -- that the rules permit: it connects to and tunnels to allowed hosts only, with the check of
  -- the server name on and the port 443 only for a client hello that names the target, itself
  -- allowed; and each denial that it records is of a host that is not allowed, or of a server
  -- name that is not the target's or not allowed.
  pub handle_client_connection-Permitted :
      (reader : Reader)
      → All IsPermitted (handle_client_connection world allowed_domains enforce_sni reader).0
  unfolding handle_client_connection
  handle_client_connection-Permitted reader =
      if-Permitted (not world.client_nodelay) _ _ (λ _. ground arith)
        (λ _.
          read-Permitted (read_limited_line max_request_line_bytes reader).0
            (read_limited_line max_request_line_bytes reader).1)
