-- ===== src/Egress/Handler.antt =====
-- `handle_client_connection` (crates/clawcrate-sandbox/src/egress_proxy.rs) as the effects that it
-- has, in order, and whether it returns an error. Sockets and the decoding of UTF-8 and of
-- addresses are an argument.
use claw_crate.Base.{
  ℕ, zero, suc, ◌+◌, Text, codes, Bool, ◌&&◌, ◌||◌, not, Option, none, some, List, [], ◌∷◌, ◌++◌,
  length, min, ltb, ◌==◌, if◌then◌else◌, text_eq, is_whitespace, to_ascii_lowercase,
  trim_start_matches,
}
use claw_crate.Egress.Hosts.{parse_connect_target, is_host_allowed, hostnames_match}
use claw_crate.Egress.Lines.{
  Reader, LimitedLineRead, eof, line, too_long, read_failed, read_limited_line,
}
use claw_crate.Egress.Sni.{Parse, found, extract_sni_from_client_hello}
use claw_crate.Egress.Denials.{EgressDenial, domain_not_allowed, sni_rejected, usize_max}

pub record World : Type 0 where
  pub from_utf8 : List ℕ → Option Text
  pub parse_ip : Text → Option Text
  pub client_nodelay : Bool
  pub upstream_nodelay : Bool
  -- Whether a response with a status can be written, and whether a host and port can be reached.
  pub write_works : ℕ → Bool
  pub connects : Text → ℕ → Bool
  -- The bytes that `peek_tls_preface` returns unless it fails.
  pub peek_tls_preface : Option (List ℕ)
  -- Whether the tunnel's first write and the copies of its sockets work, for the bytes sent ahead.
  pub tunnels : List ℕ → Bool

pub data Effect : Type 0 where
  respond : ℕ → Effect
  connect : Text → ℕ → Effect
  record_denial : EgressDenial → Effect
  shut_down : Effect
  tunnel : Text → ℕ → List ℕ → Effect

pub data Returned : Type 0 where
  ok io_error : Returned

abbrev pub max_request_line_bytes : ℕ
max_request_line_bytes = 4096

abbrev pub max_header_line_bytes : ℕ
max_header_line_bytes = 8192

abbrev pub max_header_count : ℕ
max_header_count = 64

abbrev pub max_header_bytes_total : ℕ
max_header_bytes_total = 65536

-- `split_whitespace().next()`, and the text behind it.
unfoldable pub word : Text → Text × Text
word [] = ([], [])
word (c ∷ s) = let (w, rest) = word s in if is_whitespace c then ([], c ∷ s) else (c ∷ w, rest)

unfoldable pub next_word : Text → Text × Text
unfolding word is_whitespace trim_start_matches
next_word s = word (trim_start_matches is_whitespace s)

unfoldable pub eq_ignore_ascii_case : Text → Text → Bool
unfolding text_eq to_ascii_lowercase
eq_ignore_ascii_case s t = text_eq (to_ascii_lowercase s) (to_ascii_lowercase t)

-- `line == b"\r\n" || line == b"\n"`.
abbrev pub is_blank : List ℕ → Bool
is_blank l = text_eq l (13 ∷ 10 ∷ []) || text_eq l (10 ∷ [])

pub data Headers : Type 0 where
  headers_end : Reader → Headers
  refused : ℕ → Headers
  closed : Headers
  failed : Headers

-- One round of the loop over the header lines, up to the count of them.
pub data Header : Type 0 where
  stop : Headers → Header
  another : ℕ → Reader → Header

unfoldable pub read_header : ℕ → Reader → Header
unfolding read_limited_line text_eq
read_header header_bytes_total reader =
    let (read, reader') = read_limited_line max_header_line_bytes reader in
    elim read [
      | eof ↦ stop closed
      | read_failed ↦ stop failed
      | too_long ↦ stop (refused 431)
      | line l ↦
          let total = min (header_bytes_total + length l) usize_max in
          if ltb max_header_bytes_total total
          then stop (refused 431)
          else if is_blank l
          then stop (headers_end reader')
          else another total reader'
    ]

-- The loop; `left` is how many more lines the bound on the count of them allows.
unfoldable pub read_headers : ℕ → ℕ → Reader → Headers
unfolding read_header
read_headers zero header_bytes_total reader = elim (read_header header_bytes_total reader) [
  | stop headers ↦ headers
  | another _ _ ↦ refused 431
]
read_headers (suc left) header_bytes_total reader = elim (read_header header_bytes_total reader) [
  | stop headers ↦ headers
  | another total reader' ↦ read_headers left total reader'
]

module _ (world : World) where
  -- `write_http_response(...)?; return Ok(())`.
  abbrev pub answer : ℕ → List Effect × Returned
  answer status = (respond status ∷ [], if world.write_works status then ok else io_error)

  abbrev pub before : Effect → List Effect × Returned → List Effect × Returned
  before effect (effects, returned) = (effect ∷ effects, returned)

  abbrev pub tunnel_bidirectional : Text → ℕ → List ℕ → List Effect × Returned
  tunnel_bidirectional host port prefetched =
      (tunnel host port prefetched ∷ [], if world.tunnels prefetched then ok else io_error)

  -- The bytes that the server name is read from.
  abbrev pub tls_preface : List ℕ → Option (List ℕ)
  tls_preface prefetched =
      if ltb (length prefetched) 4096
      then elim world.peek_tls_preface [ none ↦ none | some peeked ↦ some (prefetched ++ peeked) ]
      else some prefetched

  -- What is done with the server name that was read.
  unfoldable pub check_sni : List Text → Text → ℕ → List ℕ → Parse → List Effect × Returned
  unfolding hostnames_match is_host_allowed
  check_sni allowed_domains host port prefetched (found sni) =
      if not (hostnames_match host sni) || not (is_host_allowed world.parse_ip sni allowed_domains)
      then (
        record_denial (record { host = host; port = port; reason = sni_rejected sni })
            ∷ shut_down
            ∷ [],
        ok,
      )
      else tunnel_bidirectional host port prefetched
  check_sni allowed_domains host port prefetched _ = (shut_down ∷ [], ok)

  abbrev pub check_preface :
      List Text → Text → ℕ → List ℕ → Option (List ℕ) → List Effect × Returned
  check_preface allowed_domains host port prefetched none = ([], io_error)
  check_preface allowed_domains host port prefetched (some preface) =
      check_sni allowed_domains host port prefetched
        (extract_sni_from_client_hello world.from_utf8 preface)

  -- Behind the response 200.
  unfoldable pub established : List Text → Bool → Text → ℕ → List ℕ → List Effect × Returned
  established allowed_domains enforce_sni host port prefetched =
      if enforce_sni && port == 443
      then check_preface allowed_domains host port prefetched (tls_preface prefetched)
      else tunnel_bidirectional host port prefetched

  -- Behind the headers.
  unfoldable pub decide : List Text → Bool → Text → ℕ → Reader → List Effect × Returned
  unfolding is_host_allowed established
  decide allowed_domains enforce_sni host port reader =
      if not (is_host_allowed world.parse_ip host allowed_domains)
      then before (record_denial (record { host = host; port = port; reason = domain_not_allowed }))
          (answer 403)
      else before (connect host port) (
          if not (world.connects host port)
          then answer 502
          else if not world.upstream_nodelay
          then ([], io_error)
          else if not (world.write_works 200)
          then (respond 200 ∷ [], io_error)
          else before (respond 200)
              (established allowed_domains enforce_sni host port reader.buffer))

  abbrev pub after_headers : List Text → Bool → Text → ℕ → Headers → List Effect × Returned
  after_headers allowed_domains enforce_sni host port (headers_end reader) =
      decide allowed_domains enforce_sni host port reader
  after_headers allowed_domains enforce_sni host port (refused status) = answer status
  after_headers allowed_domains enforce_sni host port closed = ([], ok)
  after_headers allowed_domains enforce_sni host port failed = ([], io_error)

  -- Behind the request line.
  unfoldable pub handle_target : List Text → Bool → Reader → Text × ℕ → List Effect × Returned
  unfolding read_headers
  handle_target allowed_domains enforce_sni reader (host, port) =
      after_headers allowed_domains enforce_sni host port (read_headers max_header_count 0 reader)

  unfoldable pub handle_request : List Text → Bool → Reader → Text → List Effect × Returned
  unfolding next_word eq_ignore_ascii_case parse_connect_target handle_target
  handle_request allowed_domains enforce_sni reader request_line =
      let (method, behind) = next_word request_line in
      if not (eq_ignore_ascii_case method (codes "CONNECT"))
      then answer 405
      else elim (parse_connect_target (next_word behind).0) [
        | none ↦ answer 400
        | some target ↦ handle_target allowed_domains enforce_sni reader target
      ]

  abbrev pub after_request_line :
      List Text → Bool → Reader → LimitedLineRead → List Effect × Returned
  after_request_line allowed_domains enforce_sni reader eof = ([], ok)
  after_request_line allowed_domains enforce_sni reader read_failed = ([], io_error)
  after_request_line allowed_domains enforce_sni reader too_long = answer 400
  after_request_line allowed_domains enforce_sni reader (line l) = elim (world.from_utf8 l) [
    | none ↦ answer 400
    | some request_line ↦ handle_request allowed_domains enforce_sni reader request_line
  ]

  unfoldable pub handle_client_connection : List Text → Bool → Reader → List Effect × Returned
  unfolding read_limited_line
  handle_client_connection allowed_domains enforce_sni reader =
      if not world.client_nodelay
      then ([], io_error)
      else (let (read, reader') = read_limited_line max_request_line_bytes reader in
          after_request_line allowed_domains enforce_sni reader' read)
