-- ===== src/Egress/Sni.antt =====
-- The server name of a TLS ClientHello (crates/clawcrate-sandbox/src/egress_proxy.rs). An index
-- out of range panics, as in the source; a loop has fuel.
pub mod Defined
use claw_crate.Base.{
  ℕ, zero, suc, ◌+◌, ◌*◌, ◌-◌, Text, Bool, true, false, ◌&&◌, ◌||◌, not, Option, none, some, List,
  [], ◌∷◌, ◌++◌, length, take, drop, get_elem?, ltb, leb, ◌==◌, if◌then◌else◌,
}
use claw_crate.Egress.Hosts.{normalize_host}

pub data Parse : Type 0 where
  panics out_of_fuel absent : Parse
  found : Text → Parse

-- `xs[i]`, and what is done with it.
abbrev pub byte_at : List ℕ → ℕ → (ℕ → Parse) → Parse
byte_at xs i k = elim (get_elem? xs i) [ none ↦ panics | some b ↦ k b ]

-- `&xs[start..end]`.
abbrev pub slice_at : List ℕ → ℕ → ℕ → (List ℕ → Parse) → Parse
slice_at xs start end k =
    if leb start end && leb end (length xs) then k (take (end - start) (drop start xs)) else panics

-- `u16::from_be_bytes([xs[i], xs[i + 1]])`.
abbrev pub be16_at : List ℕ → ℕ → (ℕ → Parse) → Parse
be16_at xs i k = byte_at xs i (λ high. byte_at xs (i + 1) (λ low. k (256 * high + low)))

abbrev pub guard : Bool → Parse → Parse
guard refused k = if refused then absent else k

-- `.map(|name| normalize_host(&name))`.
abbrev pub normalized : Parse → Parse
normalized (found name) = found (normalize_host name)
normalized panics = panics
normalized out_of_fuel = out_of_fuel
normalized absent = absent

-- `*handshake.get(cursor)?` bytes are skipped.
abbrev pub skip_short : List ℕ → ℕ → (ℕ → Parse) → Parse
skip_short handshake cursor k =
    guard (leb (length handshake) cursor)
      (elim (get_elem? handshake cursor) [ none ↦ absent | some len ↦ k (cursor + (1 + len)) ])

module _ (from_utf8 : List ℕ → Option Text) where
  unfoldable pub names_from : ℕ → List ℕ → ℕ → ℕ → Parse
  names_from zero ext list_len cursor = out_of_fuel
  names_from (suc fuel) ext list_len cursor = guard (ltb (2 + list_len) (cursor + 3)) (
      byte_at ext cursor (λ name_type. be16_at ext (cursor + 1) (λ name_len.
        let start = cursor + 3 in
        let end = start + name_len in
        let rest = names_from fuel ext list_len end in
        guard (ltb (2 + list_len) end || ltb (length ext) end) (
          if name_type == 0
          then slice_at ext start end
              (λ name. elim (from_utf8 name) [ none ↦ absent | some value ↦ found value ])
          else rest))))

  unfoldable pub parse_server_name_extension : List ℕ → Parse
  unfolding names_from
  parse_server_name_extension ext = guard (ltb (length ext) 2) (
      be16_at ext 0 (λ list_len.
        guard (ltb (length ext) (2 + list_len)) (names_from (length ext) ext list_len 2)))

  unfoldable pub extensions_from : ℕ → List ℕ → ℕ → ℕ → Parse
  extensions_from zero handshake extensions_end cursor = out_of_fuel
  extensions_from (suc fuel) handshake extensions_end cursor =
      guard (ltb extensions_end (cursor + 4)) (
        be16_at handshake cursor (λ ext_type. be16_at handshake (cursor + 2) (λ ext_len.
          let start = cursor + 4 in
          let ext_end = start + ext_len in
          let rest = extensions_from fuel handshake extensions_end ext_end in
          guard (ltb extensions_end ext_end) (
            if ext_type == 0
            then slice_at handshake start ext_end
                (λ ext. normalized (parse_server_name_extension ext))
            else rest))))

  -- From the length of the extensions on.
  unfoldable pub parse_extensions : List ℕ → ℕ → Parse
  unfolding extensions_from
  parse_extensions handshake cursor = guard (ltb (length handshake) (cursor + 2)) (
      be16_at handshake cursor (λ extensions_len.
        let start = cursor + 2 in
        let extensions_end = start + extensions_len in
        guard (ltb (length handshake) extensions_end)
          (extensions_from (length handshake + 1) handshake extensions_end start)))

  unfoldable pub parse_handshake : List ℕ → Parse
  unfolding parse_extensions
  parse_handshake handshake = guard (ltb (length handshake) 4) (
      byte_at handshake 0 (λ kind. guard (not (kind == 1)) (
        byte_at handshake 1 (λ a. byte_at handshake 2 (λ b. byte_at handshake 3 (λ c.
          guard (ltb (length handshake) (4 + (65536 * a + 256 * b + c))) (
            skip_short handshake 38 (λ cursor. guard (ltb (length handshake) (cursor + 2)) (
              be16_at handshake cursor (λ cipher_len.
                skip_short handshake (cursor + (2 + cipher_len))
                  (λ cursor'. parse_extensions handshake cursor')))))))))))

  unfoldable pub extract_sni_from_client_hello : List ℕ → Parse
  unfolding parse_handshake
  extract_sni_from_client_hello hello = guard (ltb (length hello) 5) (
      byte_at hello 0 (λ kind. guard (not (kind == 22)) (
        be16_at hello 3 (λ record_len.
          guard (ltb (length hello) (5 + record_len))
            (slice_at hello 5 (5 + record_len) parse_handshake)))))
