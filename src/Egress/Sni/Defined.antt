-- ===== src/Egress/Sni/Defined.antt =====
-- No bytes make the reading of the server name panic, and its loops end.
use claw_crate.Base.{
  Text, ℕ, zero, suc, ◌+◌, ◌*◌, ◌≤◌, ◌<◌, ◌≡◌, inl, inr, Bool, true, false, ◌||◌, Option, none,
  some, List, [], ◌∷◌, refl, ◌&&◌, length, get_elem?, ltb, leb, ◌==◌, if◌then◌else◌, arith,
  Bool-cases, Option-cases,
}
use claw_crate.Egress.Sni.{
  Parse, panics, out_of_fuel, absent, found, byte_at, slice_at, be16_at, guard, names_from,
  parse_server_name_extension, normalized, extensions_from, parse_extensions, skip_short,
  parse_handshake, extract_sni_from_client_hello,
}

abbrev pub IsDefined : Parse → Type 0
IsDefined panics = ⊥
IsDefined out_of_fuel = ⊥
IsDefined absent = Unit
IsDefined (found name) = Unit

get_elem?-below : (xs : List ℕ) (i : ℕ) → i < length xs → (b : ℕ) × (get_elem? xs i ≡ some b)
get_elem?-below [] i h = absurd (omega arith)
get_elem?-below (x ∷ xs) zero h = (x, refl)
get_elem?-below (x ∷ xs) (suc i) h = get_elem?-below xs i (omega arith)

byte_at-IsDefined :
    (xs : List ℕ) (i : ℕ) (k : ℕ → Parse)
    → i < length xs
    → ((b : ℕ) → IsDefined (k b))
    → IsDefined (byte_at xs i k)
byte_at-IsDefined xs i k h d = let (b, e) = get_elem?-below xs i h in rw (e, IsDefined) (d b)

be16_at-IsDefined :
    (xs : List ℕ) (i : ℕ) (k : ℕ → Parse)
    → i + 1 < length xs
    → ((n : ℕ) → IsDefined (k n))
    → IsDefined (be16_at xs i k)
be16_at-IsDefined xs i k h d =
    byte_at-IsDefined xs i _ (omega arith)
      (λ high. byte_at-IsDefined xs (i + 1) _ h (λ low. d (256 * high + low)))

guard-IsDefined :
    (refused : Bool) (k : Parse) → (refused ≡ false → IsDefined k) → IsDefined (guard refused k)
guard-IsDefined true k d = ground arith
guard-IsDefined false k d = d refl

-- Guards by comparisons, and what is known behind them.
guard_below : (a b : ℕ) (k : Parse) → (b ≤ a → IsDefined k) → IsDefined (guard (ltb a b) k)
guard_below a b k d = guard-IsDefined (ltb a b) k (λ e. d (ground arith))

guard_both :
    (a b c : ℕ) (k : Parse)
    → (c ≤ a → c ≤ b → IsDefined k)
    → IsDefined (guard (ltb a c || ltb b c) k)
guard_both a b c k d = guard-IsDefined (ltb a c || ltb b c) k (λ e. d (ground arith) (ground arith))

slice_at-IsDefined :
    (xs : List ℕ) (start end : ℕ) (k : List ℕ → Parse)
    → start ≤ end
    → end ≤ length xs
    → ((ys : List ℕ) → IsDefined (k ys))
    → IsDefined (slice_at xs start end k)
slice_at-IsDefined xs start end k h g d = elim (Bool-cases (leb start end && leb end (length xs))) [
  | inl e ↦ rw e (d _)
  | inr e ↦ ground arith
]

skip_short-IsDefined :
    (xs : List ℕ) (i : ℕ) (k : ℕ → Parse)
    → ((n : ℕ) → IsDefined (k n))
    → IsDefined (skip_short xs i k)
skip_short-IsDefined xs i k d = guard-IsDefined (leb (length xs) i) _ (λ e.
    elim (Option-cases (get_elem? xs i)) [
      | inl none_there ↦ rw none_there (ground arith)
      | inr (len, there) ↦ rw there (d (i + (1 + len)))
    ])

module _ (from_utf8 : List ℕ → Option Text) where
  utf8-IsDefined :
      (o : Option Text) → IsDefined (elim o [ none ↦ absent | some value ↦ found value ])
  utf8-IsDefined none = ground arith
  utf8-IsDefined (some value) = ground arith

  if-IsDefined :
      (c : Bool) (a b : Parse) → IsDefined a → IsDefined b → IsDefined (if c then a else b)
  if-IsDefined true a b h g = h
  if-IsDefined false a b h g = g

  names_from-IsDefined :
      (fuel : ℕ) (ext : List ℕ) (list_len cursor : ℕ)
      → 2 + list_len ≤ length ext
      → cursor ≤ 2 + list_len
      → 2 + list_len < cursor + fuel
      → IsDefined (names_from from_utf8 fuel ext list_len cursor)
  unfolding names_from
  names_from-IsDefined zero ext list_len cursor a b c = absurd (omega arith)
  names_from-IsDefined (suc fuel) ext list_len cursor a b c = guard_below _ _ _ (λ g.
      byte_at-IsDefined ext cursor _ (omega arith) (λ name_type.
        be16_at-IsDefined ext (cursor + 1) _ (omega arith) (λ name_len.
          guard_both (2 + list_len) (length ext) (cursor + 3 + name_len) _ (λ g' g''.
            if-IsDefined (name_type == 0) _ _
              (slice_at-IsDefined ext (cursor + 3) (cursor + 3 + name_len) _ (omega arith) g''
                (λ name. utf8-IsDefined (from_utf8 name)))
              (names_from-IsDefined fuel ext list_len (cursor + 3 + name_len) a g'
                (omega arith))))))

  parse_server_name_extension-IsDefined :
      (ext : List ℕ) → IsDefined (parse_server_name_extension from_utf8 ext)
  unfolding parse_server_name_extension
  parse_server_name_extension-IsDefined ext = guard_below _ _ _ (λ g.
      be16_at-IsDefined ext 0 _ (omega arith) (λ list_len.
        guard_below _ _ _
          (λ g'. names_from-IsDefined (length ext) ext list_len 2 g' (omega arith) (omega arith))))

  normalized-IsDefined : (p : Parse) → IsDefined p → IsDefined (normalized p)
  normalized-IsDefined absent d = d
  normalized-IsDefined (found name) d = ground arith
  normalized-IsDefined panics d = absurd d
  normalized-IsDefined out_of_fuel d = absurd d

  extensions_from-IsDefined :
      (fuel : ℕ) (handshake : List ℕ) (end cursor : ℕ)
      → end ≤ length handshake
      → cursor ≤ end
      → end < cursor + fuel
      → IsDefined (extensions_from from_utf8 fuel handshake end cursor)
  unfolding extensions_from
  extensions_from-IsDefined zero handshake end cursor a b c = absurd (omega arith)
  extensions_from-IsDefined (suc fuel) handshake end cursor a b c = guard_below _ _ _ (λ g.
      be16_at-IsDefined handshake cursor _ (omega arith) (λ ext_type.
        be16_at-IsDefined handshake (cursor + 2) _ (omega arith) (λ ext_len.
          guard_below _ _ _ (λ g'.
            if-IsDefined (ext_type == 0) _ _
              (slice_at-IsDefined handshake (cursor + 4) (cursor + 4 + ext_len) _ (omega arith)
                (omega arith)
                (λ ext. normalized-IsDefined _ (parse_server_name_extension-IsDefined ext)))
              (extensions_from-IsDefined fuel handshake end (cursor + 4 + ext_len) a g'
                (omega arith))))))

  parse_extensions-IsDefined :
      (handshake : List ℕ) (cursor : ℕ) → IsDefined (parse_extensions from_utf8 handshake cursor)
  unfolding parse_extensions
  parse_extensions-IsDefined handshake cursor = guard_below _ _ _ (λ g.
      be16_at-IsDefined handshake cursor _ (omega arith) (λ len. guard_below _ _ _ (λ g'.
        extensions_from-IsDefined (length handshake + 1) handshake (cursor + 2 + len) (cursor + 2)
          g' (omega arith) (omega arith))))

  parse_handshake-IsDefined : (handshake : List ℕ) → IsDefined (parse_handshake from_utf8 handshake)
  unfolding parse_handshake
  parse_handshake-IsDefined handshake = guard_below (length handshake) 4 _ (λ g.
      byte_at-IsDefined handshake 0 _ (omega arith) (λ kind. guard-IsDefined _ _ (λ e.
        byte_at-IsDefined handshake 1 _ (omega arith) (λ a.
          byte_at-IsDefined handshake 2 _ (omega arith) (λ b.
            byte_at-IsDefined handshake 3 _ (omega arith) (λ c.
              guard_below (length handshake) (4 + (65536 * a + 256 * b + c)) _ (λ g'.
                skip_short-IsDefined handshake 38 _ (λ cursor.
                  guard_below (length handshake) (cursor + 2) _ (λ g''.
                    be16_at-IsDefined handshake cursor _ (omega arith) (λ len.
                      skip_short-IsDefined handshake (cursor + (2 + len)) _
                        (λ cursor'. parse_extensions-IsDefined handshake cursor')))))))))))

  -- Whatever bytes a client sends, reading the server name of them does not index out of range, and
  -- its two loops end within the fuel that they are given: the result is a name or none.
  pub extract_sni-IsDefined :
      (hello : List ℕ) → IsDefined (extract_sni_from_client_hello from_utf8 hello)
  unfolding extract_sni_from_client_hello
  extract_sni-IsDefined hello = guard_below (length hello) 5 _ (λ g.
      byte_at-IsDefined hello 0 _ (omega arith) (λ kind. guard-IsDefined _ _ (λ e.
        be16_at-IsDefined hello 3 _ (omega arith) (λ len.
          guard_below (length hello) (5 + len) _ (λ g'.
            slice_at-IsDefined hello 5 (5 + len) _ (omega arith) g'
              (λ handshake. parse_handshake-IsDefined handshake))))))
