-- ===== src/Darwin/Rules.antt =====
-- The file rules of the Seatbelt profile, and that its text is read as them.
use claw_crate.Base.{
  ◌≡◌, refl, ◌∙◌, Text, codes, Bool, true, false, Option, some, List, [], ◌∷◌, ◌++◌, FilePath,
}
use claw_crate.Profiles.Resolve.{NetLevel, no_network, open_network, filtered}
use claw_crate.Darwin.{
  path_text, PreparedDarwinSandbox, escape_sbpl_string, escape_sbpl_regex, glob_to_regex,
  sensitive_deny_paths, read_lines, write_lines, deny_lines, sensitive_lines, flat_map, first_lines,
  net_line,
}
use claw_crate.Darwin.Strings.{read_string, read-escape_sbpl_string, read-escape_sbpl_regex}

pub data Operation : Type 0 where
  file_read file_write : Operation

pub data Filter : Type 0 where
  literal subpath : FilePath → Filter
  regex : Text → Filter

-- A rule allows or denies an operation on what its filter matches.
pub record Rule : Type 0 where
  pub allows : Bool
  pub operation : Operation
  pub filter : Filter

abbrev verb : Bool → Text
verb true = codes "(allow "
verb false = codes "(deny "

abbrev operation_text : Operation → Text
operation_text file_read = codes "file-read* ("
operation_text file_write = codes "file-write* ("

abbrev kind : Filter → Text
kind (literal path) = codes "literal \""
kind (subpath path) = codes "subpath \""
kind (regex r) = codes "regex #\""

abbrev argument : Filter → Text
argument (literal path) = path_text path
argument (subpath path) = path_text path
argument (regex r) = r

-- How Seatbelt reads what stands behind `#"`: the regular expression, and what follows its quote.
abbrev pub LiteralReader : Type 0
LiteralReader = Text → Option (Text × Text)

-- It undoes the escapes of a string there too.
abbrev pub UndoesEscapes : LiteralReader → Type 0
UndoesEscapes read_literal = (s : Text) → read_literal s ≡ read_string false s

module _ (read_literal : LiteralReader) where
  abbrev read_argument : Filter → Text → Option (Text × Text)
  read_argument (literal path) s = read_string false s
  read_argument (subpath path) s = read_string false s
  read_argument (regex r) s = read_literal s

  -- A line is read as a rule: its words in front, the argument in quotes, and nothing else.
  abbrev pub Says : Text → Rule → Type 0
  Says line rule =
      (s : Text) × (line
        ≡ verb rule.allows ++ (operation_text rule.operation ++ (kind rule.filter ++ s)))
      × (read_argument rule.filter s ≡ some (argument rule.filter, codes "))"))

  pub AllSay : List Text → List Rule → Type 0
  AllSay [] [] = Unit
  AllSay (line ∷ lines) (rule ∷ rules) = Says line rule × AllSay lines rules
  AllSay _ _ = ⊥

  AllSay-append :
      (ls ms : List Text) (rs ss : List Rule)
      → AllSay ls rs
      → AllSay ms ss
      → AllSay (ls ++ ms) (rs ++ ss)
  unfolding AllSay
  AllSay-append [] ms [] ss h k = k
  AllSay-append [] ms (r ∷ rs) ss h k = absurd h
  AllSay-append (l ∷ ls) ms [] ss h k = absurd h
  AllSay-append (l ∷ ls) ms (r ∷ rs) ss (h, hs) k = (h, AllSay-append ls ms rs ss hs k)

  AllSay-flat_map :
      {A : Type 0} (f : A → List Text) (g : A → List Rule)
      → ((a : A) → AllSay (f a) (g a))
      → (xs : List A) → AllSay (flat_map f xs) (flat_map g xs)
  unfolding AllSay
  AllSay-flat_map f g each [] = tt
  AllSay-flat_map f g each (x ∷ xs) =
      AllSay-append (f x) (flat_map f xs) (g x) (flat_map g xs) (each x)
        (AllSay-flat_map f g each xs)

abbrev pub rule : Bool → Operation → Filter → Rule
rule allows operation filter = record { allows = allows; operation = operation; filter = filter }

abbrev pub reading : FilePath → List Rule
reading path = rule true file_read (literal path) ∷ rule true file_read (subpath path) ∷ []

abbrev pub writing : FilePath → List Rule
writing path =
    rule true file_read (literal path)
    ∷ rule true file_read (subpath path)
    ∷ rule true file_write (literal path)
    ∷ rule true file_write (subpath path)
    ∷ []

abbrev pub denying : Filter → List Rule
denying filter = rule false file_read filter ∷ rule false file_write filter ∷ []

abbrev pub file_rules : PreparedDarwinSandbox → Option FilePath → List Rule
file_rules prepared home =
    flat_map reading prepared.fs_read
    ++ (flat_map writing prepared.fs_write
        ++ (flat_map (λ pattern. denying (regex (glob_to_regex pattern))) prepared.fs_deny
            ++ flat_map (λ path. denying (subpath path)) (sensitive_deny_paths home)))

abbrev shared_opening : Text → List Text
shared_opening network =
    codes "(version 1)"
    ∷ codes "(deny default)"
    ∷ codes "(import \"system.sb\")"
    ∷ codes "(allow process-exec)"
    ∷ codes "(allow process-fork)"
    ∷ codes "(allow signal (target self))"
    ∷ codes "(allow file-read-metadata)"
    ∷ codes "(allow sysctl-read)"
    ∷ network
    ∷ []

-- The profile's lines before those about files.
abbrev pub opening : NetLevel → List Text
opening no_network = shared_opening (codes "(deny network*)")
opening open_network = shared_opening (codes "(allow network*)")
opening (filtered allowed) = shared_opening (codes "(allow network*)")

pub opening_lines : (net : NetLevel) → first_lines ++ net_line net ∷ [] ≡ opening net
opening_lines no_network = refl
opening_lines open_network = refl
opening_lines (filtered allowed) = refl

module _ (read_literal : LiteralReader) (undoes : UndoesEscapes read_literal) where
  path-Says :
      (allows : Bool) (operation : Operation) (path : FilePath)
      → Says read_literal
          (verb allows
            ++ (operation_text operation
                ++ (codes "subpath \"" ++ (escape_sbpl_string (path_text path) ++ codes "\"))"))))
          (rule allows operation (subpath path))
  path-Says allows operation path = (
    escape_sbpl_string (path_text path) ++ codes "\"))",
    refl,
    read-escape_sbpl_string (path_text path) (codes "))"),
  )

  literal-Says :
      (allows : Bool) (operation : Operation) (path : FilePath)
      → Says read_literal
          (verb allows
            ++ (operation_text operation
                ++ (codes "literal \"" ++ (escape_sbpl_string (path_text path) ++ codes "\"))"))))
          (rule allows operation (literal path))
  literal-Says allows operation path = (
    escape_sbpl_string (path_text path) ++ codes "\"))",
    refl,
    read-escape_sbpl_string (path_text path) (codes "))"),
  )

  regex-Says :
      (allows : Bool) (operation : Operation) (r : Text)
      → Says read_literal
          (verb allows
            ++ (operation_text operation
                ++ (codes "regex #\"" ++ (escape_sbpl_regex r ++ codes "\"))"))))
          (rule allows operation (regex r))
  regex-Says allows operation r = (
    escape_sbpl_regex r ++ codes "\"))",
    refl,
    undoes (escape_sbpl_regex r ++ codes "\"))") ∙ read-escape_sbpl_regex r (codes "))"),
  )

  -- The lines about files are read as the file rules.
  pub lines-AllSay :
      (prepared : PreparedDarwinSandbox) (home : Option FilePath)
      → AllSay read_literal
          (flat_map read_lines prepared.fs_read
            ++ (flat_map write_lines prepared.fs_write
                ++ (flat_map deny_lines prepared.fs_deny
                    ++ flat_map sensitive_lines (sensitive_deny_paths home))))
          (file_rules prepared home)
  unfolding AllSay
  lines-AllSay prepared home =
      let deny = λ (pattern : Text). denying (regex (glob_to_regex pattern)) in
      let hide = λ (path : FilePath). denying (subpath path) in
      AllSay-append read_literal _ _ _ _
        (AllSay-flat_map read_literal read_lines reading
          (λ p. (literal-Says true file_read p, (path-Says true file_read p, tt))) prepared.fs_read)
        (AllSay-append read_literal _ _ _ _
          (AllSay-flat_map read_literal write_lines writing
            (λ p. (
              literal-Says true file_read p,
              (
                path-Says true file_read p,
                (literal-Says true file_write p, (path-Says true file_write p, tt)),
              ),
            ))
            prepared.fs_write)
          (AllSay-append read_literal _ _ _ _
            (AllSay-flat_map read_literal deny_lines deny
              (λ p. (
                regex-Says false file_read (glob_to_regex p),
                (regex-Says false file_write (glob_to_regex p), tt),
              ))
              prepared.fs_deny)
            (AllSay-flat_map read_literal sensitive_lines hide
              (λ p. (path-Says false file_read p, (path-Says false file_write p, tt)))
              (sensitive_deny_paths home))))
