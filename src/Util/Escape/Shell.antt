-- ===== src/Util/Escape/Shell.antt =====
-- About `getShellEscapedString` of src/shk/src/util.cpp: what a shell reads of the result.
use shuriken.Util.Escape.{is_known_shell_safe_character, quote, backslash}
use shuriken.Prelude.{List, ℕ, Option, ◌∷◌, some, [], if◌then◌else◌, none, nat_beq}

-- Outside of quotes, between single quotes, or after a backslash
pub data Quoting : Type 0 where
  unquoted quoted escaped : Quoting

abbrev pub with_byte : ℕ → Option (List ℕ) → Option (List ℕ)
with_byte c none = none
with_byte c (some word) = some (c ∷ word)

-- What a POSIX shell makes of a word in which only single quotes and backslashes quote: a byte that is
-- not known to be safe ends it where nothing quotes it.
pub read_word : Quoting → List ℕ → Option (List ℕ)
read_word unquoted [] = some []
read_word quoted [] = none
read_word escaped [] = none
read_word unquoted (c ∷ cs) =
    let plain = read_word unquoted cs in
    let within = read_word quoted cs in
    let after = read_word escaped cs in
    if nat_beq c quote
    then within
    else if nat_beq c backslash
    then after
    else if is_known_shell_safe_character c
    then with_byte c plain
    else none
read_word quoted (c ∷ cs) =
    let within = read_word quoted cs in
    let plain = read_word unquoted cs in if nat_beq c quote then plain else with_byte c within
read_word escaped (c ∷ cs) = with_byte c (read_word unquoted cs)

-- What the loop makes of the input
abbrev quoted_bytes : List ℕ → List ℕ
quoted_bytes [] = []
quoted_bytes (c ∷ cs) =
    let rest = quoted_bytes cs in
    if nat_beq c quote then quote ∷ backslash ∷ quote ∷ quote ∷ rest else c ∷ rest
