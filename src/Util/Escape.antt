-- ===== src/Util/Escape.antt =====
-- src/shk/src/util.cpp: `getShellEscapedString`. Strings are their bytes; the span that is still to be
-- copied is the list of its bytes.
pub mod Shell
mod Tests
use shuriken.Prelude.{
  List, ℕ, Bool, [], ◌∷◌, ◌++◌, if◌then◌else◌, nat_beq, leb, ◌&&◌, ◌||◌, not, true, false,
}

abbrev pub quote : ℕ
quote = 39

abbrev pub backslash : ℕ
backslash = 92

-- Letters, digits and "_+-./"
unfoldable pub is_known_shell_safe_character : ℕ → Bool
is_known_shell_safe_character ch =
    leb 65 ch && leb ch 90
    || leb 97 ch && leb ch 122
    || leb 48 ch && leb ch 57
    || nat_beq ch 95
    || nat_beq ch 43
    || nat_beq ch 45
    || nat_beq ch 46
    || nat_beq ch 47

unfoldable pub string_needs_shell_escaping : List ℕ → Bool
string_needs_shell_escaping [] = false
string_needs_shell_escaping (c ∷ cs) =
    let rest = string_needs_shell_escaping cs in
    if is_known_shell_safe_character c then rest else true

-- The loop over the input, and what follows it. A span begins at the quote that ended the last one.
unfoldable pub escape_loop : List ℕ → List ℕ → List ℕ → List ℕ
escape_loop [] result span = (result ++ span) ++ quote ∷ []
escape_loop (c ∷ cs) result span =
    let at_quote = escape_loop cs ((result ++ span) ++ quote ∷ backslash ∷ quote ∷ []) (c ∷ []) in
    let further = escape_loop cs result (span ++ c ∷ []) in
    if nat_beq c quote then at_quote else further

-- What is escaped goes to the end of the result.
unfoldable pub get_shell_escaped_string : List ℕ → List ℕ → List ℕ
get_shell_escaped_string input result =
    if string_needs_shell_escaping input
    then escape_loop input (result ++ quote ∷ []) []
    else result ++ input
