-- ===== src/Log/Parsed.antt =====
-- The outcome of reading a part of the log: a value, a `ParseError`, or the end of the program in `fatal`.
use shuriken.Prelude.{Bool, if◌then◌else◌}
use Prim.Native.String.{String}

pub data Parsed {ℓ} (A : Type ℓ) : Type ℓ where
  parsed : A → Parsed A
  parse_error : String → Parsed A
  aborted : Parsed A

infixl 5 ◌>>=◌ ◌>>◌
abbrev pub ◌>>=◌ {ℓ κ} : {A : Type ℓ} {B : Type κ} → Parsed A → (A → Parsed B) → Parsed B
parsed a >>= f = f a
parse_error e >>= f = parse_error e
aborted >>= f = aborted

abbrev pub ◌>>◌ {ℓ} : {B : Type ℓ} → Parsed (Unit {0}) → Parsed B → Parsed B
m >> k = m >>= λ _. k

-- `if (test) throw ParseError(message)`
abbrev pub refuse : Bool → String → Parsed (Unit {0})
refuse test message = if test then parse_error message else parsed tt
