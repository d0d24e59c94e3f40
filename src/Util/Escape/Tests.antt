-- ===== src/Util/Escape/Tests.antt =====
-- "it's" in a shell
use shuriken.Prelude.{List, ℕ, ◌∷◌, []}

abbrev its : List ℕ
its = 105 ∷ 116 ∷ 39 ∷ 115 ∷ []
