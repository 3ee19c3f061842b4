-- ===== src/Tests/Spelling.antt =====
-- Texts of the tests, as lists of bytes, from string literals.
use Prim.Native.Char.{code}
use Prim.Native.String.{String}
use cache_simulator.Prelude.{[], ◌∷◌}
use cache_simulator.Trace.Text.{Text}

abbrev pub codes : String → Text
codes String.[] = []
codes (String.◌∷◌ c s) = code c ∷ codes s
