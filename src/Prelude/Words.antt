-- ===== src/Prelude/Words.antt =====
-- Texts put together, as the source's template texts do.
use Prim.Native.String.{String, ◌++◌}

abbrev pub concat : String → String → String
concat a b = a ++ b
