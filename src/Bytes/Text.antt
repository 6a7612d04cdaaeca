-- ===== src/Bytes/Text.antt =====
-- Texts of the source as bytes, where they are ASCII.
use Prim.Native.Char.{code}
use Prim.Native.String.{String}
use promshim_clickhouse.Base.{[], ◌∷◌}
use promshim_clickhouse.Bytes.{Bytes}

abbrev pub text : String → Bytes
text String.[] = []
text (String.◌∷◌ c s) = code c ∷ text s
