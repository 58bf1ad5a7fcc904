-- ===== src/Prelude/Text.antt =====
-- Bytes of C strings, and the `<string.h>` searches that the firmware makes over them.
use Prim.Native.Char.{code}
use Prim.Native.Nat.{ℕ, suc}
use Prim.Native.String.{String}
use mathlib.Core.Bool.{Bool, true, false, ◌&&◌}
use mathlib.Core.List.{List, [], ◌∷◌}
use mathlib.Core.Option.{Option, none, some}
use mathlib.Core.Option
use service_payment_bridge.Prelude.Tests.{◌==◌, if◌then◌else◌}

abbrev pub Bytes : Type 0
Bytes = List ℕ

-- The code points of a literal of the source: its bytes, since each is ASCII.
abbrev pub codes : String → Bytes
codes String.[] = []
codes (String.◌∷◌ c s) = code c ∷ codes s

-- The C string that a buffer holds: its bytes up to the first NUL.
unfoldable pub cstr : Bytes → Bytes
cstr [] = []
cstr (c ∷ cs) = if c == 0 then [] else c ∷ cstr cs

-- `strcmp(s, t) == 0` on C strings without their NUL.
unfoldable pub str_eq : Bytes → Bytes → Bool
str_eq [] [] = true
str_eq [] (d ∷ t) = false
str_eq (c ∷ s) [] = false
str_eq (c ∷ s) (d ∷ t) = (c == d) && str_eq s t

-- `strncmp(s, t, strlen(t)) == 0`
unfoldable pub has_prefix : Bytes → Bytes → Bool
has_prefix s [] = true
has_prefix [] (d ∷ t) = false
has_prefix (c ∷ s) (d ∷ t) = (c == d) && has_prefix s t

-- `strchr`, `strstr`: the offset of the first occurrence.
unfoldable pub index_of : ℕ → Bytes → Option ℕ
index_of d [] = none
index_of d (c ∷ s) = if c == d then some 0 else Option.map suc (index_of d s)

unfoldable pub find : Bytes → Bytes → Option ℕ
unfolding has_prefix
find t [] = if has_prefix [] t then some 0 else none
find t (c ∷ s) = if has_prefix (c ∷ s) t then some 0 else Option.map suc (find t s)
