-- ===== src/Prelude/Words.antt =====
-- Bytes and machine words. A byte string (`Vec<u8>`, `ByteBuf`) and a text (`String`, its UTF-8
-- bytes) are lists of bytes. `usize` counts of values held in memory are unbounded here.
use Prim.Native.Nat.{ℕ, ◌+◌, ◌%◌, min}
use Prim.Native.Char.{code}
use Prim.Native.String.{String}
use mathlib.Core.List.{List, [], ◌∷◌}

abbrev pub Bytes : Type 0
Bytes = List ℕ

abbrev pub Text : Type 0
Text = List ℕ

-- The bytes of an ASCII literal.
abbrev pub text : String → Text
text String.[] = []
text (String.◌∷◌ c s) = code c ∷ text s

abbrev pub u16_max : ℕ
u16_max = 65535

abbrev pub u32_max : ℕ
u32_max = 4294967295

abbrev pub u64_max : ℕ
u64_max = 18446744073709551615

-- `n as u32`
abbrev pub as_u32 : ℕ → ℕ
as_u32 n = n % (u32_max + 1)

-- `n as u16`
abbrev pub as_u16 : ℕ → ℕ
as_u16 n = n % (u16_max + 1)

-- `u16::try_from(n).unwrap_or(u16::MAX)`
abbrev pub clamp_u16 : ℕ → ℕ
clamp_u16 n = min n u16_max

-- `u32::try_from(n).unwrap_or(u32::MAX)`
abbrev pub clamp_u32 : ℕ → ℕ
clamp_u32 n = min n u32_max

-- `a.saturating_add(b)` on `u16`
abbrev pub saturating_add_u16 : ℕ → ℕ → ℕ
saturating_add_u16 a b = min (a + b) u16_max
