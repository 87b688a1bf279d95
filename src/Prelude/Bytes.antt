-- ===== src/Prelude/Bytes.antt =====
-- Little-endian integers in bytes, as `struct.pack` and `struct.unpack` lay them out.
use Prim.Native.Nat.{ℕ, zero, suc, ◌+◌, ◌*◌, ◌/◌, ◌%◌, ◌^◌, ◌<◌}
use mathlib.Core.Path.{◌≡◌, refl, ap}
use mathlib.Core.List.{List, [], ◌∷◌}
use mathlib.Core.Option.{Option, none, some}
use native.Mathlib.Omega.{arith}
use native.Mathlib.Nat.{pow-suc}
use chen_db.Prelude.Tests.{ltb, if◌then◌else◌}
use chen_db.Prelude.Lists.{length}

abbrev pub Bytes : Type 0
Bytes = List ℕ

-- The `n` low bytes of a number, the lowest first.
unfoldable pub le_bytes : ℕ → ℕ → Bytes
le_bytes zero v = []
le_bytes (suc n) v = (v % 256) ∷ le_bytes n (v / 256)

unfoldable pub le_value : Bytes → ℕ
le_value [] = 0
le_value (b ∷ bs) = b + 256 * le_value bs

pub length-le_bytes : (n v : ℕ) → length (le_bytes n v) ≡ n
unfolding le_bytes
length-le_bytes zero v = refl
length-le_bytes (suc n) v = ap suc (length-le_bytes n (v / 256))

div_bound : (n v : ℕ) → v < 256 ^ suc n → v / 256 < 256 ^ n
div_bound n v h = omega (arith, pow-suc 256 n)

pub le_value-le_bytes : (n v : ℕ) → v < 256 ^ n → le_value (le_bytes n v) ≡ v
unfolding le_bytes le_value
le_value-le_bytes zero v h = omega arith
le_value-le_bytes (suc n) v h = omega (arith, le_value-le_bytes n (v / 256) (div_bound n v h))

-- `struct.pack` of one unsigned field of `n` bytes; `none` is `struct.error`.
unfoldable pub pack : ℕ → ℕ → Option Bytes
pack n v = if ltb v (256 ^ n) then some (le_bytes n v) else none
