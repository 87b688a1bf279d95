-- ===== src/Prelude/Slices.antt =====
-- A `bytearray`: reading and assigning a slice of it, and the integers that `struct` reads and writes in
-- place, which are `none` where it raises `struct.error`.
use Prim.Native.Nat.{ℕ, zero, suc, ◌+◌, ◌≤◌, ◌^◌}
use mathlib.Core.Path.{◌≡◌, refl, sym, ap, ◌∙◌}
use mathlib.Core.Logic.{inl, inr}
use mathlib.Core.Bool.{Bool, true}
use mathlib.Core.List.{[], ◌∷◌, ◌++◌}
use mathlib.Core.Option.{Option, none, some}
use native.Mathlib.Omega.{arith}
use chen_db.Prelude.Tests.{ltb, leb, if◌then◌else◌, Bool-cases}
use chen_db.Prelude.Lists.{
  length, take, drop, length-append, length-take, length-drop, take-append_length, drop-nil,
  take-append_le, drop-drop,
}
use chen_db.Prelude.Bytes.{Bytes, le_bytes, le_value}

-- `buf[offset : offset + n]`
unfoldable pub slice : ℕ → ℕ → Bytes → Bytes
slice offset n buf = take n (drop offset buf)

-- `buf[offset : offset + len(items)] = items`
unfoldable pub splice : ℕ → Bytes → Bytes → Bytes
splice offset items buf = take offset buf ++ (items ++ drop (length items) (drop offset buf))

pub length-slice : (off n : ℕ) (buf : Bytes) → off + n ≤ length buf → length (slice off n buf) ≡ n
unfolding slice
length-slice off n buf h = omega (arith, length-take n (drop off buf), length-drop off buf)

pub length-splice :
    (off : ℕ) (bs buf : Bytes)
    → off + length bs ≤ length buf
    → length (splice off bs buf) ≡ length buf
unfolding splice
length-splice off bs buf h = omega (
  arith,
  length-append (take off buf) (bs ++ drop (length bs) (drop off buf)),
  length-append bs (drop (length bs) (drop off buf)),
  length-take off buf,
  length-drop (length bs) (drop off buf),
  length-drop off buf,
)

-- What was written is read.
pub slice-splice_same :
    (off n : ℕ) (bs buf : Bytes)
    → n ≡ length bs
    → off ≤ length buf
    → slice off n (splice off bs buf) ≡ bs
unfolding slice splice
slice-splice_same zero n bs buf e h = take-append_length bs (drop (length bs) buf) n e
slice-splice_same (suc off) n bs [] e h = absurd (omega arith)
slice-splice_same (suc off) n bs (x ∷ buf) e h = slice-splice_same off n bs buf e (omega arith)

take_before :
    (n off : ℕ) (bs buf : Bytes)
    → n ≤ off
    → off ≤ length buf
    → take n (splice off bs buf) ≡ take n buf
unfolding splice
take_before zero off bs buf h k = refl
take_before (suc n) zero bs buf h k = absurd (omega arith)
take_before (suc n) (suc off) bs [] h k = absurd (omega arith)
take_before (suc n) (suc off) bs (x ∷ buf) h k =
    ap (◌∷◌ x) (take_before n off bs buf (omega arith) (omega arith))

pub slice-splice_before :
    (o n off : ℕ) (bs buf : Bytes)
    → o + n ≤ off
    → off ≤ length buf
    → slice o n (splice off bs buf) ≡ slice o n buf
unfolding slice splice
slice-splice_before zero n off bs buf h k = take_before n off bs buf (omega arith) k
slice-splice_before (suc o) n zero bs buf h k = absurd (omega arith)
slice-splice_before (suc o) n (suc off) bs [] h k = absurd (omega arith)
slice-splice_before (suc o) n (suc off) bs (x ∷ buf) h k =
    slice-splice_before o n off bs buf (omega arith) (omega arith)

pub drop_after :
    (o : ℕ) (bs buf : Bytes) → length bs ≤ o → drop o (bs ++ drop (length bs) buf) ≡ drop o buf
drop_after o [] buf h = refl
drop_after zero (b ∷ bs) buf h = absurd (omega arith)
drop_after (suc o) (b ∷ bs) [] h =
    ap (λ (r : Bytes). drop o (bs ++ r)) (sym (drop-nil (length bs)))
    ∙ drop_after o bs [] (omega arith)
    ∙ drop-nil o
drop_after (suc o) (b ∷ bs) (x ∷ buf) h = drop_after o bs buf (omega arith)

pub slice-splice_after :
    (o n off : ℕ) (bs buf : Bytes)
    → off + length bs ≤ o
    → off ≤ length buf
    → slice o n (splice off bs buf) ≡ slice o n buf
unfolding slice splice
slice-splice_after o n zero bs buf h k = ap (take n) (drop_after o bs buf (omega arith))
slice-splice_after zero n (suc off) bs buf h k = absurd (omega arith)
slice-splice_after (suc o) n (suc off) bs [] h k = absurd (omega arith)
slice-splice_after (suc o) n (suc off) bs (x ∷ buf) h k =
    slice-splice_after o n off bs buf (omega arith) (omega arith)

-- Two ranges of bytes that do not meet.
abbrev pub apart : ℕ → ℕ → ℕ → ℕ → Bool
apart o n off m = if leb (o + n) off then true else leb (off + m) o

pub slice-splice_apart :
    (o n off : ℕ) (bs buf : Bytes)
    → apart o n off (length bs) ≡ true
    → off + length bs ≤ length buf
    → slice o n (splice off bs buf) ≡ slice o n buf
slice-splice_apart o n off bs buf h k = elim (Bool-cases (leb (o + n) off)) [
  | inl before ↦ slice-splice_before o n off bs buf (ground arith) (omega arith)
  | inr after ↦ slice-splice_after o n off bs buf (ground (arith, h)) (omega arith)
]

take-take_append :
    (j n : ℕ) (xs ys : Bytes) → j + n ≤ length xs → take n (drop j (xs ++ ys)) ≡ take n (drop j xs)
take-take_append zero n xs ys h = take-append_le xs ys n (omega (arith, h))
take-take_append (suc j) n [] ys h = absurd (omega arith)
take-take_append (suc j) n (x ∷ xs) ys h = take-take_append j n xs ys (omega arith)

-- A part of what was written.
pub slice-splice_inside :
    (off j n : ℕ) (items buf : Bytes)
    → j + n ≤ length items
    → off ≤ length buf
    → slice (off + j) n (splice off items buf) ≡ slice j n items
unfolding slice splice
slice-splice_inside zero j n items buf h k =
    let e : zero + j ≡ j = omega arith in
    rw e (take-take_append j n items (drop (length items) buf) h)
slice-splice_inside (suc off) j n items [] h k = absurd (omega arith)
slice-splice_inside (suc off) j n items (x ∷ buf) h k =
    let e : suc off + j ≡ suc (off + j) = omega arith in
    rw e (slice-splice_inside off j n items buf h (omega arith))

take-drop-take :
    (j n m : ℕ) (xs : Bytes) → j + n ≤ m → take n (drop j (take m xs)) ≡ take n (drop j xs)
take-drop-take zero zero m xs h = refl
take-drop-take zero (suc n) zero xs h = absurd (omega arith)
take-drop-take zero (suc n) (suc m) [] h = refl
take-drop-take zero (suc n) (suc m) (x ∷ xs) h =
    ap (◌∷◌ x) (take-drop-take zero n m xs (omega arith))
take-drop-take (suc j) n zero xs h = absurd (omega arith)
take-drop-take (suc j) n (suc m) [] h = refl
take-drop-take (suc j) n (suc m) (x ∷ xs) h = take-drop-take j n m xs (omega arith)

-- A part of a slice.
pub slice-slice :
    (j n off m : ℕ) (buf : Bytes) → j + n ≤ m → slice j n (slice off m buf) ≡ slice (off + j) n buf
unfolding slice
slice-slice j n off m buf h =
    take-drop-take j n m (drop off buf) h ∙ ap (take n) (sym (drop-drop off j buf))

-- `struct.Struct.unpack_from`, for one little-endian unsigned integer of `n` bytes.
unfoldable pub unpack_from : ℕ → ℕ → Bytes → Option ℕ
unpack_from n offset buf =
    if leb (offset + n) (length buf) then some (le_value (slice offset n buf)) else none

-- `struct.Struct.pack_into`
unfoldable pub pack_into : ℕ → ℕ → ℕ → Bytes → Option Bytes
pack_into n offset value buf =
    if leb (offset + n) (length buf)
    then (if ltb value (256 ^ n) then some (splice offset (le_bytes n value) buf) else none)
    else none
