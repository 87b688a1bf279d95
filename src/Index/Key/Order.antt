-- ===== src/Index/Key/Order.antt =====
-- The order of the encoded keys.
use chen_db.Prelude.{
  ℕ, Option, zero, suc, ◌-◌, ◌/◌, ◌%◌, ◌^◌, ◌<◌, ◌≡◌, refl, sym, ◌∙◌, inl, inr, Bool, true, false,
  ◌&&◌, ◌||◌, some, [], ◌∷◌, ◌++◌, arith, ltb, ◌==◌, if◌then◌else◌, length, length-append,
  Option-cases,
}
use native.Mathlib.Nat.{pow-suc}
use chen_db.Prelude.Bytes.{Bytes}
use chen_db.Prelude.Result.{ok}
use chen_db.Index.Key.{
  ℤ, pos, negsuc, integer_value, float_value, integer, float, int_bias, be_bytes, biased,
  float_to_sortable, encode_key,
}

-- Python's `<` on bytes.
unfoldable pub lt_bytes : Bytes → Bytes → Bool
lt_bytes [] [] = false
lt_bytes [] (y ∷ ys) = true
lt_bytes (x ∷ xs) [] = false
lt_bytes (x ∷ xs) (y ∷ ys) = ltb x y || (x == y && lt_bytes xs ys)

unfoldable eq_bytes : Bytes → Bytes → Bool
eq_bytes [] [] = true
eq_bytes [] (y ∷ ys) = false
eq_bytes (x ∷ xs) [] = false
eq_bytes (x ∷ xs) (y ∷ ys) = x == y && eq_bytes xs ys

-- `<` on integers.
abbrev pub lt_int : ℤ → ℤ → Bool
lt_int (pos m) (pos n) = ltb m n
lt_int (pos m) (negsuc n) = false
lt_int (negsuc m) (pos n) = true
lt_int (negsuc m) (negsuc n) = ltb n m

pub length-be_bytes : (n v : ℕ) → length (be_bytes n v) ≡ n
unfolding be_bytes
length-be_bytes zero v = refl
length-be_bytes (suc n) v =
    length-append (be_bytes n (v / 256)) ((v % 256) ∷ [])
    ∙ omega (arith, length-be_bytes n (v / 256))

eq_bytes-snoc :
    (xs ys : Bytes) (x y : ℕ)
    → length xs ≡ length ys
    → eq_bytes (xs ++ x ∷ []) (ys ++ y ∷ []) ≡ (eq_bytes xs ys && x == y)
unfolding eq_bytes
eq_bytes-snoc [] [] x y h = ground arith
eq_bytes-snoc [] (b ∷ ys) x y h = absurd (omega (arith, h))
eq_bytes-snoc (a ∷ xs) [] x y h = absurd (omega (arith, h))
eq_bytes-snoc (a ∷ xs) (b ∷ ys) x y h = ground (arith, eq_bytes-snoc xs ys x y (omega (arith, h)))

lt_bytes-snoc :
    (xs ys : Bytes) (x y : ℕ)
    → length xs ≡ length ys
    → lt_bytes (xs ++ x ∷ []) (ys ++ y ∷ []) ≡ (lt_bytes xs ys || (eq_bytes xs ys && ltb x y))
unfolding eq_bytes lt_bytes
lt_bytes-snoc [] [] x y h = ground arith
lt_bytes-snoc [] (b ∷ ys) x y h = absurd (omega (arith, h))
lt_bytes-snoc (a ∷ xs) [] x y h = absurd (omega (arith, h))
lt_bytes-snoc (a ∷ xs) (b ∷ ys) x y h = ground (arith, lt_bytes-snoc xs ys x y (omega (arith, h)))

same_length : (n a b : ℕ) → length (be_bytes n a) ≡ length (be_bytes n b)
same_length n a b = length-be_bytes n a ∙ sym (length-be_bytes n b)

pub div_bound : (n v : ℕ) → v < 256 ^ suc n → v / 256 < 256 ^ n
div_bound n v h = omega (arith, pow-suc 256 n)

eq_bytes-be_bytes :
    (n a b : ℕ) → a < 256 ^ n → b < 256 ^ n → eq_bytes (be_bytes n a) (be_bytes n b) ≡ (a == b)
unfolding eq_bytes be_bytes
eq_bytes-be_bytes zero a b h k = ground arith
eq_bytes-be_bytes (suc n) a b h k =
    eq_bytes-snoc (be_bytes n (a / 256)) (be_bytes n (b / 256)) (a % 256) (b % 256)
      (same_length n (a / 256) (b / 256))
    ∙ ground (arith, eq_bytes-be_bytes n (a / 256) (b / 256) (div_bound n a h) (div_bound n b k))

-- Big-endian bytes are ordered as the numbers that they encode, if those fit.
pub lt_bytes-be_bytes :
    (n a b : ℕ) → a < 256 ^ n → b < 256 ^ n → lt_bytes (be_bytes n a) (be_bytes n b) ≡ ltb a b
unfolding lt_bytes be_bytes
lt_bytes-be_bytes zero a b h k = ground arith
lt_bytes-be_bytes (suc n) a b h k =
    lt_bytes-snoc (be_bytes n (a / 256)) (be_bytes n (b / 256)) (a % 256) (b % 256)
      (same_length n (a / 256) (b / 256))
    ∙ ground (
      arith,
      lt_bytes-be_bytes n (a / 256) (b / 256) (div_bound n a h) (div_bound n b k),
      eq_bytes-be_bytes n (a / 256) (b / 256) (div_bound n a h) (div_bound n b k),
    )

pub biased_bound : (x : ℤ) (v : ℕ) → biased x ≡ some v → v < 256 ^ 8
unfolding biased
biased_bound (pos n) v h = ground (arith, h)
biased_bound (negsuc n) v h = ground (arith, h)

biased-lt : (x y : ℤ) (v w : ℕ) → biased x ≡ some v → biased y ≡ some w → ltb v w ≡ lt_int x y
unfolding biased
biased-lt (pos m) (pos n) v w h k = ground (arith, h, k)
biased-lt (pos m) (negsuc n) v w h k = ground (arith, h, k)
biased-lt (negsuc m) (pos n) v w h k = ground (arith, h, k)
biased-lt (negsuc m) (negsuc n) v w h k = ground (arith, h, k)

-- The keys of two integers that have keys compare as bytes as the integers do.
pub encode_key-integer_order :
    (float_of : ℤ → Option ℕ) (x y : ℤ) (k l : Bytes)
    → encode_key float_of (integer_value x) integer ≡ ok k
    → encode_key float_of (integer_value y) integer ≡ ok l
    → lt_bytes k l ≡ lt_int x y
unfolding encode_key lt_bytes
encode_key-integer_order float_of x y k l hk hl = elim (Option-cases (biased x)) [
  | inl e ↦ absurd (ground (arith, e, hk))
  | inr (v, e) ↦ elim (Option-cases (biased y)) [
    | inl f ↦ absurd (ground (arith, f, hl))
    | inr (w, f) ↦ ground (
      arith,
      e,
      f,
      hk,
      hl,
      lt_bytes-be_bytes 8 v w (biased_bound x v e) (biased_bound y w f),
      biased-lt x y v w e f,
    )
  ]
]

-- A float as the integer of its sign and its magnitude: both zeros are 0.
abbrev pub signed : ℕ → ℤ
signed bits =
    if ltb bits int_bias
    then pos bits
    else if bits == int_bias
    then pos 0
    else negsuc (bits - suc int_bias)

pub sortable_bound : (bits : ℕ) → bits < 2 ^ 64 → float_to_sortable bits < 256 ^ 8
unfolding float_to_sortable
sortable_bound bits h = ground (arith, h)

sortable-lt :
    (a b : ℕ)
    → a < 2 ^ 64
    → b < 2 ^ 64
    → ltb (float_to_sortable a) (float_to_sortable b) ≡ lt_int (signed a) (signed b)
unfolding float_to_sortable
sortable-lt a b h k = ground (arith, h, k)

-- The keys of two floats compare as bytes as their signs and magnitudes do, and both zeros have
-- the same key.
pub encode_key-float_order :
    (float_of : ℤ → Option ℕ) (a b : ℕ) (k l : Bytes)
    → a < 2 ^ 64
    → b < 2 ^ 64
    → encode_key float_of (float_value a) float ≡ ok k
    → encode_key float_of (float_value b) float ≡ ok l
    → lt_bytes k l ≡ lt_int (signed a) (signed b)
unfolding encode_key lt_bytes
encode_key-float_order float_of a b k l ha hb hk hl = ground (
  arith,
  hk,
  hl,
  sortable-lt a b ha hb,
  lt_bytes-be_bytes 8 (float_to_sortable a) (float_to_sortable b) (sortable_bound a ha)
      (sortable_bound b hb),
)
