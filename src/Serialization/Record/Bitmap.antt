-- ===== src/Serialization/Record/Bitmap.antt =====
-- The null bitmap: setting a bit is seen at that bit and nowhere else.
use Prim.Native.Nat.{bit_or}
use chen_db.Prelude.{
  ℕ, zero, suc, ◌-◌, ◌*◌, ◌/◌, ◌%◌, ◌^◌, ◌<◌, ◌≡◌, refl, ap, ◌∙◌, Bool, true, false, [], ◌∷◌, ◌++◌,
  inl, inr, ltb, not, ◌==◌, if◌then◌else◌, length, arith, Bool-cases,
}
use chen_db.Prelude.Bytes.{Bytes}
use chen_db.Serialization.Record.{set_bit, is_null, zero_bytes}

-- A test of every number under a bound, run by evaluation.
tested : (ℕ → Bool) → ℕ → Bool
tested p zero = true
tested p (suc bound) = if p bound then tested p bound else false

tested-at : (p : ℕ → Bool) (bound : ℕ) → tested p bound ≡ true → (k : ℕ) → k < bound → p k ≡ true
unfolding tested
tested-at p zero run k under = absurd (omega (arith, under))
tested-at p (suc bound) run k under = elim (Bool-cases (p bound)) [
  | inr fails ↦ absurd (ground (arith, run, fails))
  | inl holds ↦ elim (Bool-cases (k == bound)) [
    | inl last ↦ let e : k ≡ bound = ground (arith, last) in ap p e ∙ holds
    | inr before ↦ tested-at p bound (simp holds at run) k (ground (arith, before, under))
  ]
]

agree : Bool → Bool → Bool
agree a b = if a then b else not b

agree-same : (a b : Bool) → agree a b ≡ true → a ≡ b
unfolding agree
agree-same true true h = refl
agree-same true false h = cc
agree-same false true h = cc
agree-same false false h = refl

abbrev bit : ℕ → ℕ → Bool
bit b j = (b / 2 ^ j) % 2 == 1

-- Of a byte and two bit numbers.
abbrev or_bit : ℕ → ℕ → ℕ → Bool
or_bit b k j = agree (bit (bit_or b (2 ^ k)) j) (if k == j then true else bit b j)

or_bit_table : tested (λ k. tested (λ j. tested (λ b. or_bit b k j) 256) 8) 8 ≡ true
unfolding tested agree
or_bit_table = refl

small_table : tested (λ k. tested (λ b. ltb (bit_or b (2 ^ k)) 256) 256) 8 ≡ true
unfolding tested
small_table = refl

or_bit_lem :
    (b k j : ℕ)
    → b < 256
    → k < 8
    → j < 8
    → bit (bit_or b (2 ^ k)) j ≡ (if k == j then true else bit b j)
or_bit_lem b k j hb hk hj =
    let row = tested-at (λ z. tested (λ y. tested (λ x. or_bit x z y) 256) 8) 8 or_bit_table k hk in
    let cell = tested-at (λ y. tested (λ x. or_bit x k y) 256) 8 row j hj in
    agree-same _ _ (tested-at (λ x. or_bit x k j) 256 cell b hb)

-- Every byte is one.
abbrev pub AllBytes : Bytes → Type 0
AllBytes [] = Unit
AllBytes (b ∷ bs) = (b < 256) × AllBytes bs

pub set_bit-AllBytes : (i : ℕ) (bs : Bytes) → AllBytes bs → AllBytes (set_bit i bs)
unfolding set_bit
set_bit-AllBytes i [] h = tt
set_bit-AllBytes i (b ∷ bs) h = elim (Bool-cases (ltb i 8)) [
  | inl low ↦
      let row =
        tested-at (λ z. tested (λ x. ltb (bit_or x (2 ^ z)) 256) 256) 8 small_table i
          (ground (arith, low)) in
      let cell = tested-at (λ x. ltb (bit_or x (2 ^ i)) 256) 256 row b h.0 in
      simp low (ground (arith, cell), h.1)
  | inr high ↦ simp high (h.0, set_bit-AllBytes (i - 8) bs h.1)
]

pub length-set_bit : (i : ℕ) (bs : Bytes) → length (set_bit i bs) ≡ length bs
unfolding set_bit
length-set_bit i [] = refl
length-set_bit i (b ∷ bs) = elim (Bool-cases (ltb i 8)) [
  | inl low ↦ simp low refl
  | inr high ↦ simp high (ap suc (length-set_bit (i - 8) bs))
]

pub is_null-set_bit :
    (i j : ℕ) (bs : Bytes)
    → AllBytes bs
    → i < 8 * length bs
    → is_null (set_bit i bs) j ≡ (if i == j then true else is_null bs j)
unfolding set_bit is_null
is_null-set_bit i j [] h k = absurd (omega arith)
is_null-set_bit i j (b ∷ bs) h k = elim (Bool-cases (ltb i 8)) [
  | inl low ↦ elim (Bool-cases (ltb j 8)) [
    | inl low' ↦
        simp (low, low') (or_bit_lem b i j h.0 (ground (arith, low)) (ground (arith, low')))
    | inr high' ↦
        let ne : (i == j) ≡ false = ground (arith, low, high') in simp (low, high', ne) refl
  ]
  | inr high ↦ elim (Bool-cases (ltb j 8)) [
    | inl low' ↦
        let ne : (i == j) ≡ false = ground (arith, high, low') in simp (high, low', ne) refl
    | inr high' ↦
        let e : (i - 8 == j - 8) ≡ (i == j) = ground (arith, high, high') in
        simp (high, high')
          (is_null-set_bit (i - 8) (j - 8) bs h.1 (ground (arith, high, k))
            ∙ ap (λ z. if z then true else is_null bs (j - 8)) e)
  ]
]

zero_table : tested (λ j. agree (bit 0 j) false) 8 ≡ true
unfolding tested agree
zero_table = refl

pub is_null-zero_bytes : (n j : ℕ) → is_null (zero_bytes n) j ≡ false
unfolding is_null zero_bytes
is_null-zero_bytes zero j = refl
is_null-zero_bytes (suc n) j = elim (Bool-cases (ltb j 8)) [
  | inl low ↦ simp low (
      agree-same (bit 0 j) false
        (tested-at (λ z. agree (bit 0 z) false) 8 zero_table j (ground (arith, low))))
  | inr high ↦ simp high (is_null-zero_bytes n (j - 8))
]

pub length-zero_bytes : (n : ℕ) → length (zero_bytes n) ≡ n
unfolding zero_bytes
length-zero_bytes zero = refl
length-zero_bytes (suc n) = ap suc (length-zero_bytes n)

pub zero_bytes-AllBytes : (n : ℕ) → AllBytes (zero_bytes n)
unfolding zero_bytes
zero_bytes-AllBytes zero = tt
zero_bytes-AllBytes (suc n) = (omega arith, zero_bytes-AllBytes n)

-- The bytes after the bitmap do not matter.
pub is_null-append :
    (j : ℕ) (bs rest : Bytes) → j < 8 * length bs → is_null (bs ++ rest) j ≡ is_null bs j
unfolding is_null
is_null-append j [] rest h = absurd (omega arith)
is_null-append j (b ∷ bs) rest h = elim (Bool-cases (ltb j 8)) [
  | inl low ↦ simp low refl
  | inr high ↦ simp high (is_null-append (j - 8) bs rest (ground (arith, high, h)))
]
