-- ===== src/Storage/Page/Compact/Total.antt =====
-- Pairwise separate records between two bounds fit between them: the bytes are counted twice, by record
-- and by position.
use chen_db.Prelude.{
  ℕ, zero, suc, ◌+◌, ◌-◌, ◌≤◌, ◌<◌, ◌≡◌, ◌≢◌, ◌⊎◌, min, refl, sym, true, false, arith, ltb, leb,
  ◌==◌, if◌then◌else◌, Bool-cases, inl, inr,
}
use chen_db.Prelude.Slices.{apart}

-- The sum over the numbers below `n`.
abbrev pub sum_below : (ℕ → ℕ) → ℕ → ℕ
sum_below f zero = 0
sum_below f (suc n) = sum_below f n + f n

pub sum_below-same :
    (f g : ℕ → ℕ) (n : ℕ) → ((x : ℕ) → x < n → f x ≡ g x) → sum_below f n ≡ sum_below g n
sum_below-same f g zero h = refl
sum_below-same f g (suc n) h =
    omega (arith, h n (omega arith), sum_below-same f g n (λ x k. h x (omega (arith, k))))

sum_below_mono : (f g : ℕ → ℕ) (n : ℕ) → ((x : ℕ) → f x ≤ g x) → sum_below f n ≤ sum_below g n
sum_below_mono f g zero h = omega arith
sum_below_mono f g (suc n) h = omega (arith, h n, sum_below_mono f g n h)

sum_below-zero : (f : ℕ → ℕ) (n : ℕ) → ((x : ℕ) → x < n → f x ≡ 0) → sum_below f n ≡ 0
sum_below-zero f zero h = refl
sum_below-zero f (suc n) h =
    omega (arith, h n (omega arith), sum_below-zero f n (λ x k. h x (omega (arith, k))))

sum_below-add : (f g : ℕ → ℕ) (n : ℕ) → sum_below (λ x. f x + g x) n ≡ sum_below f n + sum_below g n
sum_below-add f g zero = refl
sum_below-add f g (suc n) = omega (arith, sum_below-add f g n)

sum_below-swap :
    (g : ℕ → ℕ → ℕ) (n b : ℕ)
    → sum_below (λ s. sum_below (g s) b) n ≡ sum_below (λ x. sum_below (λ s. g s x) n) b
sum_below-swap g zero b = sym (sum_below-zero (λ x. 0) b (λ x h. refl))
sum_below-swap g (suc n) b =
    omega (arith, sum_below-swap g n b, sum_below-add (λ x. sum_below (λ s. g s x) n) (g n) b)

at_least : ℕ → ℕ → ℕ
at_least a x = if leb a x then 1 else 0

sum_below-at_least : (a b : ℕ) → sum_below (at_least a) b ≡ b - a
unfolding at_least
sum_below-at_least a zero = omega arith
sum_below-at_least a (suc b) = ground (arith, sum_below-at_least a b)

-- Whether a position lies in a range.
covers : ℕ → ℕ → ℕ → ℕ
covers o n x = if leb o x then (if ltb x (o + n) then 1 else 0) else 0

sum_below-covers : (o n b : ℕ) → sum_below (covers o n) b ≡ min b (o + n) - min b o
unfolding covers
sum_below-covers o n zero = omega arith
sum_below-covers o n (suc b) = ground (arith, sum_below-covers o n b)

module _ (offset size : ℕ → ℕ) where
  abbrev pub weight : ℕ → ℕ
  weight s = if offset s == 0 then 0 else size s

  hit : ℕ → ℕ → ℕ
  hit s x = if offset s == 0 then 0 else covers (offset s) (size s) x

  hit_gone : (s x : ℕ) → (offset s == 0) ≡ true → hit s x ≡ 0
  unfolding hit
  hit_gone s x h = simp h refl

  hit_there : (s x : ℕ) → (offset s == 0) ≡ false → hit s x ≡ covers (offset s) (size s) x
  unfolding hit
  hit_there s x h = simp h refl

  -- A position that a record is at.
  abbrev At : ℕ → ℕ → Type 0
  At s x = (offset s ≢ 0) × (offset s ≤ x) × (x < offset s + size s)

  hit_cases : (s x : ℕ) → (hit s x ≡ 0) ⊎ ((hit s x ≡ 1) × At s x)
  unfolding hit covers
  hit_cases s x = elim (Bool-cases (offset s == 0)) [
    | inl gone ↦ inl (simp gone refl)
    | inr there ↦ elim (Bool-cases (leb (offset s) x)) [
      | inr below ↦ inl (simp (there, below) refl)
      | inl above ↦ elim (Bool-cases (ltb x (offset s + size s))) [
        | inr past ↦ inl (simp (there, above, past) refl)
        | inl before ↦ inr (
          simp (there, above, before) refl,
          (ground (arith, there), ground (arith, above), ground (arith, before)),
        )
      ]
    ]
  ]

  module _ (count low high : ℕ)
      (inside : (s : ℕ) → s < count → offset s ≢ 0 → (low ≤ offset s) × (offset s + size s ≤ high))
      (distinct : (s t : ℕ)
        → s < count
        → t < count
        → s ≢ t
        → offset s ≢ 0
        → offset t ≢ 0
        → apart (offset s) (size s) (offset t) (size t) ≡ true) where
    by_record : (s : ℕ) → s < count → weight s ≡ sum_below (hit s) high
    by_record s h = elim (Bool-cases (offset s == 0)) [
      | inl gone ↦ simp gone (sym (sum_below-zero (hit s) high (λ x k. hit_gone s x gone)))
      | inr there ↦ simp there (
          omega (
            arith,
            sum_below-covers (offset s) (size s) high,
            inside s h (ground (arith, there)),
            sum_below-same (hit s) (covers (offset s) (size s)) high (λ x k. hit_there s x there),
          ))
    ]

    -- At most one record is at a position, and none below the region.
    by_position : (n x : ℕ) → n ≤ count → sum_below (λ s. hit s x) n ≤ at_least low x
    unfolding at_least
    by_position zero x h = omega arith
    by_position (suc n) x h = elim (hit_cases n x) [
      | inl none_here ↦ omega (arith, none_here, by_position n x (omega (arith, h)))
      | inr (one, at) ↦
          let alone : sum_below (λ s. hit s x) n ≡ 0 =
            sum_below-zero (λ s. hit s x) n
              (λ s k. elim (hit_cases s x) [
                | inl z ↦ z
                | inr (one', at') ↦ absurd (
                    ground (
                      arith,
                      at,
                      at',
                      distinct s n (omega (arith, k, h)) (omega (arith, h)) (omega (arith, k)) at'.0
                          at.0,
                    ))
              ]) in
          ground (arith, one, alone, at, inside n (omega (arith, h)) at.0)
    ]

    -- The live bytes fit into the region.
    pub total_fits : low ≤ high → sum_below weight count ≤ high - low
    total_fits h =
        let g =
          sum_below_mono (λ x. sum_below (λ s. hit s x) count) (at_least low) high
            (λ x. by_position count x (omega arith)) in
        omega (
          arith,
          sum_below-same weight (λ s. sum_below (hit s) high) count by_record,
          sum_below-swap hit count high,
          g,
          sum_below-at_least low high,
        )
