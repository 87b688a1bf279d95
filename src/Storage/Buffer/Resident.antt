-- ===== src/Storage/Buffer/Resident.antt =====
-- The table of resident pages: what `move_to_end`, a write and a removal do to it, and the list of free
-- frames of an empty pool.
use chen_db.Prelude.{
  ℕ, zero, suc, ◌+◌, ◌≤◌, ◌<◌, ◌≡◌, refl, sym, ap, ◌∙◌, inl, inr, true, false, none, some, [], ◌∷◌,
  ◌++◌, arith, ◌==◌, ==_iff, if◌then◌else◌, length, length-append, nat_eq, Bool-cases, Option-cases,
  if-both,
}
use chen_db.Prelude.Dict
use chen_db.Prelude.Dict.{Dict, get-remove, get-put}
use chen_db.Prelude.Sets.{elem}
use chen_db.Storage.Buffer.{BufferPool, BufferPoolStats, Frame, count_from, move_to_end}
use chen_db.Storage.Buffer.Sound.{NoDup, NoDupKeys, IsBooked}

get-append :
    (q p i : ℕ) (d : Dict ℕ ℕ)
    → Dict.get q (d ++ (p, i) ∷ [])
      ≡ elim (Dict.get q d) [ none ↦ if p == q then some i else none | some j ↦ some j ]
unfolding Dict.get
get-append q p i [] = refl
get-append q p i ((k, v) ∷ d) = elim (Bool-cases (k == q)) [
  | inl h ↦ simp h refl
  | inr h ↦ simp h (get-append q p i d)
]

-- A page that moves to the end keeps its frame.
pub get-move_to_end :
    (q p i : ℕ) (d : Dict ℕ ℕ)
    → Dict.get q (move_to_end p i d) ≡ (if p == q then some i else Dict.get q d)
get-move_to_end q p i d = elim (Bool-cases (p == q)) [
  | inl h ↦
      let gone : Dict.get q (Dict.remove p d) ≡ none = get-remove p q d ∙ (simp h) in
      get-append q p i (Dict.remove p d) ∙ (simp (gone, h))
  | inr h ↦
      let kept : Dict.get q (Dict.remove p d) ≡ Dict.get q d = get-remove p q d ∙ (simp h) in
      elim (Option-cases (Dict.get q d)) [
        | inl e ↦
            let none_there : Dict.get q (Dict.remove p d) ≡ none = kept ∙ e in
            get-append q p i (Dict.remove p d) ∙ (simp (none_there, e, h))
        | inr (j, e) ↦
            let there : Dict.get q (Dict.remove p d) ≡ some j = kept ∙ e in
            get-append q p i (Dict.remove p d) ∙ (simp (there, e, h))
      ]
]

pub remove_absent : (p : ℕ) (d : Dict ℕ ℕ) → Dict.get p d ≡ none → Dict.remove p d ≡ d
unfolding Dict.get Dict.remove
remove_absent p [] h = refl
remove_absent p ((k, v) ∷ d) h = ground (arith, remove_absent p d)

pub remove-NoDupKeys : (p : ℕ) (d : Dict ℕ ℕ) → NoDupKeys d → NoDupKeys (Dict.remove p d)
unfolding Dict.remove
remove-NoDupKeys p [] h = tt
remove-NoDupKeys p ((k, v) ∷ d) h =
    if-both NoDupKeys (k == p) _ _ (λ e. remove-NoDupKeys p d h.1)
      (λ e. ((get-remove p k d) ∙ ground (arith, h.0), remove-NoDupKeys p d h.1))

append-NoDupKeys :
    (p i : ℕ) (d : Dict ℕ ℕ) → Dict.get p d ≡ none → NoDupKeys d → NoDupKeys (d ++ (p, i) ∷ [])
unfolding Dict.get
append-NoDupKeys p i [] e h = (refl, tt)
append-NoDupKeys p i ((k, v) ∷ d) e h =
    let other : (p == k) ≡ false = ground (arith, e) in
    (get-append k p i d ∙ (simp (h.0, other)), append-NoDupKeys p i d (ground (arith, e)) h.1)

pub move_to_end-NoDupKeys : (p i : ℕ) (d : Dict ℕ ℕ) → NoDupKeys d → NoDupKeys (move_to_end p i d)
move_to_end-NoDupKeys p i d h =
    let gone : Dict.get p (Dict.remove p d) ≡ none = get-remove p p d ∙ ground arith in
    append-NoDupKeys p i (Dict.remove p d) gone (remove-NoDupKeys p d h)

pub put-NoDupKeys : (p i : ℕ) (d : Dict ℕ ℕ) → NoDupKeys d → NoDupKeys (Dict.put p i d)
unfolding Dict.put Dict.get
put-NoDupKeys p i [] h = (refl, tt)
put-NoDupKeys p i ((k, v) ∷ d) h =
    if-both NoDupKeys (k == p) _ _
      (λ e. let same : k ≡ p = (==_iff k p).0 e in (ap (λ z. Dict.get z d) (sym same) ∙ h.0, h.1))
      (λ e. (get-put p k i d ∙ ground (arith, h.0), put-NoDupKeys p i d h.1))

-- The page that is taken out is one of them.
pub length-remove :
    (p i : ℕ) (d : Dict ℕ ℕ)
    → Dict.get p d ≡ some i
    → NoDupKeys d
    → suc (length (Dict.remove p d)) ≡ length d
unfolding Dict.get Dict.remove
length-remove p i [] e h = cc
length-remove p i ((k, v) ∷ d) e h = elim (Bool-cases (k == p)) [
  | inl same ↦
      let is_k : k ≡ p = (==_iff k p).0 same in
      let gone : Dict.get p d ≡ none = ap (λ z. Dict.get z d) (sym is_k) ∙ h.0 in
      simp (same, remove_absent p d gone) refl
  | inr other ↦
      let later : Dict.get p d ≡ some i = ground (arith, e) in
      simp other (ap suc (length-remove p i d later h.1))
]

pub length-move_to_end :
    (p i : ℕ) (d : Dict ℕ ℕ)
    → Dict.get p d ≡ some i
    → NoDupKeys d
    → length (move_to_end p i d) ≡ length d
length-move_to_end p i d e h =
    omega (arith, length-append (Dict.remove p d) ((p, i) ∷ []), length-remove p i d e h)

pub length-put :
    (p i : ℕ) (d : Dict ℕ ℕ) → Dict.get p d ≡ none → length (Dict.put p i d) ≡ suc (length d)
unfolding Dict.get Dict.put
length-put p i [] e = refl
length-put p i ((k, v) ∷ d) e = ground (arith, length-put p i d)

-- The free frames of an empty pool are all of them, each once.
pub elem-count_from :
    (i start n : ℕ) → elem i (count_from start n) ≡ true → (start ≤ i) × (i < start + n)
unfolding elem count_from
elem-count_from i start zero h = cc
elem-count_from i start (suc n) h = ground (arith, elem-count_from i (suc start) n)

pub count_from-NoDup : (start n : ℕ) → NoDup (count_from start n)
unfolding count_from
count_from-NoDup start zero = tt
count_from-NoDup start (suc n) = (
  elim (Bool-cases (elem start (count_from (suc start) n))) [
    | inl h ↦ absurd (omega (arith, elem-count_from start (suc start) n h))
    | inr h ↦ h
  ],
  count_from-NoDup (suc start) n,
)

pub length-count_from : (start n : ℕ) → length (count_from start n) ≡ n
unfolding count_from
length-count_from start zero = refl
length-count_from start (suc n) = ap suc (length-count_from (suc start) n)

-- The bookkeeping sees only which page is in which frame.
pub same-IsBooked :
    (taken : ℕ) (pool : BufferPool) (resident : Dict ℕ ℕ) (frames : ℕ → Frame)
    (stats : BufferPoolStats)
    → ((q : ℕ) → Dict.get q resident ≡ Dict.get q pool.resident)
    → NoDupKeys resident
    → length resident ≡ length pool.resident
    → IsBooked taken pool
    → IsBooked taken (record pool { resident = resident; frames = frames; stats = stats })
same-IsBooked taken pool resident frames stats same once size b = record {
  keys = once;
  frees = b.frees;
  apart = λ p q i h h'. b.apart p q i (sym (same p) ∙ h) (sym (same q) ∙ h');
  used = λ p i h. b.used p i (sym (same p) ∙ h);
  total = omega (arith, b.total, size);
  in_range = λ p i h. b.in_range p i (sym (same p) ∙ h);
  free_in_range = b.free_in_range;
  enough = b.enough;
}
