-- ===== src/Storage/Buffer/Invalidate.antt =====
-- Giving up a page's frame.
use chen_db.Prelude.{
  ℕ, ◌≡◌, refl, sym, ap, subst, ◌∙◌, inl, inr, false, Option, none, some, arith, ◌==◌, ==_iff,
  if◌then◌else◌, nat_eq, Bool-cases, Option-cases,
}
use chen_db.Prelude.Dict
use chen_db.Prelude.Dict.{Dict, get-remove}
use chen_db.Prelude.Bytes.{Bytes}
use chen_db.Prelude.Sets.{elem}
use chen_db.Storage.Buffer.{
  Backing, Frame, BufferPool, with_frame, emptied, invalidate, invalidate_at,
}
use chen_db.Storage.Buffer.Sound.{view_at}
use chen_db.Storage.Buffer.Resident.{remove-NoDupKeys, length-remove}
use chen_db.Storage.Buffer.Admit.{Holds}

module _ {D : Type 0} (backing : Backing D) where
  given_up :
      (p i : ℕ) (pages : ℕ → Option Bytes) (pool : BufferPool) (d : D)
      → Holds backing pages pool d
      → Dict.get p pool.resident ≡ some i
      → Holds backing
          (λ q. if p == q then backing.read q d else pages q)
          (invalidate_at p (some i) pool)
          d
  unfolding invalidate_at elem
  given_up p i pages pool d h e =
      let b = h.booked in
      let table = λ (q : ℕ). get-remove p q pool.resident in
      let other : (q j : ℕ)
          → (p == q) ≡ false
          → Dict.get q pool.resident ≡ some j
          → (i == j) ≡ false =
        λ q j there was. ground (arith, there, was, b.apart p q i e) in
      let same : (j : ℕ)
          → (i == j) ≡ false
          → with_frame i (emptied (pool.frames i)) pool.frames j ≡ pool.frames j =
        λ j o. simp o refl in
      record {
        booked = record {
          keys = remove-NoDupKeys p pool.resident b.keys;
          frees = (b.used p i e, b.frees);
          apart = λ x y j k k'. ground (arith, table x, table y, k, k', b.apart x y j);
          used = λ x j k. ground (arith, table x, k, other x j, b.used x j);
          total = omega (arith, b.total, length-remove p i pool.resident e b.keys);
          in_range = λ x j k. ground (arith, table x, k, b.in_range x j);
          free_in_range = λ j k. ground (arith, k, b.in_range p i e, b.free_in_range j);
          enough = b.enough;
        };
        clean = λ q j k kept. elim (Bool-cases (p == q)) [
          | inl here ↦ absurd (ground (arith, table q, k, here))
          | inr there ↦
              let was : Dict.get q pool.resident ≡ some j = ground (arith, table q, k, there) in
              let f = same j (other q j there was) in
              h.clean q j was (sym (ap (λ (x : Frame). x.dirty) f) ∙ kept)
              ∙ sym (ap (λ (x : Frame). some x.image) f)
        ];
        shows = λ q. elim (Bool-cases (p == q)) [
          | inl here ↦
              let none_there : Dict.get q (Dict.remove p pool.resident) ≡ none =
                table q ∙ (simp here) in
              ap (λ o. view_at backing q o (with_frame i (emptied (pool.frames i)) pool.frames) d)
                none_there
              ∙ sym (simp here refl)
          | inr there ↦
              let kept : Dict.get q (Dict.remove p pool.resident) ≡ Dict.get q pool.resident =
                table q ∙ (simp there) in
              ap (λ o. view_at backing q o (with_frame i (emptied (pool.frames i)) pool.frames) d)
                kept
              ∙ elim (Option-cases (Dict.get q pool.resident)) [
                | inl gone ↦
                    ap
                      (λ o.
                        view_at backing q o (with_frame i (emptied (pool.frames i)) pool.frames) d)
                      gone
                    ∙ sym (ap (λ o. view_at backing q o pool.frames d) gone)
                | inr (j, was) ↦
                    ap
                      (λ o.
                        view_at backing q o (with_frame i (emptied (pool.frames i)) pool.frames) d)
                      was
                    ∙ ap (λ (x : Frame). some x.image) (same j (other q j there was))
                    ∙ sym (ap (λ o. view_at backing q o pool.frames d) was)
              ]
              ∙ h.shows q
              ∙ sym (simp there refl)
        ];
      }

  -- Invalidating a page gives up its frame without writing it back: that page is then what backs it,
  -- and no other page changes.
  pub invalidate-Holds :
      (p : ℕ) (pages : ℕ → Option Bytes) (pool : BufferPool) (d : D)
      → Holds backing pages pool d
      → Holds backing (λ q. if p == q then backing.read q d else pages q) (invalidate p pool) d
  unfolding invalidate
  invalidate-Holds p pages pool d h = elim (Option-cases (Dict.get p pool.resident)) [
    | inl gone ↦
        let shown : backing.read p d ≡ pages p =
          sym (ap (λ o. view_at backing p o pool.frames d) gone) ∙ h.shows p in
        subst (λ x. Holds backing (λ q. if p == q then backing.read q d else pages q) x d)
          (sym (ap (λ o. invalidate_at p o pool) gone))
          (record {
            booked = h.booked;
            clean = h.clean;
            shows = λ q. h.shows q ∙ elim (Bool-cases (p == q)) [
              | inl here ↦
                  let is_q : p ≡ q = (==_iff p q).0 here in
                  sym (simp here (ap (λ z. backing.read z d) (sym is_q) ∙ shown ∙ ap pages is_q))
              | inr there ↦ sym (simp there refl)
            ];
          })
    | inr (i, e) ↦
        subst (λ x. Holds backing (λ q. if p == q then backing.read q d else pages q) x d)
          (sym (ap (λ o. invalidate_at p o pool) e)) (given_up p i pages pool d h e)
  ]
