-- ===== src/Storage/Buffer/Change.antt =====
-- A resident page's frame changes, and the page becomes the most recently used.
use chen_db.Prelude.{
  ℕ, ◌≡◌, refl, sym, ap, ◌∙◌, ◌⊎◌, inl, inr, true, false, Option, some, arith, ◌==◌, ==_iff,
  if◌then◌else◌, nat_eq, Bool-cases, Option-cases,
}
use chen_db.Prelude.Dict
use chen_db.Prelude.Dict.{Dict, get-remove}
use chen_db.Prelude.Bytes.{Bytes}
use chen_db.Storage.Buffer.{Backing, Frame, BufferPool, BufferPoolStats, with_frame, move_to_end}
use chen_db.Storage.Buffer.Sound.{IsClean, view, view_at}
use chen_db.Storage.Buffer.Resident.{
  get-move_to_end, move_to_end-NoDupKeys, length-move_to_end, same-IsBooked,
}
use chen_db.Storage.Buffer.Admit.{Holds}

module _ {D : Type 0} (backing : Backing D) where
  -- The frame of a page changes, and the page becomes the most recently used.
  module _ (p index : ℕ) (f : Frame) (stats : BufferPoolStats) (pages : ℕ → Option Bytes)
      (pool : BufferPool) (d : D) (h : Holds backing pages pool d)
      (at_index : Dict.get p pool.resident ≡ some index)
      (backed : (f.dirty ≡ true) ⊎ (backing.read p d ≡ some f.image)) where
    unfoldable pub changed : BufferPool
    changed = record pool {
      frames = with_frame index f pool.frames;
      resident = move_to_end p index pool.resident;
      stats = stats;
    }

    same_table : (q : ℕ) → Dict.get q (move_to_end p index pool.resident) ≡ Dict.get q pool.resident
    same_table q = elim (Bool-cases (p == q)) [
      | inl here ↦
          let is_q : p ≡ q = (==_iff p q).0 here in
          get-move_to_end q p index pool.resident
          ∙ (simp here)
          ∙ sym (ap (λ z. Dict.get z pool.resident) (sym is_q) ∙ at_index)
      | inr there ↦ get-move_to_end q p index pool.resident ∙ (simp there)
    ]

    frame_at : with_frame index f pool.frames index ≡ f
    frame_at = let same : (index == index) ≡ true = ground arith in simp same refl

    other_frame :
        (q i : ℕ)
        → (p == q) ≡ false
        → Dict.get q pool.resident ≡ some i
        → with_frame index f pool.frames i ≡ pool.frames i
    other_frame q i there e =
        let other : (index == i) ≡ false = elim (Bool-cases (index == i)) [
          | inr o ↦ o
          | inl s ↦
              let one : Dict.get q pool.resident ≡ some index =
                e ∙ ap some (sym ((==_iff index i).0 s)) in
              absurd (ground (arith, there, h.booked.apart p q index at_index one))
        ] in
        simp other refl

    changed-shows : (q : ℕ) → view backing q changed d ≡ (if p == q then some f.image else pages q)
    unfolding changed
    changed-shows q = elim (Bool-cases (p == q)) [
      | inl here ↦
          let is_q : p ≡ q = (==_iff p q).0 here in
          let at_q : Dict.get q pool.resident ≡ some index =
            ap (λ z. Dict.get z pool.resident) (sym is_q) ∙ at_index in
          ap (λ o. view_at backing q o changed.frames d) (same_table q ∙ at_q)
          ∙ ap (λ (x : Frame). some x.image) frame_at
          ∙ sym (simp here refl)
      | inr there ↦ elim (Option-cases (Dict.get q pool.resident)) [
        | inl gone ↦
            let was : view backing q pool d ≡ backing.read q d =
              ap (λ o. view_at backing q o pool.frames d) gone in
            ap (λ o. view_at backing q o changed.frames d) (same_table q ∙ gone)
            ∙ sym was
            ∙ h.shows q
            ∙ sym (simp there refl)
        | inr (i, e) ↦
            let was : view backing q pool d ≡ some (pool.frames i).image =
              ap (λ o. view_at backing q o pool.frames d) e in
            ap (λ o. view_at backing q o changed.frames d) (same_table q ∙ e)
            ∙ ap (λ (x : Frame). some x.image) (other_frame q i there e)
            ∙ sym was
            ∙ h.shows q
            ∙ sym (simp there refl)
      ]
    ]

    changed-IsClean : IsClean backing changed d
    unfolding changed
    changed-IsClean q i e kept =
        let e' : Dict.get q pool.resident ≡ some i = sym (same_table q) ∙ e in
        elim (Bool-cases (p == q)) [
          | inl here ↦
              let is_q : p ≡ q = (==_iff p q).0 here in
              let is_i : index ≡ i =
                ground (arith, e', at_index, ap (λ z. Dict.get z pool.resident) is_q) in
              let at_i : with_frame index f pool.frames i ≡ f =
                ap (with_frame index f pool.frames) (sym is_i) ∙ frame_at in
              elim backed [
                | inl dirty ↦
                    let clean : f.dirty ≡ false = sym (ap (λ (x : Frame). x.dirty) at_i) ∙ kept in
                    cc
                | inr same ↦
                    ap (λ z. backing.read z d) (sym is_q)
                    ∙ same
                    ∙ sym (ap (λ (x : Frame). some x.image) at_i)
              ]
          | inr there ↦
              let f' = other_frame q i there e' in
              h.clean q i e' (sym (ap (λ (x : Frame). x.dirty) f') ∙ kept)
              ∙ sym (ap (λ (x : Frame). some x.image) f')
        ]

    pub changed-Holds : Holds backing (λ q. if p == q then some f.image else pages q) changed d
    unfolding changed
    changed-Holds = record {
      booked =
          same-IsBooked 0 pool _ _ stats same_table
            (move_to_end-NoDupKeys p index pool.resident h.booked.keys)
            (length-move_to_end p index pool.resident at_index h.booked.keys) h.booked;
      clean = changed-IsClean;
      shows = changed-shows;
    }
