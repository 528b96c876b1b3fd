-- ===== src/Dir/Handles/Positions.antt =====
-- The update of the open files and directories after a commit, in `lfs2_dir_commit` of
-- littlefs/lfs2.c: whether their ids still stand for the same entries.
use mbed_littlefs.Base.{
  ℕ, zero, suc, ◌+◌, ◌-◌, ◌≤◌, ◌<◌, ◌≡◌, refl, ap, ◌∙◌, arith, true, false, ltb, leb, ◌==◌,
  Bool-cases, inl, inr, ◌⊎◌, List, [], ◌∷◌, length, get_or, u16,
}
use mbed_littlefs.Tag.{tag_id}
use mbed_littlefs.Dir.Handles.{Listed, update_id}

-- The list without the entry at `k`, and with an entry more at `c`.
abbrev pub without {ℓ} : {A : Type ℓ} → ℕ → List A → List A
without k [] = []
without zero (x ∷ xs) = xs
without (suc k) (x ∷ xs) = x ∷ without k xs

abbrev pub with_entry {ℓ} : {A : Type ℓ} → ℕ → A → List A → List A
with_entry zero y xs = y ∷ xs
with_entry (suc c) y [] = []
with_entry (suc c) y (x ∷ xs) = x ∷ with_entry c y xs

module _ {A : Type 0} (x : A) where
  without_before : (k i : ℕ) (xs : List A) → i < k → get_or (without k xs) i x ≡ get_or xs i x
  without_before k i [] h = refl
  without_before zero i (y ∷ ys) h = absurd (omega arith)
  without_before (suc k) zero (y ∷ ys) h = refl
  without_before (suc k) (suc i) (y ∷ ys) h = without_before k i ys (omega arith)

  without_behind : (k i : ℕ) (xs : List A) → k ≤ i → get_or (without k xs) i x ≡ get_or xs (suc i) x
  without_behind k i [] h = refl
  without_behind zero i (y ∷ ys) h = refl
  without_behind (suc k) zero (y ∷ ys) h = absurd (omega arith)
  without_behind (suc k) (suc i) (y ∷ ys) h = without_behind k i ys (omega arith)

  with_entry_before :
      (c i : ℕ) (y : A) (xs : List A)
      → i < c
      → c ≤ length xs
      → get_or (with_entry c y xs) i x ≡ get_or xs i x
  with_entry_before zero i y xs h le = absurd (omega arith)
  with_entry_before (suc c) i y [] h le = absurd (omega arith)
  with_entry_before (suc c) zero y (z ∷ zs) h le = refl
  with_entry_before (suc c) (suc i) y (z ∷ zs) h le =
      with_entry_before c i y zs (omega arith) (omega arith)

  with_entry_behind :
      (c i : ℕ) (y : A) (xs : List A)
      → c ≤ i
      → c ≤ length xs
      → get_or (with_entry c y xs) (suc i) x ≡ get_or xs i x
  with_entry_behind zero i y xs h le = refl
  with_entry_behind (suc c) i y [] h le = absurd (omega arith)
  with_entry_behind (suc c) zero y (z ∷ zs) h le = absurd (omega arith)
  with_entry_behind (suc c) (suc i) y (z ∷ zs) h le =
      with_entry_behind c i y zs (omega arith) (omega arith)

-- The entries of a directory after a deletion or a creation, and the ids that the tags have.
pub data Edit (A : Type 0) : Type 0 where
  deletion : ℕ → Edit A
  creation : ℕ → A → Edit A

abbrev pub edited : {A : Type 0} → Edit A → List A → List A
edited (deletion k) xs = without k xs
edited (creation c y) xs = with_entry c y xs

abbrev pub delete_id : {A : Type 0} → Edit A → ℕ
delete_id (deletion k) = k
delete_id (creation c y) = 0x3ff

abbrev pub create_id : {A : Type 0} → Edit A → ℕ
create_id (deletion k) = 0x3ff
create_id (creation c y) = c

abbrev pub place : {A : Type 0} → Edit A → ℕ
place (deletion k) = k
place (creation c y) = c

-- After a commit that deletes one entry or creates one, in a directory of fewer than 0x3ff entries,
-- the id of an open file or directory that is not the one of the commit stands for the same entry as
-- before; or it stood for the entry that is deleted, and then its pair is the null one.
pub update_id-edited :
    {A : Type 0} (x : A) (e : Edit A) (xs : List A) (deletetag createtag : ℕ) (d : Listed)
    → length xs < 0x3ff
    → place e ≤ length xs
    → d.id < length xs
    → d.own ≡ false
    → tag_id deletetag ≡ delete_id e
    → tag_id createtag ≡ create_id e
    → let d' = update_id deletetag createtag d in
      ((d.id ≡ delete_id e) × (d'.m.pair ≡ (0xffffffff, 0xffffffff)))
      ⊎ (get_or (edited e xs) d'.id x ≡ get_or xs d.id x)
unfolding update_id
update_id-edited x (deletion k) xs deletetag createtag d few at there own del new =
    elim (Bool-cases (d.id == k)) [
      | inl e ↦ rw del (rw new (rw e (inl (ground arith, refl))))
      | inr ne ↦ elim (Bool-cases (ltb k d.id)) [
        | inl behind ↦
            let same : suc (d.id - 1) ≡ d.id = ground arith in
            rw del (
              rw new (
                rw ne (
                  rw behind (
                    inr (
                      without_behind x k (d.id - 1) xs (ground arith)
                      ∙ ap (λ i. get_or xs i x) same)))))
        | inr before ↦
            let old : leb 0x3ff d.id ≡ false = ground arith in
            rw del (
              rw new (
                rw own
                  (rw ne (rw before (rw old (inr (without_before x k d.id xs (ground arith))))))))
      ]
    ]
update_id-edited x (creation c y) xs deletetag createtag d few at there own del new =
    let kept : (d.id == 0x3ff) ≡ false = ground arith in
    let below : ltb 0x3ff d.id ≡ false = ground arith in
    elim (Bool-cases (leb c d.id)) [
      | inl behind ↦
          let next : u16 (d.id + 1) ≡ suc d.id = omega arith in
          rw del (
            rw new (
              rw own (
                rw kept (
                  rw below (
                    rw behind (
                      inr (
                        ap (λ i. get_or (with_entry c y xs) i x) next
                        ∙ with_entry_behind x c d.id y xs (ground arith) at)))))))
      | inr before ↦ rw del (
          rw new (
            rw own (
              rw kept
                (rw below (rw before (inr (with_entry_before x c d.id y xs (ground arith) at)))))))
    ]

-- After a commit that creates an entry at `c` and then deletes the one at `k` before it, as a rename
-- inside one directory does, an entry from `c` on has the same id as before, but the id of an open
-- file or directory that stands for it, and is not the one of the commit, is lowered by one.
pub update_id_both :
    {A : Type 0} (x y : A) (xs : List A) (k c deletetag createtag : ℕ) (d : Listed)
    → k < c
    → c ≤ d.id
    → d.id < length xs
    → tag_id deletetag ≡ k
    → tag_id createtag ≡ c
    → (get_or (without k (with_entry c y xs)) d.id x ≡ get_or xs d.id x)
      × ((update_id deletetag createtag d).id + 1 ≡ d.id)
unfolding update_id
update_id_both x y xs k c deletetag createtag d before behind there del new =
    let ne : (d.id == k) ≡ false = ground arith in
    let above : ltb k d.id ≡ true = ground arith in
    (
      without_behind x k d.id (with_entry c y xs) (omega arith)
          ∙ with_entry_behind x c d.id y xs behind (omega arith),
      rw del (rw ne (rw above (omega arith))),
    )
