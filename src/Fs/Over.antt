-- ===== src/Fs/Over.antt =====
-- `lfs2_ctz_traverse` and `lfs2_fs_traverse` of littlefs/lfs2.c for two callbacks, where the state of
-- one is computed from that of the other.
use mbed_littlefs.Base.{
  ℕ, zero, suc, ◌+◌, ◌-◌, ◌*◌, ◌≡◌, refl, ap, not, ◌&&◌, ◌==◌, if◌then◌else◌, Bool-cases, inl, inr,
  List, [], ◌∷◌, Option, none, some, Error, noent, Outcome, ok, err, abort, out_of_fuel, bit_and,
}
use mbed_littlefs.Util.{ByteOrder}
use mbed_littlefs.Store.{bind}
use mbed_littlefs.Tag.{Pair, pair_isnull, tag_type3, type_ctzstruct, mktag, type_struct}
use mbed_littlefs.Gstate.{Gstate}
use mbed_littlefs.Device.{Config, Driver, Cache}
use mbed_littlefs.Bd.{bd_read}
use mbed_littlefs.Ctz.{visit, read_heads, traverse_loop, ctz_traverse, ctz_index}
use mbed_littlefs.Dir.{Mdir, dir_get}
use mbed_littlefs.Dir.Walk.{Fetch}
use mbed_littlefs.File.{File, f_dirty, f_writing, f_inline, has}
use mbed_littlefs.Fs.{
  Handle, of_file, of_dir, call, traverse_next, traverse_ids, traverse_pairs, traverse_file,
  traverse_files, fs_traverse,
}

-- The same result over the state that `f` gives.
abbrev pub over : {S S' A : Type 0} → (S → S') → Outcome A × S → Outcome A × S'
over f r = (r.0, f r.1)

bind-over :
    {S S' A B : Type 0} (f : S → S') (r : Outcome A × S) (r' : Outcome A × S')
    (next : A → S → Outcome B × S) (next' : A → S' → Outcome B × S')
    → r' ≡ over f r
    → ((a : A) (s : S) → next' a (f s) ≡ over f (next a s))
    → bind r' next' ≡ over f (bind r next)
bind-over f (ok a, s) r' next next' e h = rw e (h a s)
bind-over f (err error, s) r' next next' e h = rw e refl
bind-over f (abort, s) r' next next' e h = rw e refl
bind-over f (out_of_fuel, s) r' next next' e h = rw e refl

module _ (cfg : Config) (drv : Driver) (host : ByteOrder) {T U : Type 0} (f : T → U)
    (cb : T → ℕ → Option Error × T) (cb' : U → ℕ → Option Error × U)
    (same : (t : T) (block : ℕ) → cb' (f t) block ≡ ((cb t block).0, f (cb t block).1)) where
  open drv use {Dev}

  abbrev onto : T × (Dev × Cache) → U × (Dev × Cache)
  onto w = (f w.0, w.1)

  answered-over :
      (r : Option Error × T) (r' : Option Error × U) (s : Dev × Cache)
      → r' ≡ (r.0, f r.1)
      → elim r'.0 as (λ _. Outcome (Unit {0}) × (U × (Dev × Cache))) [
        | none ↦ (ok tt, (r'.1, s))
        | some e ↦ (err e, (r'.1, s))
      ]
        ≡ over onto (elim r.0 as (λ _. Outcome (Unit {0}) × (T × (Dev × Cache))) [
          | none ↦ (ok tt, (r.1, s))
          | some e ↦ (err e, (r.1, s))
        ])
  answered-over (none, t) (o, u) s e = rw (ap (λ x. x.0) e) (rw (ap (λ x. x.1) e) refl)
  answered-over (some error, t) (o, u) s e = rw (ap (λ x. x.0) e) (rw (ap (λ x. x.1) e) refl)

  visit-over :
      (block : ℕ) (w : T × (Dev × Cache))
      → visit cfg drv host cb' block (onto w) ≡ over onto (visit cfg drv host cb block w)
  visit-over block w = answered-over (cb w.0 block) (cb' (f w.0) block) w.1 (same w.0 block)

  read_heads-over :
      (pcache : Option Cache) (head count : ℕ) (w : T × (Dev × Cache))
      → read_heads cfg drv host cb' pcache head count (onto w)
        ≡ over onto (read_heads cfg drv host cb pcache head count w)
  read_heads-over pcache head count w =
      let r = bd_read cfg drv w.1.0 pcache w.1.1 (count * 4) head 0 (count * 4) in
      bind-over onto (r.0, (w.0, (r.1, r.2))) (r.0, (f w.0, (r.1, r.2))) _ _ refl (λ bytes s. refl)

  traverse_loop-over :
      (pcache : Option Cache) (fuel index head : ℕ) (w : T × (Dev × Cache))
      → traverse_loop cfg drv host cb' pcache fuel index head (onto w)
        ≡ over onto (traverse_loop cfg drv host cb pcache fuel index head w)
  unfolding traverse_loop
  traverse_loop-over pcache zero index head w = refl
  traverse_loop-over pcache (suc fuel) index head w =
      bind-over onto (visit cfg drv host cb head w) _ _ _ (visit-over head w) (λ _ w1.
        elim (Bool-cases (index == 0)) [
          | inl e ↦ rw e refl
          | inr e ↦ rw e (
              bind-over onto (read_heads cfg drv host cb pcache head (2 - bit_and index 1) w1) _ _ _
                (read_heads-over pcache head (2 - bit_and index 1) w1)
                (λ heads w2. elim (Bool-cases (2 - bit_and index 1 == 2)) [
                  | inl e2 ↦ rw e2 (
                      bind-over onto (visit cfg drv host cb heads.0 w2) _ _ _
                        (visit-over heads.0 w2)
                        (λ _ w3. traverse_loop-over pcache fuel (index - 2) heads.1 w3))
                  | inr e2 ↦ rw e2 (traverse_loop-over pcache fuel (index - 1) heads.0 w2)
                ]))
        ])

  ctz_traverse-over :
      (w : T × (Dev × Cache)) (pcache : Option Cache) (head size : ℕ)
      → ctz_traverse cfg drv host cb' (onto w) pcache head size
        ≡ over onto (ctz_traverse cfg drv host cb w pcache head size)
  unfolding ctz_traverse
  ctz_traverse-over w pcache head size = elim (Bool-cases (size == 0)) [
    | inl e ↦ rw e refl
    | inr e ↦ rw e (
        traverse_loop-over pcache ((ctz_index cfg (size - 1)).0 + 1) (ctz_index cfg (size - 1)).0
          head w)
  ]

  traverse_file-over :
      (gstate : Gstate) (dir_fetch : Fetch (T × (Dev × Cache)))
      (dir_fetch' : Fetch (U × (Dev × Cache))) (file : File) (w : T × (Dev × Cache))
      → traverse_file cfg drv host gstate cb' dir_fetch' file (onto w)
        ≡ over onto (traverse_file cfg drv host gstate cb dir_fetch file w)
  unfolding traverse_file
  traverse_file-over gstate dir_fetch dir_fetch' file w =
      bind-over onto
        (if has file.flags f_dirty && not (has file.flags f_inline)
          then ctz_traverse cfg drv host cb w (some file.cache) file.ctz_head file.ctz_size
          else (ok tt, w))
        (if has file.flags f_dirty && not (has file.flags f_inline)
          then ctz_traverse cfg drv host cb' (onto w) (some file.cache) file.ctz_head file.ctz_size
          else (ok tt, onto w))
        _ _
        (elim (Bool-cases (has file.flags f_dirty && not (has file.flags f_inline))) [
          | inl e ↦ rw e (ctz_traverse-over w (some file.cache) file.ctz_head file.ctz_size)
          | inr e ↦ rw e refl
        ])
        (λ _ w'. elim (Bool-cases (has file.flags f_writing && not (has file.flags f_inline))) [
          | inl e ↦ rw e (ctz_traverse-over w' (some file.cache) file.block file.pos)
          | inr e ↦ rw e refl
        ])

  module _ (gstate : Gstate) (dir_fetch : Fetch (T × (Dev × Cache)))
      (dir_fetch' : Fetch (U × (Dev × Cache)))
      (fetched : (pair : Pair) (m : Mdir) (w : T × (Dev × Cache))
        → dir_fetch' pair (m, onto w)
          ≡ over (λ w'. (w'.0, onto w'.1)) (dir_fetch pair (m, w))) where
    call-over :
        (block : ℕ) (w : T × (Dev × Cache))
        → call cfg drv host gstate cb' dir_fetch' block (onto w)
          ≡ over onto (call cfg drv host gstate cb dir_fetch block w)
    unfolding call
    call-over block w = answered-over (cb w.0 block) (cb' (f w.0) block) w.1 (same w.0 block)

    traverse_next-over :
        (t : T) (r : Outcome (ℕ × List ℕ) × (Dev × Cache))
        → traverse_next cfg drv host gstate cb' dir_fetch' (f t) r
          ≡ over onto (traverse_next cfg drv host gstate cb dir_fetch t r)
    unfolding traverse_next
    traverse_next-over t (ok (tag, bytes), s) =
        elim (Bool-cases (tag_type3 tag == type_ctzstruct)) [
          | inl e ↦ rw e (ctz_traverse-over (t, s) none _ _)
          | inr e ↦ rw e refl
        ]
    traverse_next-over t (err noent, s) = refl
    traverse_next-over t (err e, s) = refl
    traverse_next-over t (abort, s) = refl
    traverse_next-over t (out_of_fuel, s) = refl

    traverse_ids-over :
        (dir : Mdir) (left : ℕ) (w : T × (Dev × Cache))
        → traverse_ids cfg drv host gstate cb' dir_fetch' dir left (onto w)
          ≡ over onto (traverse_ids cfg drv host gstate cb dir_fetch dir left w)
    unfolding traverse_ids
    traverse_ids-over dir zero w = refl
    traverse_ids-over dir (suc left) w =
        bind-over onto _ _ _ _
          (traverse_next-over w.0 (
            dir_get cfg drv host gstate dir (mktag 0x700 0x3ff 0)
              (mktag type_struct (dir.count - suc left) 8) w.1))
          (λ _ w'. traverse_ids-over dir left w')

    traverse_files-over :
        (hs : List Handle) (w : T × (Dev × Cache))
        → traverse_files cfg drv host gstate cb' dir_fetch' hs (onto w)
          ≡ over onto (traverse_files cfg drv host gstate cb dir_fetch hs w)
    unfolding traverse_files
    traverse_files-over [] w = refl
    traverse_files-over (of_dir ∷ hs) w = traverse_files-over hs w
    traverse_files-over (of_file file ∷ hs) w =
        bind-over onto _ _ _ _ (traverse_file-over gstate dir_fetch dir_fetch' file w)
          (λ _ w'. traverse_files-over hs w')

    traverse_pairs-over :
        (fuel : ℕ) (dir : Mdir) (w : T × (Dev × Cache))
        → traverse_pairs cfg drv host gstate cb' dir_fetch' fuel (dir, onto w)
          ≡ over onto (traverse_pairs cfg drv host gstate cb dir_fetch fuel (dir, w))
    unfolding traverse_pairs
    traverse_pairs-over zero dir w = refl
    traverse_pairs-over (suc fuel) dir w = elim (Bool-cases (pair_isnull dir.tail)) [
      | inl e ↦ rw (e, traverse_pairs) refl
      | inr e ↦
          rw (e, traverse_pairs)
            (bind-over onto (call cfg drv host gstate cb dir_fetch dir.tail.0 w) _ _ _
              (call-over dir.tail.0 w)
              (λ _ w1.
                bind-over onto (call cfg drv host gstate cb dir_fetch dir.tail.1 w1) _ _ _
                  (call-over dir.tail.1 w1)
                  (λ _ w2.
                    let r = dir_fetch dir.tail (dir, w2) in
                    rw (fetched dir.tail dir w2) (
                      bind-over onto (r.0, r.1.1) _ _ _ refl
                        (λ _ w4.
                          bind-over onto
                            (traverse_ids cfg drv host gstate cb dir_fetch r.1.0 r.1.0.count w4) _ _
                            _ (traverse_ids-over r.1.0 r.1.0.count w4)
                            (λ _ w5. traverse_pairs-over fuel r.1.0 w5))))))
    ]

    pub fs_traverse-over :
        (fuel : ℕ) (hs : List Handle) (dir : Mdir) (w : T × (Dev × Cache))
        → fs_traverse cfg drv host gstate cb' dir_fetch' fuel hs dir (onto w)
          ≡ over onto (fs_traverse cfg drv host gstate cb dir_fetch fuel hs dir w)
    unfolding fs_traverse
    fs_traverse-over fuel hs dir w =
        bind-over onto
          (traverse_pairs cfg drv host gstate cb dir_fetch fuel (record dir { tail = (0, 1) }, w)) _
          _ _ (traverse_pairs-over fuel (record dir { tail = (0, 1) }) w)
          (λ _ w'. traverse_files-over hs w')
