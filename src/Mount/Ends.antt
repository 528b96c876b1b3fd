-- ===== src/Mount/Ends.antt =====
-- How `lfs2_mount` ends: its limits, its buffers and its termination.
use mathlib.Core.Path.{subst}
use mbed_littlefs.Base.{
  ℕ, zero, suc, ◌+◌, ◌<◌, ◌≡◌, ◌⊎◌, inl, inr, refl, sym, ◌∙◌, u32, arith, true, false, ◌&&◌,
  if◌then◌else◌, Bool-cases, Error, Outcome, ok, err, abort, out_of_fuel,
}
use mbed_littlefs.Util.{ByteOrder}
use mbed_littlefs.Tag.{Pair, pair_isnull, tag_isvalid}
use mbed_littlefs.Gstate.{Gstate, gstate_zero}
use mbed_littlefs.Device.{Config, Cache}
use mbed_littlefs.Alloc.{alloc_ack}
use mbed_littlefs.Store.{bind}
use mbed_littlefs.Dir.{Mdir}
use mbed_littlefs.Disk.{Superblock, superblock_fromle32}
use mbed_littlefs.Mount.{
  Buffers, Lfs2, Heap, Memory, deinit, init, sizes_ok, lookahead_ok, limits_ok,
}
use mbed_littlefs.Mount.Requests.{IsHeap, SameBlocks}
use mbed_littlefs.Mount.Init.{InitEnds, init-deinit}
use mbed_littlefs.Mount.Check.{
  AreLimits, check_superblock_keeps, Checked, CheckEnds, check_superblock_lem, deinit_same,
}
use mbed_littlefs.Mount.Listed.{Listed, first, later, IsFetched, IsMetadata}
use mbed_littlefs.Mount.Scan.{
  Metadata, Volume, through, or_cleanup, check, read_superblock, has_superblock, read_gstate, fetch,
  scan_pair, scan_pairs, mount_state, mount_end, mount,
}

module _ (cfg : Config) (buffers : Buffers) (host : ByteOrder) {D : Type 0} (meta : Metadata D)
    (Fine : D × Cache → Type 0) (rank : Pair → ℕ) (h0 : Heap) where
  -- The volume has the three buffers over the blocks of `h0`, and its limits are within bounds.
  pub record Held (v : Volume D) : Type 0 where
    pub blocks : SameBlocks h0 (deinit buffers v.lfs2 v.heap)
    pub limits : AreLimits v.lfs2

  -- `lfs2_dir_getgstate` has reported the error.
  abbrev pub GstateFails : Error → Type 0
  GstateFails e =
      (own : Gstate) × (dir : Mdir) × (g : Gstate) × (s : D × Cache) × ((meta.getgstate own dir g
          s).0
        ≡ err e)

  -- The end of a call without its result.
  abbrev pub forget : {A : Type 0} → Outcome A → Outcome (Unit {0})
  forget (ok a) = ok tt
  forget (err e) = err e
  forget abort = abort
  forget out_of_fuel = out_of_fuel

  -- One of the three calls, for a pair of the list or metadata fetched from one, has come to this end
  -- from a fine state.
  abbrev pub Stops : Outcome (Unit {0}) → Type 0
  Stops out =
      ((seed : ℕ) × (pair : Pair) × (s : D × Cache) × Listed meta Fine pair
        × Fine s
        × (forget (meta.fetchmatch seed pair s).0 ≡ out))
      ⊎ (((own : Gstate) × (dir : Mdir) × (s : D × Cache) × IsFetched meta Fine dir
            × Fine s
            × (forget (meta.superblock own dir s).0 ≡ out))
          ⊎ ((own : Gstate) × (dir : Mdir) × (g : Gstate) × (s : D × Cache) × IsFetched meta Fine
                dir
              × Fine s
              × (forget (meta.getgstate own dir g s).0 ≡ out)))

  -- An error leaves the blocks of `h0`, or, where it is one of reading the global state, also the
  -- buffers.
  abbrev pub Released : Error → Volume D → Type 0
  Released e v = SameBlocks h0 v.heap ⊎ (Held v × GstateFails e)

  -- The device and the read cache.
  abbrev pub state : Volume D → D × Cache
  state v = (v.dev, v.lfs2.rcache)

  -- How a part of the mount may end, with `P` of its result and the volume.
  abbrev PartEnds : {A : Type 0} → (A → Volume D → Type 0) → Outcome A × Volume D → Type 0
  PartEnds P (ok a, v) = P a v × Held v
  PartEnds P (err e, v) = Released e v
  PartEnds P (abort, v) = Stops abort
  PartEnds P (out_of_fuel, v) = Stops out_of_fuel

  -- The same before the cleanup.
  abbrev HeldEnds : {A : Type 0} → (A → Volume D → Type 0) → Outcome A × Volume D → Type 0
  HeldEnds P (ok a, v) = P a v × Held v
  HeldEnds P (err e, v) = Held v
  HeldEnds P (abort, v) = Stops abort
  HeldEnds P (out_of_fuel, v) = Stops out_of_fuel

  -- The state stays fine, and the global state that is pending does not change.
  abbrev Kept : Volume D → Volume D → Type 0
  Kept v v' = Fine (state v') × (v'.lfs2.gpending ≡ v.lfs2.gpending)

  Held-same : (v v' : Volume D) → Checked v.lfs2 v'.lfs2 → v'.heap ≡ v.heap → Held v → Held v'
  Held-same v v' c same held =
      let freed : deinit buffers v'.lfs2 v'.heap ≡ deinit buffers v.lfs2 v.heap =
        rw same (deinit_same buffers v.lfs2 v'.lfs2 v.heap c) in
      record { blocks = rw freed held.blocks; limits = c.limits held.limits }

  -- The fields that `lfs2_deinit` and the limits do not look at.
  Held-set :
      (v v' : Volume D)
      → v'.heap ≡ v.heap
      → (v'.lfs2.rcache_at ≡ v.lfs2.rcache_at)
        × (v'.lfs2.pcache_at ≡ v.lfs2.pcache_at)
        × (v'.lfs2.free_at ≡ v.lfs2.free_at)
        × (v'.lfs2.name_max ≡ v.lfs2.name_max)
        × (v'.lfs2.file_max ≡ v.lfs2.file_max)
        × (v'.lfs2.attr_max ≡ v.lfs2.attr_max)
      → Held v
      → Held v'
  Held-set v v' same (e1, e2, e3, e4, e5, e6) held =
      Held-same v v'
        (record {
          rcache_at = e1;
          pcache_at = e2;
          free_at = e3;
          limits = λ l. record {
            name_max = omega (arith, l.name_max);
            file_max = omega (arith, l.file_max);
            attr_max = omega (arith, l.attr_max);
          };
        })
        same held

  or_cleanup_lem :
      {A : Type 0} (P : A → Volume D → Type 0) (out : Outcome A × Volume D)
      → HeldEnds P out
      → PartEnds P (or_cleanup cfg buffers host meta out)
  or_cleanup_lem P (ok a, v) held = held
  or_cleanup_lem P (err e, v) held = inl held.blocks
  or_cleanup_lem P (abort, v) h = h
  or_cleanup_lem P (out_of_fuel, v) h = h

  -- The pair is of the list, it has been fetched from a fine state, and the rest of the list is shorter.
  abbrev pub Fetches : Pair → Mdir → Type 0
  Fetches pair dir =
      Listed meta Fine pair
      × ((pair_isnull dir.tail ≡ true) ⊎ (rank dir.tail < rank pair))
      × ((seed : ℕ) × (s : D × Cache) × (tag : ℕ) × (seed' : ℕ) × Fine s
          × ((meta.fetchmatch seed pair s).0 ≡ ok (tag, dir, seed')))

  Fetches-IsFetched : (pair : Pair) (dir : Mdir) → Fetches pair dir → IsFetched meta Fine dir
  Fetches-IsFetched pair dir (listed, less, found) = (pair, listed, found)

  Fetches-Listed :
      (pair : Pair) (dir : Mdir)
      → Fetches pair dir
      → pair_isnull dir.tail ≡ false
      → Listed meta Fine dir.tail
  Fetches-Listed pair dir (listed, less, (seed, s, tag, seed', good, e)) some_tail =
      later {found = (tag, dir, seed')} listed good e some_tail

  -- `lfs2_dir_getgstate` of the pair has made `g'` of `g`.
  abbrev pub Sums : Mdir → Gstate → Gstate → Type 0
  Sums dir g g' =
      (own : Gstate) × (s : D × Cache) × Fine s × ((meta.getgstate own dir g s).0 ≡ ok g')

  -- The global states of the pairs of the list from `tail` on, at most `n` of them, make `g'` of `g`.
  unfoldable pub SumOf : ℕ → Pair → Gstate → Gstate → Type 0
  SumOf zero tail g g' = ⊥
  SumOf (suc n) tail g g' = elim (pair_isnull tail) [
    | true ↦ g' ≡ g
    | false ↦
        (dir : Mdir) × (next : Gstate) × Fetches tail dir
        × Sums dir g next
        × SumOf n dir.tail next g'
  ]

  module _ (fine : IsMetadata meta Fine rank) where
    fetch_next :
        (pair : Pair) (v : Volume D) (res : Outcome (ℕ × Mdir × ℕ)) (s : D × Cache)
        → ((found : ℕ × Mdir × ℕ) → res ≡ ok found → Fetches pair found.1)
        → ((out : Outcome (Unit {0})) → forget res ≡ out → Stops out)
        → ((found : ℕ × Mdir × ℕ) → res ≡ ok found → Fine s)
        → Held v
        → HeldEnds {A = ℕ × Mdir}
            (λ found v'. Fetches pair found.1 × Kept v v')
            (bind (through (λ _. (res, s)) v) (λ found v'.
              (ok (found.0, found.1), record v' { lfs2 = record (v'.lfs2) { seed = found.2 } })))
    fetch_next pair v (ok found) s less stops good held = (
      (less found refl, (good found refl, refl)),
      Held-set v _ refl (refl, refl, refl, refl, refl, refl) held,
    )
    fetch_next pair v (err e) s less stops good held =
        Held-set v _ refl (refl, refl, refl, refl, refl, refl) held
    fetch_next pair v abort s less stops good held = stops abort refl
    fetch_next pair v out_of_fuel s less stops good held = stops out_of_fuel refl

    fetch_lem :
        (pair : Pair) (v : Volume D)
        → Listed meta Fine pair
        → Fine (state v)
        → Held v
        → HeldEnds {A = ℕ × Mdir}
            (λ found v'. Fetches pair found.1 × Kept v v')
            (fetch cfg buffers host meta pair v)
    fetch_lem pair v listed good held =
        let seed = v.lfs2.seed in
        let (res, s) = meta.fetchmatch seed pair (state v) in
        fetch_next pair v res s
          (λ found e. (
            listed,
            fine.shorter seed pair (state v) found listed good e,
            (seed, state v, found.0, found.2, good, e),
          ))
          (λ out e. inl (seed, pair, state v, listed, good, e))
          (λ found e. fine.fetched seed pair (state v) found listed good e) held

    check_next :
        (v : Volume D) (out : Outcome (Unit {0}) × Lfs2)
        → CheckEnds v.lfs2 out
        → (out.1.rcache ≡ v.lfs2.rcache) × (out.1.gpending ≡ v.lfs2.gpending)
        → Fine (state v)
        → Held v
        → HeldEnds (λ _ v'. Kept v v') (out.0, record v { lfs2 = out.1 })
    check_next v (ok _, lfs2') c (cache, pending) good held =
        ((subst (λ r. Fine (v.dev, r)) (sym cache) good, pending), Held-same v _ c refl held)
    check_next v (err e, lfs2') (same, c) kept good held = Held-same v _ c refl held
    check_next v (abort, lfs2') h kept good held = absurd h
    check_next v (out_of_fuel, lfs2') h kept good held = absurd h

    superblock_next :
        (v : Volume D) (res : Outcome Superblock) (s : D × Cache)
        → ((out : Outcome (Unit {0})) → forget res ≡ out → Stops out)
        → ((found : Superblock) → res ≡ ok found → Fine s)
        → Held v
        → HeldEnds
            (λ _ v'. Kept v v')
            (bind
              (through (λ _. (res, s)) v)
              (λ found v'. check cfg buffers host meta (superblock_fromle32 host found) v'))
    superblock_next v (ok found) s stops good held =
        let v' = record v { dev = s.0; lfs2 = record (v.lfs2) { rcache = s.1 } } in
        let read = superblock_fromle32 host found in
        check_next v' _ (check_superblock_lem read v'.lfs2) (check_superblock_keeps read v'.lfs2)
          (good found refl) (Held-set v v' refl (refl, refl, refl, refl, refl, refl) held)
    superblock_next v (err e) s stops good held =
        Held-set v _ refl (refl, refl, refl, refl, refl, refl) held
    superblock_next v abort s stops good held = stops abort refl
    superblock_next v out_of_fuel s stops good held = stops out_of_fuel refl

    superblock_lem :
        (dir : Mdir) (v : Volume D)
        → IsFetched meta Fine dir
        → Fine (state v)
        → Held v
        → HeldEnds (λ _ v'. Kept v v') (read_superblock cfg buffers host meta dir v)
    unfolding read_superblock
    superblock_lem dir v listed good held =
        let v' = record v { lfs2 = record (v.lfs2) { root = dir.pair } } in
        let own = v.lfs2.gstate in
        let (res, s) = meta.superblock own dir (state v) in
        superblock_next v' res s (λ out e. inr (inl (own, dir, state v, listed, good, e)))
          (λ found e. fine.looked_up own dir (state v) found listed good e)
          (Held-set v v' refl (refl, refl, refl, refl, refl, refl) held)

    getgstate_next :
        (v : Volume D) (dir : Mdir) (res : Outcome Gstate) (s : D × Cache)
        → ((g : Gstate) → res ≡ ok g → Sums dir v.lfs2.gpending g)
        → ((e : Error) → res ≡ err e → GstateFails e)
        → ((out : Outcome (Unit {0})) → forget res ≡ out → Stops out)
        → ((g : Gstate) → res ≡ ok g → Fine s)
        → Held v
        → PartEnds
            (λ _ v'. Fine (state v') × Sums dir v.lfs2.gpending v'.lfs2.gpending)
            (bind (through (λ _. (res, s)) v) (λ gpending v'.
              (ok tt, record v' { lfs2 = record (v'.lfs2) { gpending = gpending } })))
    getgstate_next v dir (ok g) s sums fails stops good held =
        ((good g refl, sums g refl), Held-set v _ refl (refl, refl, refl, refl, refl, refl) held)
    getgstate_next v dir (err e) s sums fails stops good held =
        inr (Held-set v _ refl (refl, refl, refl, refl, refl, refl) held, fails e refl)
    getgstate_next v dir abort s sums fails stops good held = stops abort refl
    getgstate_next v dir out_of_fuel s sums fails stops good held = stops out_of_fuel refl

    gstate_lem :
        (dir : Mdir) (v : Volume D)
        → IsFetched meta Fine dir
        → Fine (state v)
        → Held v
        → PartEnds
            (λ _ v'. Fine (state v') × Sums dir v.lfs2.gpending v'.lfs2.gpending)
            (read_gstate cfg buffers host meta dir v)
    unfolding read_gstate
    gstate_lem dir v listed good held =
        let own = v.lfs2.gstate in
        let g = v.lfs2.gpending in
        let (res, s) = meta.getgstate own dir g (state v) in
        getgstate_next v dir res s (λ g' e. (own, state v, good, e))
          (λ e same. (own, dir, g, state v, same))
          (λ out e. inr (inr (own, dir, g, state v, listed, good, e)))
          (λ g' e. fine.summed own dir g (state v) g' listed good e) held

    -- A round from `g` on has fetched the pair and added its global state.
    abbrev Round : Pair → Gstate → Mdir → Volume D → Type 0
    Round pair g dir v = Fetches pair dir × Fine (state v) × Sums dir g v.lfs2.gpending

    -- The rest of a round after the superblock.
    pair_end :
        (pair : Pair) (dir : Mdir) (g : Gstate) (out : Outcome (Unit {0}) × Volume D)
        → Fetches pair dir
        → PartEnds (λ _ v. Fine (state v) × (v.lfs2.gpending ≡ g)) out
        → PartEnds (Round pair g) (
            bind out
              (λ _ v2. bind (read_gstate cfg buffers host meta dir v2) (λ _ v3. (ok dir, v3))))
    pair_end pair dir g (ok _, v) less ((good, pending), held) =
        last (read_gstate cfg buffers host meta dir v)
          (gstate_lem dir v (Fetches-IsFetched pair dir less) good held)
      where
        last :
            (out : Outcome (Unit {0}) × Volume D)
            → PartEnds (λ _ v'. Fine (state v') × Sums dir v.lfs2.gpending v'.lfs2.gpending) out
            → PartEnds (Round pair g) (bind out (λ _ v3. (ok dir, v3)))
        last (ok _, v3) ((good3, sums), held3) =
            ((less, good3, subst (λ h. Sums dir h v3.lfs2.gpending) pending sums), held3)
        last (err e, v3) h = h
        last (abort, v3) h = h
        last (out_of_fuel, v3) h = h
    pair_end pair dir g (err e, v) less h = h
    pair_end pair dir g (abort, v) less h = h
    pair_end pair dir g (out_of_fuel, v) less h = h

    -- A part that keeps the volume `v` after what has kept `g`.
    kept_on :
        (g : Gstate) (v : Volume D) (out : Outcome (Unit {0}) × Volume D)
        → v.lfs2.gpending ≡ g
        → PartEnds (λ _ v'. Kept v v') out
        → PartEnds (λ _ v'. Fine (state v') × (v'.lfs2.gpending ≡ g)) out
    kept_on g v (ok _, v') pending ((good, same), held) = ((good, same ∙ pending), held)
    kept_on g v (err e, v') pending h = h
    kept_on g v (abort, v') pending h = h
    kept_on g v (out_of_fuel, v') pending h = h

    superblock_step :
        (tag : ℕ) (dir : Mdir) (v : Volume D)
        → IsFetched meta Fine dir
        → Fine (state v)
        → Held v
        → PartEnds
            (λ _ v'. Kept v v')
            (if has_superblock cfg buffers host meta tag
              then or_cleanup cfg buffers host meta (read_superblock cfg buffers host meta dir v)
              else (ok tt, v))
    superblock_step tag dir v listed good held =
        elim (Bool-cases (has_superblock cfg buffers host meta tag)) [
          | inl e ↦
              rw e (or_cleanup_lem (λ _ v'. Kept v v') _ (superblock_lem dir v listed good held))
          | inr e ↦ rw e ((good, refl), held)
        ]

    pair_next :
        (pair : Pair) (g : Gstate) (out : Outcome (ℕ × Mdir) × Volume D)
        → PartEnds {A = ℕ × Mdir}
            (λ found v'. Fetches pair found.1 × (Fine (state v') × (v'.lfs2.gpending ≡ g)))
            out
        → PartEnds (Round pair g) (
            bind out (λ found v1.
              bind
                (if has_superblock cfg buffers host meta found.0
                  then or_cleanup cfg buffers host meta
                      (read_superblock cfg buffers host meta found.1 v1)
                  else (ok tt, v1))
                (λ _ v2.
                  bind (read_gstate cfg buffers host meta found.1 v2) (λ _ v3. (ok found.1, v3)))))
    pair_next pair g (ok (tag, dir), v) ((less, (good, pending)), held) =
        pair_end pair dir g _ less (
          kept_on g v _ pending
            (superblock_step tag dir v (Fetches-IsFetched pair dir less) good held))
    pair_next pair g (err e, v) h = h
    pair_next pair g (abort, v) h = h
    pair_next pair g (out_of_fuel, v) h = h

    pair_lem :
        (pair : Pair) (v : Volume D)
        → Listed meta Fine pair
        → Fine (state v)
        → Held v
        → PartEnds (Round pair v.lfs2.gpending) (scan_pair cfg buffers host meta pair v)
    unfolding scan_pair
    pair_lem pair v listed good held = pair_next pair v.lfs2.gpending _ (
        or_cleanup_lem {A = ℕ × Mdir} (λ found v'. Fetches pair found.1 × Kept v v') _
          (fetch_lem pair v listed good held))

    -- The fuel is enough for the list of pairs from `tail` on.
    abbrev Enough : ℕ → Pair → Type 0
    Enough fuel tail = (0 < fuel) × ((pair_isnull tail ≡ true) ⊎ (rank tail + 1 < fuel))

    Enough-next :
        (fuel : ℕ) (tail : Pair) (dir : Mdir)
        → pair_isnull tail ≡ false
        → Enough (suc fuel) tail
        → Fetches tail dir
        → Enough fuel dir.tail
    Enough-next fuel tail dir e (pos, inl h) found = absurd (ground (arith, e, h))
    Enough-next fuel tail dir e (pos, inr h) (listed, inl null, found) = (omega arith, inl null)
    Enough-next fuel tail dir e (pos, inr h) (listed, inr less, found) =
        (omega arith, inr (omega arith))

    -- What the scan of the pairs from `tail` on has added to `g`.
    abbrev Scanned : ℕ → Pair → Gstate → Unit {0} → Volume D → Type 0
    Scanned fuel tail g _ v = Fine (state v) × SumOf fuel tail g v.lfs2.gpending

    pairs_rest :
        (fuel : ℕ) (tail : Pair) (g next : Gstate) (dir : Mdir)
        (out : Outcome (Unit {0}) × Volume D)
        → pair_isnull tail ≡ false
        → Fetches tail dir
        → Sums dir g next
        → PartEnds (Scanned fuel dir.tail next) out
        → PartEnds (Scanned (suc fuel) tail g) out
    unfolding SumOf
    pairs_rest fuel tail g next dir (ok _, v) e less sums ((good, sum), held) =
        ((good, rw (SumOf, e) (dir, next, less, sums, sum)), held)
    pairs_rest fuel tail g next dir (err e', v) e less sums h = h
    pairs_rest fuel tail g next dir (abort, v) e less sums h = h
    pairs_rest fuel tail g next dir (out_of_fuel, v) e less sums h = h

    pairs_next :
        (fuel : ℕ) (tail : Pair) (g : Gstate) (out : Outcome Mdir × Volume D)
        → ((dir : Mdir) (v : Volume D)
            → Enough fuel dir.tail
            → (pair_isnull dir.tail ≡ false → Listed meta Fine dir.tail)
            → Fine (state v)
            → Held v
            → PartEnds
                (Scanned fuel dir.tail v.lfs2.gpending)
                (scan_pairs cfg buffers host meta fuel dir.tail v))
        → pair_isnull tail ≡ false
        → Enough (suc fuel) tail
        → PartEnds (Round tail g) out
        → PartEnds
            (Scanned (suc fuel) tail g)
            (bind out (λ dir v. scan_pairs cfg buffers host meta fuel dir.tail v))
    pairs_next fuel tail g (ok dir, v) again e enough ((less, good, sums), held) =
        pairs_rest fuel tail g v.lfs2.gpending dir _ e less sums (
          again dir v (Enough-next fuel tail dir e enough less) (Fetches-Listed tail dir less) good
            held)
    pairs_next fuel tail g (err e', v) again e enough h = h
    pairs_next fuel tail g (abort, v) again e enough h = h
    pairs_next fuel tail g (out_of_fuel, v) again e enough h = h

    pairs_lem :
        (fuel : ℕ) (tail : Pair) (v : Volume D)
        → Enough fuel tail
        → (pair_isnull tail ≡ false → Listed meta Fine tail)
        → Fine (state v)
        → Held v
        → PartEnds
            (Scanned fuel tail v.lfs2.gpending)
            (scan_pairs cfg buffers host meta fuel tail v)
    unfolding scan_pairs SumOf
    pairs_lem zero tail v enough listed good held = absurd (omega (arith, enough.0))
    pairs_lem (suc fuel) tail v enough listed good held = elim (Bool-cases (pair_isnull tail)) [
      | inl e ↦ rw (PartEnds, scan_pairs, e) ((good, rw (SumOf, e) refl), held)
      | inr e ↦
          rw (PartEnds, scan_pairs, e)
            (pairs_next fuel tail v.lfs2.gpending (scan_pair cfg buffers host meta tail v)
              (λ dir v' enough' listed' good' held'.
                pairs_lem fuel dir.tail v' enough' listed' good' held')
              e enough (pair_lem tail v (listed e) good held))
    ]

    -- The global state after a mount: the sum, with the top bit of its tag as the code leaves it.
    abbrev pub mounted_gstate : Gstate → Gstate
    mounted_gstate g = record g { tag = u32 (g.tag + (if tag_isvalid g.tag then 0 else 1)) }

    -- How a mount may end, where `fuel` is more than the number of pairs.
    abbrev pub MountEnds : ℕ → Outcome (Unit {0}) × Volume D → Type 0
    MountEnds fuel (ok _, v) =
        Held v
        × (pair_isnull v.lfs2.root ≡ false)
        × ((g : Gstate) × SumOf fuel (0, 1) gstate_zero g × (v.lfs2.gstate ≡ mounted_gstate g))
        × (v.lfs2.gstate ≡ v.lfs2.gpending)
        × (v.lfs2.free.size ≡ 0)
        × (v.lfs2.free.ack ≡ cfg.block_count)
    MountEnds fuel (err e, v) = Released e v
    MountEnds fuel (abort, v) =
        ((sizes_ok cfg && (lookahead_ok cfg && limits_ok cfg)) ≡ false) ⊎ Stops abort
    MountEnds fuel (out_of_fuel, v) = Stops out_of_fuel

    end_lem :
        (fuel : ℕ) (out : Outcome (Unit {0}) × Volume D)
        → PartEnds (Scanned fuel (0, 1) gstate_zero) out
        → MountEnds fuel (bind out (λ _ v. mount_end cfg buffers host meta v))
    unfolding mount_end mount_state alloc_ack
    end_lem fuel (ok _, v) ((good, sum), held) = elim (Bool-cases (pair_isnull v.lfs2.root)) [
      | inl e ↦ rw e (inl held.blocks)
      | inr e ↦ rw e (
        Held-set v _ refl (refl, refl, refl, refl, refl, refl) held,
        e,
        (v.lfs2.gpending, sum, refl),
        refl,
        refl,
        refl,
      )
    ]
    end_lem fuel (err e, v) h = h
    end_lem fuel (abort, v) h = inr h
    end_lem fuel (out_of_fuel, v) h = h

    init_next :
        (fuel : ℕ) (dev : D) (out : Outcome (Unit {0}) × Memory)
        → InitEnds cfg buffers h0 out
        → Fine (dev, out.1.0.rcache)
        → Enough fuel (0, 1)
        → MountEnds fuel (
            bind
              (out.0, record { lfs2 = out.1.0; heap = out.1.1; dev = dev })
              (λ _ v1.
                bind
                  (scan_pairs cfg buffers host meta fuel (0, 1) v1)
                  (λ _ v2. mount_end cfg buffers host meta v2)))
    init_next fuel dev (ok _, (lfs2, h)) (blocks, name, file, attr, pending) good enough =
        let v1 : Volume D = record { lfs2 = lfs2; heap = h; dev = dev } in
        end_lem fuel _ (
          subst
            (λ g.
              PartEnds (Scanned fuel (0, 1) g) (scan_pairs cfg buffers host meta fuel (0, 1) v1))
            pending
            (pairs_lem fuel (0, 1) v1 enough (λ e. first) good
              (record {
                blocks = blocks;
                limits = record { name_max = name; file_max = file; attr_max = attr };
              })))
    init_next fuel dev (err e, (lfs2, h)) (same, blocks) good enough = inl blocks
    init_next fuel dev (abort, s) h good enough = inl h
    init_next fuel dev (out_of_fuel, s) h good enough = absurd h

-- `lfs2_mount` of a `lfs2_t` whose program cache and lookahead have no buffer, where, for the pairs of
-- the list from the first on and from the states of the device and the read cache that are fine, the
-- tails have smaller and smaller ranks and the calls on metadata that succeed lead to fine states, the
-- state after `lfs2_init` is fine, and the fuel exceeds the rank of the first pair by two: on success
-- there is a root, the limits are within those of the library, the global state is the sum that
-- `lfs2_dir_getgstate` has made over the list of pairs from 0 on, with the bit of its tag that the code
-- sets, the lookahead is empty with all blocks to look at, and `lfs2_unmount` gives back exactly what
-- was allocated. On an error the heap is as before, or the global state could not be read and the
-- buffers are still there. An assertion fails only where the configuration does not meet it or inside a
-- call on the metadata, and the mount ends unless such a call does not.
pub mount_lem :
    (cfg : Config) (buffers : Buffers) (host : ByteOrder) {D : Type 0} (meta : Metadata D)
    (Fine : D × Cache → Type 0) (rank : Pair → ℕ) (fine : IsMetadata meta Fine rank) (fuel : ℕ)
    (v : Volume D)
    → rank (0, 1) + 1 < fuel
    → IsHeap v.heap
    → v.lfs2.pcache_at ≡ 0
    → v.lfs2.free_at ≡ 0
    → Fine (v.dev, (init cfg buffers (v.lfs2, v.heap)).1.0.rcache)
    → MountEnds cfg buffers host meta Fine rank v.heap fine fuel
        (mount cfg buffers host meta fuel v)
unfolding mount
mount_lem cfg buffers host meta Fine rank fine fuel v enough heap e2 e3 good =
    init_next cfg buffers host meta Fine rank v.heap fine fuel v.dev
      (init cfg buffers (v.lfs2, v.heap)) (init-deinit cfg buffers v.lfs2 v.heap heap e2 e3) good
      (omega arith, inr enough)
