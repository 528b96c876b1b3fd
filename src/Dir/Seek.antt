-- ===== src/Dir/Seek.antt =====
-- `lfs2_dir_seek` of littlefs/lfs2.c: where it stands in the chain of the pairs of a directory.
use mbed_littlefs.Base.{
  ℕ, zero, suc, ◌+◌, ◌-◌, ◌^◌, ◌≤◌, ◌<◌, ◌≡◌, refl, arith, min, true, false, ltb, ◌==◌, ==_refl,
  ltb→lt, lt→ltb, if◌then◌else◌, Bool-cases, inl, inr, List, [], ◌∷◌, length, Option, none, some,
  inval, Outcome, ok, err, u32,
}
use mbed_littlefs.Store.{bind}
use mbed_littlefs.Tag.{Pair}
use mbed_littlefs.Dir.{Mdir}
use mbed_littlefs.Dir.Walk.{OpenDir, Fetch, on_mdir, dir_rewind, seek_next, seek_loop, dir_seek}

-- The id at the position, counted from 0 in the first of the pairs.
unfoldable pub entry_at : Mdir → List Mdir → ℕ → Option (Mdir × ℕ)
entry_at m [] r = if ltb r m.count then some (m, r) else none
entry_at m (d ∷ ds) r = if ltb r m.count then some (m, r) else entry_at d ds (r - m.count)

entry_at_first : (m : Mdir) (ds : List Mdir) → 0 < m.count → entry_at m ds 0 ≡ some (m, 0)
unfolding entry_at
entry_at_first m [] full = rw (lt→ltb 0 m.count full) refl
entry_at_first m (d ∷ ds) full = rw (lt→ltb 0 m.count full) refl

-- `Holds` is what the blocks hold while the directory is walked.
module _ {S : Type 0} (dir_fetch : Fetch S) (Holds : S → Type 0) where
  -- A fetch of the pair succeeds with this metadata, and leaves the blocks as they are.
  abbrev pub Fetches : Pair → Mdir → Type 0
  Fetches pair m =
      (w : Mdir × S)
      → Holds w.1
      → ((dir_fetch pair w).0 ≡ ok tt) × ((dir_fetch pair w).1.0 ≡ m) × Holds (dir_fetch pair w).1.1

  -- The pairs of the list follow the first and one another, and none of the list is empty.
  unfoldable pub IsChain : Mdir → List Mdir → Type 0
  IsChain m [] = m.split ≡ false
  IsChain m (d ∷ ds) = (m.split ≡ true) × (Fetches m.tail d) × (0 < d.count) × (IsChain d ds)

  -- The open directory stands at the entry, at its position `off`. At the first entry of a later
  -- pair it has an id that is not 0.
  unfoldable pub Sought : Option (Mdir × ℕ) → ℕ → Outcome (Unit {0}) × (OpenDir × S) → Type 0
  Sought none off r = r.0 ≡ err inval
  Sought (some (m, zero)) off r = (r.0 ≡ ok tt) × (r.1.0.m ≡ m) × (0 < r.1.0.id) × (r.1.0.pos ≡ off)
  Sought (some (m, suc i)) off r =
      (r.0 ≡ ok tt) × (r.1.0.m ≡ m) × (r.1.0.id ≡ suc i) × (r.1.0.pos ≡ off)

  fetch_next :
      (pair : Pair) (m : Mdir)
      → Fetches pair m
      → (d : OpenDir) (s : S) (next : Unit {0} → OpenDir × S → Outcome (Unit {0}) × (OpenDir × S))
        (P : Outcome (Unit {0}) × (OpenDir × S) → Type 0)
      → Holds s
      → ((s' : S) → Holds s' → P (next tt (record d { m = m }, s')))
      → P (bind (on_mdir (dir_fetch pair) (d, s)) next)
  unfolding on_mdir
  fetch_next pair m fetches d s next P holds h =
      let (success, found, kept) = fetches (d.m, s) holds in
      rw success (rw found (h (dir_fetch pair (d.m, s)).1.1 kept))

  -- A round of the loop.
  round_lem :
      (fuel i id : ℕ) (d : OpenDir) (s : S)
      → min d.m.count (suc i) ≡ id
      → seek_loop dir_fetch (suc fuel) (suc i) (d, s)
        ≡ seek_next dir_fetch
            (seek_loop dir_fetch fuel (suc i - id))
            (record d { id = id; pos = u32 (d.pos + id) }, s)
  unfolding seek_loop
  round_lem fuel i id d s same =
      let positive : (suc i == 0) ≡ false = ground arith in rw (positive, seek_loop) (rw same refl)

  seek_loop_end :
      (fuel off : ℕ) (w : OpenDir × S) → off ≡ 0 → seek_loop dir_fetch (suc fuel) off w ≡ (ok tt, w)
  unfolding seek_loop
  seek_loop_end fuel off w h = rw h refl

  -- The walk ends in the pair that it is in.
  seek_next_inside :
      (fuel i : ℕ) (d : OpenDir) (s : S)
      → suc i < d.m.count
      → d.pos + suc i < 2 ^ 32
      → Sought
          (some (d.m, suc i))
          (d.pos + suc i)
          (seek_loop dir_fetch (suc (suc fuel)) (suc i) (d, s))
  unfolding seek_next Sought
  seek_next_inside fuel i d s below small =
      let within : (suc i == d.m.count) ≡ false = ground arith in
      rw (round_lem (suc fuel) i (suc i) d s (omega arith)) (
        rw (within, seek_next)
          (rw
            (seek_loop_end fuel (suc i - suc i)
              (record d { id = suc i; pos = u32 (d.pos + suc i) }, s) (omega arith))
            (refl, refl, refl, omega arith)))

  -- The walk goes past the last pair.
  seek_next_past_end :
      (fuel i off : ℕ) (d : OpenDir) (s : S)
      → d.m.count ≤ suc i
      → d.m.split ≡ false
      → Sought none off (seek_loop dir_fetch (suc fuel) (suc i) (d, s))
  unfolding seek_next Sought
  seek_next_past_end fuel i off d s past last =
      rw (round_lem fuel i d.m.count d s (omega arith))
        (rw (==_refl d.m.count, seek_next) (rw last refl))

  -- The walk goes on in the next pair.
  seek_next_past :
      (fuel i : ℕ) (d : OpenDir) (s : S) (m : Mdir)
      (P : Outcome (Unit {0}) × (OpenDir × S) → Type 0)
      → d.m.count ≤ suc i
      → d.m.split ≡ true
      → Fetches d.m.tail m
      → Holds s
      → ((s' : S)
          → Holds s'
          → P (
              seek_loop dir_fetch fuel
                (suc i - d.m.count)
                (record d { id = d.m.count; pos = u32 (d.pos + d.m.count); m = m }, s')))
      → P (seek_loop dir_fetch (suc fuel) (suc i) (d, s))
  unfolding seek_next
  seek_next_past fuel i d s m P past split fetches holds h =
      rw (round_lem fuel i d.m.count d s (omega arith)) (
        rw (==_refl d.m.count, seek_next)
          (rw split (
            fetch_next d.m.tail m fetches
              (record d { id = d.m.count; pos = u32 (d.pos + d.m.count) }) s
              (λ _ w'. seek_loop dir_fetch fuel (suc i - d.m.count) w') P holds h)))

  -- The walk stands in a pair that it has just fetched.
  arrival :
      (ds : List Mdir) (fuel r : ℕ) (d : OpenDir) (s : S)
      → 0 < d.m.count
      → (r ≡ 0 → 0 < d.id)
      → ((j : ℕ)
          → r ≡ suc j
          → Sought
              (entry_at d.m ds (suc j))
              (d.pos + suc j)
              (seek_loop dir_fetch (suc fuel) (suc j) (d, s)))
      → Sought (entry_at d.m ds r) (d.pos + r) (seek_loop dir_fetch (suc fuel) r (d, s))
  unfolding Sought
  arrival ds fuel zero d s full away further =
      rw (entry_at_first d.m ds full)
        (rw (seek_loop_end fuel 0 (d, s) refl) (refl, refl, away refl, omega arith))
  arrival ds fuel (suc j) d s full away further = further j refl

  -- The loop of `lfs2_dir_seek` along the pairs.
  seek_loop-Sought :
      (ds : List Mdir) (fuel i : ℕ) (d : OpenDir) (s : S)
      → Holds s
      → IsChain d.m ds
      → d.pos + suc i < 2 ^ 32
      → length ds + 2 ≤ fuel
      → Sought (entry_at d.m ds (suc i)) (d.pos + suc i) (seek_loop dir_fetch fuel (suc i) (d, s))
  unfolding entry_at IsChain
  seek_loop-Sought [] zero i d s holds chain small enough = absurd (omega arith)
  seek_loop-Sought [] (suc zero) i d s holds chain small enough = absurd (omega arith)
  seek_loop-Sought [] (suc (suc fuel)) i d s holds chain small enough =
      elim (Bool-cases (ltb (suc i) d.m.count)) [
        | inl h ↦ rw h (seek_next_inside fuel i d s (ltb→lt _ _ h) small)
        | inr h ↦ rw h (seek_next_past_end (suc fuel) i _ d s (ground arith) chain)
      ]
  seek_loop-Sought (m ∷ ds) zero i d s holds chain small enough = absurd (omega arith)
  seek_loop-Sought (m ∷ ds) (suc zero) i d s holds chain small enough = absurd (omega arith)
  seek_loop-Sought (m ∷ ds) (suc (suc fuel)) i d s holds (split, fetches, full, chain) small
        enough =
      elim (Bool-cases (ltb (suc i) d.m.count)) [
        | inl h ↦ rw h (seek_next_inside fuel i d s (ltb→lt _ _ h) small)
        | inr h ↦ rw h (
            seek_next_past (suc fuel) i d s m
              (Sought (entry_at m ds (suc i - d.m.count)) (d.pos + suc i)) (ground arith) split
              fetches holds
              (λ s' holds'.
                let past : d.m.count ≤ suc i = ground arith in
                let next : OpenDir = record d {
                  id = d.m.count;
                  pos = u32 (d.pos + d.m.count);
                  m = m;
                } in
                let r = suc i - d.m.count in
                let there : next.pos + r ≡ d.pos + suc i = omega arith in
                rw there at (
                  arrival ds fuel r next s' full (λ e. omega arith)
                    (λ j e.
                      seek_loop-Sought ds (suc fuel) j next s' holds' chain (omega arith)
                        (omega arith)))))
      ]

  -- Where every fetch of a directory's pairs succeeds, the pairs form a chain that ends and none but
  -- the first is empty, and the fuel is two more than the later pairs, `lfs2_dir_seek` to a word 2 + r
  -- with r above 0 ends. It returns 0 and stands at the r-th id of the chain if that is not the first
  -- of its pair; if it is the first of its pair, it returns 0 in that pair but with an id that is not
  -- 0; if the chain has no more than r ids, it returns `LFS2_ERR_INVAL`.
  pub dir_seek-entry_at :
      (m : Mdir) (ds : List Mdir) (fuel i : ℕ) (w : OpenDir × S)
      → Holds w.1
      → Fetches w.0.head m
      → IsChain (record m { pair = w.0.head }) ds
      → 2 + suc i < 2 ^ 32
      → length ds + 2 ≤ fuel
      → Sought
          (entry_at (record m { pair = w.0.head }) ds (suc i))
          (2 + suc i)
          (dir_seek dir_fetch fuel (2 + suc i) w)
  unfolding dir_seek dir_rewind
  dir_seek-entry_at m ds fuel i (d, s) holds fetches chain small enough =
      let start : min 2 (2 + suc i) ≡ 2 = omega arith in
      let rest : 2 + suc i - 2 ≡ suc i = omega arith in
      let head : Mdir = record m { pair = d.head } in
      fetch_next d.head m fetches d s
        (λ _ w'. (
          ok tt,
          (record (w'.0) { m = record (w'.0.m) { pair = w'.0.head }; id = 0; pos = 0 }, w'.1),
        ))
        (λ r. Sought (entry_at head ds (suc i)) (2 + suc i) (
          bind r (λ _ w'.
            seek_loop dir_fetch fuel (2 + suc i - min 2 (2 + suc i))
              (record (w'.0) { pos = min 2 (2 + suc i) }, w'.1))))
        holds
        (λ s' holds'. rw start (
          rw rest (
            seek_loop-Sought ds fuel i (record d { m = head; id = 0; pos = 2 }) s' holds' chain
              (omega arith) enough)))
