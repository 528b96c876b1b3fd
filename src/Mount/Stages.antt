-- ===== src/Mount/Stages.antt =====
-- The three stages of `lfs2_init`, each with its cleanup.
use mbed_littlefs.Base.{
  ℕ, ◌≡◌, ◌≢◌, refl, arith, Bool, false, ◌||◌, ◌==◌, Bool-cases, inl, inr, nomem, Outcome, ok, err,
  abort, out_of_fuel,
}
use mbed_littlefs.Mount.Requests.{
  IsHeap, SameBlocks, Adds, own_at, refused, granted, buffer_lem, release_lem, release_none,
}
use mbed_littlefs.Device.{Config}
use mbed_littlefs.Mount.{
  Buffers, Lfs2, Heap, Memory, deinit, buffer_for, init_rcache, init_pcache, init_free,
}

module _ (cfg : Config) (buffers : Buffers) where
  -- The blocks that `lfs2_init` has allocated for the file system, by the number of buffers set.
  abbrev pub owned1 : Lfs2 → ℕ → Bool
  owned1 lfs2 a = false || own_at buffers.read_buffer lfs2.rcache_at a

  abbrev pub owned2 : Lfs2 → ℕ → Bool
  owned2 lfs2 a = owned1 lfs2 a || own_at buffers.prog_buffer lfs2.pcache_at a

  abbrev pub owned3 : Lfs2 → ℕ → Bool
  owned3 lfs2 a = owned2 lfs2 a || own_at buffers.lookahead_buffer lfs2.free_at a

  -- The three buffers stand at different addresses, none of them NULL.
  pub record Apart (lfs2 : Lfs2) : Type 0 where
    pub rcache : lfs2.rcache_at ≢ 0
    pub pcache : lfs2.pcache_at ≢ 0
    pub free : lfs2.free_at ≢ 0
    pub new2 : buffers.prog_buffer ≡ 0 → owned1 lfs2 lfs2.pcache_at ≡ false
    pub new3 : buffers.lookahead_buffer ≡ 0 → owned2 lfs2 lfs2.free_at ≡ false

  pub deinit_lem :
      (h0 h : Heap) (lfs2 : Lfs2)
      → Adds h0 (owned3 lfs2) h
      → Apart lfs2
      → SameBlocks h0 (deinit buffers lfs2 h)
  unfolding deinit
  deinit_lem h0 h lfs2 adds apart =
      let adds1 =
        release_lem h0 h (owned3 lfs2) buffers.read_buffer lfs2.rcache_at adds
          (λ e. (apart.rcache, ground (arith, e))) in
      let adds2 =
        release_lem h0 _ _ buffers.prog_buffer lfs2.pcache_at adds1
          (λ e. (apart.pcache, ground (arith, e, apart.new2))) in
      let adds3 =
        release_lem h0 _ _ buffers.lookahead_buffer lfs2.free_at adds2
          (λ e. (apart.free, ground (arith, e, apart.new3))) in
      record { live = λ a. ground (arith, adds3.live a); wild = adds3.wild }

  pub record After1 (h0 : Heap) (s : Memory) : Type 0 where
    pub adds : Adds h0 (owned1 s.0) s.1
    pub heap : IsHeap s.1
    pub rcache : s.0.rcache_at ≢ 0
    pub pcache : s.0.pcache_at ≡ 0
    pub free : s.0.free_at ≡ 0

  pub record After2 (h0 : Heap) (s : Memory) : Type 0 where
    pub adds : Adds h0 (owned2 s.0) s.1
    pub heap : IsHeap s.1
    pub rcache : s.0.rcache_at ≢ 0
    pub pcache : s.0.pcache_at ≢ 0
    pub new2 : buffers.prog_buffer ≡ 0 → owned1 s.0 s.0.pcache_at ≡ false
    pub free : s.0.free_at ≡ 0

  pub record After3 (h0 : Heap) (s : Memory) : Type 0 where
    pub adds : Adds h0 (owned3 s.0) s.1
    pub apart : Apart s.0

  -- How a stage of `lfs2_init` may end.
  abbrev pub StageEnds : (Memory → Type 0) → Heap → Outcome (Unit {0}) × Memory → Type 0
  StageEnds After h0 (ok _, s) = After s
  StageEnds After h0 (err e, s) = (e ≡ nomem) × SameBlocks h0 s.1
  StageEnds After h0 (abort, s) = ⊥
  StageEnds After h0 (out_of_fuel, s) = ⊥

  same_of_none : (h0 h : Heap) → Adds h0 (λ a. false) h → SameBlocks h0 h
  same_of_none h0 h adds = record { live = λ a. ground (arith, adds.live a); wild = adds.wild }

  fail1 :
      (h0 h : Heap) (lfs2 : Lfs2)
      → Adds h0 (λ a. false) h
      → lfs2.rcache_at ≡ 0
      → lfs2.pcache_at ≡ 0
      → lfs2.free_at ≡ 0
      → SameBlocks h0 (deinit buffers lfs2 h)
  unfolding deinit
  fail1 h0 h lfs2 adds e1 e2 e3 =
      rw
        (
          e1,
          e2,
          e3,
          release_none buffers.read_buffer h,
          release_none buffers.prog_buffer h,
          release_none buffers.lookahead_buffer h,
        )
        (same_of_none h0 h adds)

  pub rcache_lem :
      (h0 : Heap) (lfs2 : Lfs2)
      → IsHeap h0
      → lfs2.pcache_at ≡ 0
      → lfs2.free_at ≡ 0
      → StageEnds (After1 h0) h0 (init_rcache buffers (lfs2, h0))
  unfolding init_rcache
  rcache_lem h0 lfs2 heap e2 e3 =
      let none : Adds h0 (λ a. false) h0 = record {
        live = λ a. refl;
        apart = λ a owned. absurd (ground (arith, owned));
        wild = refl;
      } in
      let asked = buffer_lem h0 h0 (λ a. false) buffers.read_buffer none heap in
      elim (Bool-cases ((buffer_for buffers.read_buffer h0).0 == 0)) [
        | inl e ↦ rw e (refl, fail1 h0 _ _ (refused h0 _ _ _ asked e) (ground (arith, e)) e2 e3)
        | inr e ↦
            let grants = granted h0 _ _ _ asked e in
            rw e (record {
              adds = grants.adds;
              heap = grants.heap;
              rcache = λ z. ground (arith, e, z);
              pcache = e2;
              free = e3;
            })
      ]

  fail2 :
      (h0 h : Heap) (lfs2 : Lfs2)
      → Adds h0 (owned1 lfs2) h
      → lfs2.rcache_at ≢ 0
      → lfs2.pcache_at ≡ 0
      → lfs2.free_at ≡ 0
      → SameBlocks h0 (deinit buffers lfs2 h)
  unfolding deinit
  fail2 h0 h lfs2 adds n1 e2 e3 =
      let adds1 =
        release_lem h0 h (owned1 lfs2) buffers.read_buffer lfs2.rcache_at adds
          (λ e. (n1, ground (arith, e))) in
      rw (e2, e3, release_none buffers.prog_buffer, release_none buffers.lookahead_buffer)
        (record { live = λ a. ground (arith, adds1.live a); wild = adds1.wild })

  pub pcache_lem :
      (h0 : Heap) (s : Memory) → After1 h0 s → StageEnds (After2 h0) h0 (init_pcache buffers s)
  unfolding init_pcache
  pcache_lem h0 (lfs2, h) after =
      let asked = buffer_lem h0 h (owned1 lfs2) buffers.prog_buffer after.adds after.heap in
      elim (Bool-cases ((buffer_for buffers.prog_buffer h).0 == 0)) [
        | inl e ↦ rw e (
          refl,
          fail2 h0 _ _ (refused h0 _ _ _ asked e) after.rcache (ground (arith, e)) after.free,
        )
        | inr e ↦
            let grants = granted h0 _ _ _ asked e in
            rw e (record {
              adds = grants.adds;
              heap = grants.heap;
              rcache = after.rcache;
              pcache = λ z. ground (arith, e, z);
              new2 = grants.new;
              free = after.free;
            })
      ]

  fail3 :
      (h0 h : Heap) (lfs2 : Lfs2)
      → Adds h0 (owned2 lfs2) h
      → lfs2.rcache_at ≢ 0
      → lfs2.pcache_at ≢ 0
      → (buffers.prog_buffer ≡ 0 → owned1 lfs2 lfs2.pcache_at ≡ false)
      → lfs2.free_at ≡ 0
      → SameBlocks h0 (deinit buffers lfs2 h)
  unfolding deinit
  fail3 h0 h lfs2 adds n1 n2 new2 e3 =
      let adds1 =
        release_lem h0 h (owned2 lfs2) buffers.read_buffer lfs2.rcache_at adds
          (λ e. (n1, ground (arith, e))) in
      let adds2 =
        release_lem h0 _ _ buffers.prog_buffer lfs2.pcache_at adds1
          (λ e. (n2, ground (arith, e, new2))) in
      rw (e3, release_none buffers.lookahead_buffer)
        (record { live = λ a. ground (arith, adds2.live a); wild = adds2.wild })

  pub free_lem :
      (h0 : Heap) (s : Memory) → After2 h0 s → StageEnds (After3 h0) h0 (init_free buffers s)
  unfolding init_free
  free_lem h0 (lfs2, h) after =
      let asked = buffer_lem h0 h (owned2 lfs2) buffers.lookahead_buffer after.adds after.heap in
      elim (Bool-cases ((buffer_for buffers.lookahead_buffer h).0 == 0)) [
        | inl e ↦ rw e (
          refl,
          fail3 h0 _ _ (refused h0 _ _ _ asked e) after.rcache after.pcache after.new2
              (ground (arith, e)),
        )
        | inr e ↦
            let grants = granted h0 _ _ _ asked e in
            rw e (record {
              adds = grants.adds;
              apart = record {
                rcache = after.rcache;
                pcache = after.pcache;
                free = λ z. ground (arith, e, z);
                new2 = after.new2;
                new3 = grants.new;
              };
            })
      ]
