-- ===== src/Mount/Init.antt =====
-- What `lfs2_init` allocates, and that `lfs2_deinit` gives it back.
use mbed_littlefs.Base.{
  ◌≤◌, ◌≡◌, ◌≢◌, refl, arith, ap, Bool, true, false, ◌&&◌, ◌==◌, ==_refl, Bool-cases, inl, inr,
  List, ◌∷◌, nomem, Outcome, ok, err, abort, out_of_fuel,
}
use mbed_littlefs.Mount.Requests.{IsHeap, SameBlocks, release_none}
use mbed_littlefs.Gstate.{gstate_zero}
use mbed_littlefs.Device.{Config}
use mbed_littlefs.Store.{bind}
use mbed_littlefs.Mount.Stages.{
  StageEnds, After1, After2, After3, Apart, deinit_lem, rcache_lem, pcache_lem, free_lem,
}
use mbed_littlefs.Mount.{
  Buffers, Lfs2, Heap, Memory, grant, malloc, release, deinit, init_rcache, init_pcache, zeroed,
  init_free, init_state, sizes_ok, lookahead_ok, limits_ok, asserting, init,
}

module _ (cfg : Config) (buffers : Buffers) where
  -- How `lfs2_init` may end, begun on the heap `h0`.
  abbrev pub InitEnds : Heap → Outcome (Unit {0}) × Memory → Type 0
  InitEnds h0 (ok _, (lfs2, h)) =
      SameBlocks h0 (deinit buffers lfs2 h)
      × (lfs2.name_max ≤ 255)
      × (lfs2.file_max ≤ 2147483647)
      × (lfs2.attr_max ≤ 1022)
      × (lfs2.gpending ≡ gstate_zero)
  InitEnds h0 (err e, (lfs2, h)) = (e ≡ nomem) × SameBlocks h0 h
  InitEnds h0 (abort, s) = (sizes_ok cfg && (lookahead_ok cfg && limits_ok cfg)) ≡ false
  InitEnds h0 (out_of_fuel, s) = ⊥

  unmoved :
      (lfs2 : Lfs2) (h : Heap)
      → Apart cfg buffers lfs2
      → Apart cfg buffers (init_state cfg (lfs2, h)).0
  unfolding init_state
  unmoved lfs2 h apart = record {
    rcache = apart.rcache;
    pcache = apart.pcache;
    free = apart.free;
    new2 = apart.new2;
    new3 = apart.new3;
  }

  limits_lem :
      (h0 : Heap) (out : Outcome (Unit {0}) × Memory)
      → StageEnds cfg buffers (After3 cfg buffers h0) h0 out
      → InitEnds h0 (bind out (λ _ s. asserting (limits_ok cfg) s (ok tt, init_state cfg s)))
  unfolding init_state limits_ok
  limits_lem h0 (ok _, (lfs2, h)) after = elim (Bool-cases (limits_ok cfg)) [
    | inl e ↦ rw e (
      deinit_lem cfg buffers h0 h _ after.adds (unmoved lfs2 h after.apart),
      ground (arith, e),
      ground (arith, e),
      ground (arith, e),
      refl,
    )
    | inr e ↦ rw e (ground (arith, e))
  ]
  limits_lem h0 (err e, s) after = after
  limits_lem h0 (abort, s) after = absurd after
  limits_lem h0 (out_of_fuel, s) after = absurd after

  free_stage :
      (h0 : Heap) (out : Outcome (Unit {0}) × Memory)
      → StageEnds cfg buffers (After2 cfg buffers h0) h0 out
      → InitEnds h0 (
          bind out (λ _ s2. asserting (lookahead_ok cfg) (zeroed cfg s2) (
            bind
              (init_free buffers (zeroed cfg s2))
              (λ _ s3. asserting (limits_ok cfg) s3 (ok tt, init_state cfg s3)))))
  free_stage h0 (ok _, s) after = elim (Bool-cases (lookahead_ok cfg)) [
    | inl e ↦ rw e (
        limits_lem h0 (init_free buffers (zeroed cfg s)) (
          free_lem cfg buffers h0 (zeroed cfg s) (record {
            adds = after.adds;
            heap = after.heap;
            rcache = after.rcache;
            pcache = after.pcache;
            new2 = after.new2;
            free = after.free;
          })))
    | inr e ↦ rw e (ground (arith, e))
  ]
  free_stage h0 (err e, s) after = after
  free_stage h0 (abort, s) after = absurd after
  free_stage h0 (out_of_fuel, s) after = absurd after

  pcache_stage :
      (h0 : Heap) (out : Outcome (Unit {0}) × Memory)
      → StageEnds cfg buffers (After1 cfg buffers h0) h0 out
      → InitEnds h0 (
          bind out (λ _ s1. bind (init_pcache buffers s1) (λ _ s2.
            asserting (lookahead_ok cfg) (zeroed cfg s2) (
              bind
                (init_free buffers (zeroed cfg s2))
                (λ _ s3. asserting (limits_ok cfg) s3 (ok tt, init_state cfg s3))))))
  pcache_stage h0 (ok _, s) after =
      free_stage h0 (init_pcache buffers s) (pcache_lem cfg buffers h0 s after)
  pcache_stage h0 (err e, s) after = after
  pcache_stage h0 (abort, s) after = absurd after
  pcache_stage h0 (out_of_fuel, s) after = absurd after

  -- `lfs2_init`, given a `lfs2_t` whose program cache and lookahead have no buffer yet, either sets
  -- limits within those of the library and a pending global state of zero and allocates nothing that
  -- `lfs2_deinit` does not give back, or fails for want of memory with the heap as before; an
  -- assertion fails only where the configuration does not meet it. No address is freed that is not
  -- allocated.
  pub init-deinit :
      (lfs2 : Lfs2) (h : Heap)
      → IsHeap h
      → lfs2.pcache_at ≡ 0
      → lfs2.free_at ≡ 0
      → InitEnds h (init cfg buffers (lfs2, h))
  unfolding init
  init-deinit lfs2 h heap e2 e3 = elim (Bool-cases (sizes_ok cfg)) [
    | inl e ↦
        rw e (
          pcache_stage h (init_rcache buffers (lfs2, h)) (rcache_lem cfg buffers h lfs2 heap e2 e3))
    | inr e ↦ rw e (ground (arith, e))
  ]

malloc_refused :
    (h : Heap) (grants : List Bool)
    → h.grants ≡ false ∷ grants
    → malloc h ≡ (0, record h { grants = grants })
unfolding malloc
malloc_refused h grants refused_first = ap (λ g. grant g h) refused_first

-- `lfs2_deinit` frees the address of the program cache, whatever it is.
deinit_frees :
    (buffers : Buffers) (lfs2 : Lfs2) (h : Heap)
    → buffers.prog_buffer ≡ 0
    → lfs2.rcache_at ≡ 0
    → lfs2.pcache_at ≢ 0
    → h.live lfs2.pcache_at ≡ true
    → lfs2.free_at ≡ 0
    → (deinit buffers lfs2 h).live lfs2.pcache_at ≡ false
unfolding deinit release
deinit_frees buffers lfs2 h none_prog e1 nonzero live e3 =
    let named : (lfs2.pcache_at == 0) ≡ false = ground arith in
    rw
      (
        e1,
        e3,
        release_none buffers.lookahead_buffer,
        none_prog,
        named,
        release_none buffers.read_buffer,
        live,
        ==_refl lfs2.pcache_at,
      )
      refl

-- Where the request for the read cache is refused, no read or program buffer was given, and the
-- `lfs2_t` holds for its program cache an allocated address and for its lookahead none, `lfs2_init`
-- returns LFS2_ERR_NOMEM and has freed that address.
pub init_frees_stale :
    (cfg : Config) (buffers : Buffers) (lfs2 : Lfs2) (h : Heap) (grants : List Bool)
    → sizes_ok cfg ≡ true
    → buffers.read_buffer ≡ 0
    → buffers.prog_buffer ≡ 0
    → lfs2.pcache_at ≢ 0
    → h.live lfs2.pcache_at ≡ true
    → lfs2.free_at ≡ 0
    → h.grants ≡ false ∷ grants
    → let (out, s') = init cfg buffers (lfs2, h) in
      (out ≡ err nomem) × (s'.1.live lfs2.pcache_at ≡ false)
unfolding init init_rcache
init_frees_stale cfg buffers lfs2 h grants e none_read none_prog nonzero live none_free
      refused_first =
    let refusal = malloc_refused h grants refused_first in
    rw (e, none_read, refusal)
      (
        refl,
        deinit_frees (record buffers { read_buffer = 0 }) (record lfs2 { rcache_at = 0 })
            (record h { grants = grants }) none_prog refl nonzero live none_free,
      )
