-- ===== src/Mount/Requests.antt =====
-- The requests for a buffer in `lfs2_init`, and the release of one in `lfs2_deinit`.
use mbed_littlefs.Base.{
  ℕ, ◌<◌, ◌≤◌, ◌≡◌, ◌≢◌, refl, sym, arith, ◌∙◌, Bool, true, false, not, ◌&&◌, ◌||◌, ◌==◌,
  Bool-cases, inl, inr, List, [], ◌∷◌,
}
use mbed_littlefs.Mount.{Heap, give, grant, malloc, release, release_own, buffer_for}

-- No address from the next one on is allocated, and 0 is none.
pub record IsHeap (h : Heap) : Type 0 where
  pub positive : 0 < h.fresh
  pub above : (a : ℕ) → h.fresh ≤ a → h.live a ≡ false

-- The heap `h'` has the blocks of `h`, and no stray address was freed in between.
pub record SameBlocks (h h' : Heap) : Type 0 where
  pub live : (a : ℕ) → h'.live a ≡ h.live a
  pub wild : h'.wild ≡ h.wild

-- The heap `h` has the blocks of `h0` and apart from these the blocks `own`.
pub record Adds (h0 : Heap) (own : ℕ → Bool) (h : Heap) : Type 0 where
  pub live : (a : ℕ) → h.live a ≡ (own a || h0.live a)
  pub apart : (a : ℕ) → own a ≡ true → h0.live a ≡ false
  pub wild : h.wild ≡ h0.wild

-- The buffer at `at` is the file system's own.
abbrev pub own_at : ℕ → ℕ → ℕ → Bool
own_at given at a = given == 0 && a == at

-- How a request for a buffer ends.
pub record Grants (h0 : Heap) (own : ℕ → Bool) (given at : ℕ) (h : Heap) : Type 0 where
  pub adds : Adds h0 (λ a. own a || own_at given at a) h
  pub heap : IsHeap h
  pub new : given ≡ 0 → own at ≡ false

abbrev pub Requested : Heap → (ℕ → Bool) → ℕ → ℕ × Heap → Type 0
Requested h0 own given (at, h) = elim (at == 0) [
  | true ↦ Adds h0 own h
  | false ↦ Grants h0 own given at h
]

give_lem :
    (h0 h : Heap) (own : ℕ → Bool) (given : ℕ) (grants : List Bool)
    → Adds h0 own h
    → IsHeap h
    → given ≡ 0
    → Requested h0 own given (give grants h)
give_lem h0 h own given grants adds heap e =
    let positive = heap.positive in
    let named : (h.fresh == 0) ≡ false = ground arith in
    let unused : (own h.fresh || h0.live h.fresh) ≡ false =
      sym (adds.live h.fresh) ∙ heap.above h.fresh (omega arith) in
    rw (Requested, give, named)
      (record {
        adds = record {
          live = λ a. ground (arith, adds.live a);
          apart = λ a owned. ground (arith, adds.apart a, unused);
          wild = adds.wild;
        };
        heap = record { positive = omega arith; above = λ a above. ground (arith, heap.above a) };
        new = λ _. ground (arith, unused);
      })

grant_lem :
    (grants : List Bool) (h0 h : Heap) (own : ℕ → Bool) (given : ℕ)
    → Adds h0 own h
    → IsHeap h
    → given ≡ 0
    → Requested h0 own given (grant grants h)
grant_lem [] h0 h own given adds heap e = give_lem h0 h own given [] adds heap e
grant_lem (true ∷ grants) h0 h own given adds heap e = give_lem h0 h own given grants adds heap e
grant_lem (false ∷ grants) h0 h own given adds heap e = record {
  live = adds.live;
  apart = adds.apart;
  wild = adds.wild;
}

pub buffer_lem :
    (h0 h : Heap) (own : ℕ → Bool) (given : ℕ)
    → Adds h0 own h
    → IsHeap h
    → Requested h0 own given (buffer_for given h)
unfolding malloc
buffer_lem h0 h own given adds heap = elim (Bool-cases (given == 0)) [
  | inl e ↦ rw e (grant_lem h.grants h0 h own given adds heap (ground (arith, e)))
  | inr e ↦
      let same : buffer_for given h ≡ (given, h) = rw e refl in
      let kept : Grants h0 own given given h = record {
        adds = record {
          live = λ a. rw e (ground (arith, adds.live a));
          apart = λ a owned. ground (arith, adds.apart a, e);
          wild = adds.wild;
        };
        heap = heap;
        new = λ z. absurd (ground (arith, e, z));
      } in
      rw same (rw (Requested, e) kept)
]

pub refused :
    (h0 : Heap) (own : ℕ → Bool) (given : ℕ) (asked : ℕ × Heap)
    → Requested h0 own given asked
    → (asked.0 == 0) ≡ true
    → Adds h0 own asked.1
refused h0 own given (at, h) r e = rw (Requested, e) at r

pub granted :
    (h0 : Heap) (own : ℕ → Bool) (given : ℕ) (asked : ℕ × Heap)
    → Requested h0 own given asked
    → (asked.0 == 0) ≡ false
    → Grants h0 own given asked.0 asked.1
granted h0 own given (at, h) r e = rw (Requested, e) at r

pub release_lem :
    (h0 h : Heap) (own : ℕ → Bool) (given at : ℕ)
    → Adds h0 own h
    → ((given == 0) ≡ true → (at ≢ 0) × (own at ≡ true))
    → Adds h0 (λ a. own a && not (own_at given at a)) (release_own given at h)
unfolding release
release_lem h0 h own given at adds owned = elim (Bool-cases (given == 0)) [
  | inl e ↦
      let (nonzero, mine) = owned e in
      let named : (at == 0) ≡ false = ground arith in
      let allocated : h.live at ≡ true = adds.live at ∙ ground (arith, mine) in
      rw (e, named, allocated)
        (record {
          live = λ a. ground (arith, adds.live a, adds.apart at mine);
          apart = λ a mine'. ground (arith, adds.apart a);
          wild = adds.wild;
        })
  | inr e ↦ rw e (record {
    live = λ a. ground (arith, adds.live a);
    apart = λ a mine'. ground (arith, adds.apart a);
    wild = adds.wild;
  })
]

pub release_none : (given : ℕ) (h : Heap) → release_own given 0 h ≡ h
unfolding release
release_none given h = elim (Bool-cases (given == 0)) [ inl e ↦ rw e refl | inr e ↦ rw e refl ]
