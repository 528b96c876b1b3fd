-- ===== src/Ctz/Traverse.antt =====
-- `lfs2_ctz_traverse`: all blocks of a file, from the last to the first.
use mbed_littlefs.Base.{
  ℕ, zero, suc, ◌+◌, ◌-◌, ◌*◌, ◌%◌, ◌≤◌, ◌<◌, ◌≡◌, refl, arith, ap, ◌∙◌, true, false, ◌==◌, inl,
  inr, ◌⊎◌, List, [], ◌∷◌, Option, none, some, Error, Outcome, ok, err, abort, out_of_fuel, bit_and,
}
use mbed_littlefs.Bits.Field.{and_low}
use mbed_littlefs.Util.{ByteOrder, little_endian, big_endian, fromle32}
use mbed_littlefs.Device.{Config, Driver, Cache, view, IsConfig, IsDevice}
use mbed_littlefs.Bd.{bd_read}
use mbed_littlefs.Bd.View.{visible}
use mbed_littlefs.Bd.Read.{IsPcache, IsRcache, ReadFails}
use mbed_littlefs.Bd.ReadLoop.{Ends, bd_read_lem}
use mbed_littlefs.Store.{bind, word_at}
use mbed_littlefs.Ctz.{ctz_index, visit, read_heads, traverse_loop, ctz_traverse}
use mbed_littlefs.Ctz.Find.{pointer}

-- The blocks from index `n` down to 0.
abbrev pub down : (ℕ → ℕ) → ℕ → List ℕ
down blocks zero = blocks 0 ∷ []
down blocks (suc n) = blocks (suc n) ∷ down blocks n

-- The callback at each block of the list, up to an error.
abbrev pub run : {T : Type 0} → (T → ℕ → Option Error × T) → List ℕ → T → Option Error × T
run cb [] obj = (none, obj)
run cb (b ∷ bs) obj = elim (cb obj b).0 [
  | none ↦ run cb bs (cb obj b).1
  | some e ↦ (some e, (cb obj b).1)
]

word_one :
    (host : ByteOrder) (f : ℕ → ℕ) → word_at host (view f 0 8) 0 ≡ word_at host (view f 0 4) 0
word_one little_endian f = refl
word_one big_endian f = refl

word_two :
    (host : ByteOrder) (f : ℕ → ℕ) → word_at host (view f 0 8) 4 ≡ word_at host (view f 4 4) 0
word_two little_endian f = refl
word_two big_endian f = refl

-- The words of one pointer or of two.
first_word :
    (host : ByteOrder) {P : Type 0} (count : ℕ)
    → (count ≡ 1) ⊎ ((count ≡ 2) × P)
    → (f : ℕ → ℕ) → word_at host (view f 0 (count * 4)) 0 ≡ word_at host (view f 0 4) 0
first_word host count (inl e) f = rw e refl
first_word host count (inr (e, h)) f = rw e (word_one host f)

second_word :
    (host : ByteOrder) {P : Type 0} (count : ℕ)
    → (count ≡ 1) ⊎ ((count ≡ 2) × P)
    → count ≡ 2
    → (f : ℕ → ℕ) → word_at host (view f 0 (count * 4)) 4 ≡ word_at host (view f 4 4) 0
second_word host count (inl e) two_ f = absurd (omega arith)
second_word host count (inr (e, h)) two_ f = rw e (word_two host f)

Option-cases : {A : Type 0} (o : Option A) → (o ≡ none) ⊎ ((a : A) × (o ≡ some a))
Option-cases none = inl refl
Option-cases (some a) = inr (a, refl)

module _ (cfg : Config) (drv : Driver) (conf : IsConfig cfg) (device : IsDevice cfg drv)
    (host : ByteOrder) (pcache : Option Cache) (p : IsPcache cfg drv conf device pcache)
    (F : ℕ → ℕ → ℕ) {T : Type 0} (cb : T → ℕ → Option Error × T) where
  open drv use {Dev}
  open device use {content}

  -- The blocks of a file up to index `last`: each but the first begins with a pointer to the one
  -- before it, which at an even index a pointer to the one before that follows.
  pub record IsPaired (blocks : ℕ → ℕ) (last : ℕ) : Type 0 where
    pub of_device : (c : ℕ) → c ≤ last → blocks c < cfg.block_count
    pub one :
        (c : ℕ)
        → suc c ≤ last
        → pointer cfg drv conf device host pcache p F (blocks (suc c)) 0 ≡ blocks c
    pub two :
        (c : ℕ)
        → suc (suc c) ≤ last
        → c % 2 ≡ 0
        → pointer cfg drv conf device host pcache p F (blocks (suc (suc c))) 4 ≡ blocks c

  -- How a traversal may end: with the callback's state after all blocks of the list, or with the error
  -- that the callback returned at one of them or that a read reported.
  abbrev pub TraverseEnds : List ℕ → T → Outcome (Unit {0}) → T × (Dev × Cache) → Type 0
  TraverseEnds bs obj (ok _) s = run cb bs obj ≡ (none, s.0)
  TraverseEnds bs obj (err e) s = ((run cb bs obj).0 ≡ some e) ⊎ ReadFails cfg drv conf device e
  TraverseEnds bs obj abort s = ⊥
  TraverseEnds bs obj out_of_fuel s = ⊥

  -- How the read of the pointers may end, for the state `obj` of the callback.
  abbrev HeadsEnd : ℕ → ℕ → T → Outcome (ℕ × ℕ) → T × (Dev × Cache) → Type 0
  HeadsEnd block count obj (ok heads) s =
      (heads.0 ≡ pointer cfg drv conf device host pcache p F block 0)
      × (count ≡ 2 → heads.1 ≡ pointer cfg drv conf device host pcache p F block 4)
      × (s.0 ≡ obj)
      × IsRcache cfg drv conf device s.1.0 s.1.1
      × (content s.1.0 ≡ F)
  HeadsEnd block count obj (err e) s = ReadFails cfg drv conf device e
  HeadsEnd block count obj abort s = ⊥
  HeadsEnd block count obj out_of_fuel s = ⊥

  heads_lem :
      (obj : T) (dev : Dev) (rcache : Cache) (block count : ℕ)
      → content dev ≡ F
      → IsRcache cfg drv conf device dev rcache
      → block < cfg.block_count
      → 8 ≤ cfg.block_size
      → 0 < count
      → count ≤ 2
      → ((f : ℕ → ℕ) → word_at host (view f 0 (count * 4)) 0 ≡ word_at host (view f 0 4) 0)
      → (count ≡ 2
          → (f : ℕ → ℕ) → word_at host (view f 0 (count * 4)) 4 ≡ word_at host (view f 4 4) 0)
      → let (out, s) = read_heads cfg drv host cb pcache block count (obj, (dev, rcache)) in
        HeadsEnd block count obj out s
  heads_lem obj dev rcache block count same r hb wide some_ few first second =
      ends (bd_read cfg drv dev pcache rcache (count * 4) block 0 (count * 4)) (
        bd_read_lem cfg drv conf device dev pcache rcache (count * 4) block 0 (count * 4) hb
          (omega arith) (omega arith) (omega arith) p r)
    where
      ends :
          (res : Outcome (List ℕ) × Dev × Cache)
          → Ends cfg drv conf device
              (view (visible pcache block (content dev block)) 0 (count * 4))
              res.0
              res.1
              res.2
            × (content res.1 ≡ content dev)
          → let (out, s) =
              bind {S = T × (Dev × Cache)} {B = ℕ × ℕ}
                (res.0, (obj, (res.1, res.2)))
                (λ bytes s. (
                  ok (fromle32 host (word_at host bytes 0), fromle32 host (word_at host bytes 4)),
                  s,
                )) in
            HeadsEnd block count obj out s
      ends (ok bytes, dev', rcache') ((e, r'), kept) =
          let V = visible pcache block (content dev block) in
          let to_F = λ (off : ℕ).
            ap
              (λ (f : ℕ → ℕ → ℕ).
                fromle32 host (word_at host (view (visible pcache block (f block)) off 4) 0))
              same in
          (
            ap (λ xs. fromle32 host (word_at host xs 0)) e ∙ ap (fromle32 host) (first V) ∙ to_F 0,
            λ two_.
                ap (λ xs. fromle32 host (word_at host xs 4)) e
                ∙ ap (fromle32 host) (second two_ V)
                ∙ to_F 4,
            refl,
            r',
            kept ∙ same,
          )
      ends (err e, dev', rcache') (h, kept) = h
      ends (abort, dev', rcache') (h, kept) = h
      ends (out_of_fuel, dev', rcache') (h, kept) = h

  TraverseEnds-cons :
      (b : ℕ) (bs : List ℕ) (obj : T) (out : Outcome (Unit {0})) (s : T × (Dev × Cache))
      → (cb obj b).0 ≡ none
      → TraverseEnds bs (cb obj b).1 out s
      → TraverseEnds (b ∷ bs) obj out s
  TraverseEnds-cons b bs obj (ok u) s e h = rw (e, run) h
  TraverseEnds-cons b bs obj (err x) s e (inl h) = inl (rw (e, run) h)
  TraverseEnds-cons b bs obj (err x) s e (inr h) = inr h
  TraverseEnds-cons b bs obj abort s e h = h
  TraverseEnds-cons b bs obj out_of_fuel s e h = h

  TraverseEnds-failed :
      (b : ℕ) (bs : List ℕ) (obj : T) (x : Error) (s : T × (Dev × Cache))
      → (cb obj b).0 ≡ some x
      → TraverseEnds (b ∷ bs) obj (err x) s
  TraverseEnds-failed b bs obj x s e = inl (rw (e, run) refl)

  module _ (blocks : ℕ → ℕ) (last : ℕ) (list : IsPaired blocks last)
      (wide : 8 ≤ cfg.block_size) where
    abbrev Walk : ℕ → Type 0
    Walk fuel =
        (index : ℕ) (obj : T) (dev : Dev) (rcache : Cache)
        → content dev ≡ F
        → IsRcache cfg drv conf device dev rcache
        → index ≤ last
        → index < fuel
        → let (out, s) =
            traverse_loop cfg drv host cb pcache fuel index (blocks index) (obj, (dev, rcache)) in
          TraverseEnds (down blocks index) obj out s

    -- After the pointers of the block at index `suc n`.
    after_heads :
        (fuel n count : ℕ)
        → Walk fuel
        → suc n ≤ last
        → n < fuel
        → (count ≡ 1) ⊎ ((count ≡ 2) × (suc n % 2 ≡ 0))
        → (obj : T) (res : Outcome (ℕ × ℕ) × (T × (Dev × Cache)))
        → HeadsEnd (blocks (suc n)) count obj res.0 res.1
        → let (out, s) = bind res (λ heads s2.
          elim (count == 2) as (λ x. Outcome (Unit {0}) × (T × (Dev × Cache))) [
            | true ↦
                bind
                  (visit cfg drv host cb heads.0 s2)
                  (λ _ s3. traverse_loop cfg drv host cb pcache fuel (suc n - 2) heads.1 s3)
            | false ↦ traverse_loop cfg drv host cb pcache fuel (suc n - 1) heads.0 s2
          ]) in
          TraverseEnds (down blocks n) obj out s
    after_heads fuel n count ih le enough which obj (err e, s) h = inr h
    after_heads fuel n count ih le enough which obj (abort, s) h = h
    after_heads fuel n count ih le enough which obj (out_of_fuel, s) h = h
    after_heads fuel n count ih le enough (inl one_) obj (ok (h0, h1), (obj', (dev, rcache)))
          (at0, at1, same, r, kept) =
        let test : (count == 2) ≡ false = ground arith in
        let back : suc n - 1 ≡ n = omega arith in
        let head : h0 ≡ blocks n = at0 ∙ list.one n le in
        rw (bind, test, back, head, same) (ih n obj dev rcache kept r (omega arith) enough)
    after_heads fuel zero count ih le enough (inr (two_, even)) obj (ok (h0, h1), s) h =
        absurd (omega (arith, even))
    after_heads fuel (suc m) count ih le enough (inr (two_, even)) obj
          (ok (h0, h1), (obj', (dev, rcache))) (at0, at1, same, r, kept) =
        let test : (count == 2) ≡ true = ground arith in
        let back : suc (suc m) - 2 ≡ m = omega arith in
        let head : h0 ≡ blocks (suc m) = at0 ∙ list.one (suc m) le in
        let next : h1 ≡ blocks m = at1 two_ ∙ list.two m le (omega arith) in
        elim (Option-cases (cb obj (blocks (suc m))).0) [
          | inl fine ↦
              rw (bind, test, visit, head, same, fine, back, next, head, same)
                (TraverseEnds-cons (blocks (suc m)) (down blocks m) obj _ _ fine
                  (ih m (cb obj (blocks (suc m))).1 dev rcache kept r (omega arith) (omega arith)))
          | inr (e, failed) ↦
              rw (bind, test, visit, head, same, failed)
                (TraverseEnds-failed (blocks (suc m)) (down blocks m) obj e
                  ((cb obj' h0).1, (dev, rcache)) failed)
        ]

    loop_lem : (fuel : ℕ) → Walk fuel
    unfolding traverse_loop
    loop_lem zero index obj dev rcache same r le enough = absurd (omega arith)
    loop_lem (suc fuel) zero obj dev rcache same r le enough =
        elim (Option-cases (cb obj (blocks 0)).0) [
          | inl fine ↦
              rw (traverse_loop, visit, fine)
                (TraverseEnds-cons (blocks 0) [] obj (ok tt) ((cb obj (blocks 0)).1, (dev, rcache))
                  fine refl)
          | inr (e, failed) ↦
              rw (traverse_loop, visit, failed)
                (TraverseEnds-failed (blocks 0) [] obj e ((cb obj (blocks 0)).1, (dev, rcache))
                  failed)
        ]
    loop_lem (suc fuel) (suc n) obj dev rcache same r le enough =
        elim (Option-cases (cb obj (blocks (suc n))).0) [
          | inr (e, failed) ↦
              rw (traverse_loop, visit, failed)
                (TraverseEnds-failed (blocks (suc n)) (down blocks n) obj e
                  ((cb obj (blocks (suc n))).1, (dev, rcache)) failed)
          | inl fine ↦
              let left : (suc n == 0) ≡ false = ground arith in
              let count = 2 - bit_and (suc n) 1 in
              let digit_ = and_low 1 (suc n) in
              let obj1 = (cb obj (blocks (suc n))).1 in
              let res =
                read_heads cfg drv host cb pcache (blocks (suc n)) count (obj1, (dev, rcache)) in
              let which : (count ≡ 1) ⊎ ((count ≡ 2) × (suc n % 2 ≡ 0)) = ground (arith, digit_) in
              rw (traverse_loop, visit, fine, bind, left)
                (TraverseEnds-cons (blocks (suc n)) (down blocks n) obj _ _ fine (
                  after_heads fuel n count (loop_lem fuel) le (omega arith) which obj1 res (
                    heads_lem obj1 dev rcache (blocks (suc n)) count same r
                      (list.of_device (suc n) le) wide (omega (arith, digit_)) (omega arith)
                      (first_word host count which) (second_word host count which))))
        ]

    -- A traversal of a file that is not empty, whose last byte lies in the block of index `last` and
    -- whose blocks up to there are linked in pairs, on a device with blocks of at least 8 bytes,
    -- ends: the callback has been called once at each block, from the last to the first, up to its
    -- first error, which is returned; or a read reported an error, which is returned. No assertion
    -- fails.
    pub ctz_traverse_lem :
        (size : ℕ) (obj : T) (dev : Dev) (rcache : Cache)
        → 0 < size
        → (ctz_index cfg (size - 1)).0 ≡ last
        → content dev ≡ F
        → IsRcache cfg drv conf device dev rcache
        → let (out, s) =
            ctz_traverse cfg drv host cb (obj, (dev, rcache)) pcache (blocks last) size in
          TraverseEnds (down blocks last) obj out s
    unfolding ctz_traverse
    ctz_traverse_lem size obj dev rcache some_bytes e same r =
        let filled : (size == 0) ≡ false = ground arith in
        rw (filled, e) (loop_lem (last + 1) last obj dev rcache same r (omega arith) (omega arith))
