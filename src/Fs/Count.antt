-- ===== src/Fs/Count.antt =====
-- `lfs2_fs_size` of littlefs/lfs2.c: it counts the blocks that `lfs2_fs_traverse` passes to its
-- callback.
use mbed_littlefs.Base.{
  ℕ, ◌≡◌, refl, ap, ◌∙◌, arith, List, [], ◌∷◌, length, Option, none, Error, Outcome, ok, err, abort,
  out_of_fuel, u32,
}
use mbed_littlefs.Util.{ByteOrder}
use mbed_littlefs.Store.{bind}
use mbed_littlefs.Gstate.{Gstate}
use mbed_littlefs.Device.{Config, Driver, Cache}
use mbed_littlefs.Dir.{Mdir}
use mbed_littlefs.Dir.Walk.{Fetch}
use mbed_littlefs.Fs.{Handle, fs_traverse, fs_size_count, fs_size}
use mbed_littlefs.Fs.Over.{over, fs_traverse-over}

-- A callback that keeps the blocks, the last one first.
abbrev pub keep : {R : Type 0} → List ℕ × R → ℕ → Option Error × (List ℕ × R)
keep (blocks, r) block = (none, (block ∷ blocks, r))

-- A fetch that leaves what the callback changes.
abbrev pub beside : {C R S : Type 0} → Fetch (R × S) → Fetch ((C × R) × S)
beside fetch pair (m, ((c, r), s)) =
    let (out, w) = fetch pair (m, (r, s)) in (out, (w.0, ((c, w.1.0), w.1.1)))

-- The number of the blocks that were kept, as a word.
abbrev pub counted : {R : Type 0} → List ℕ × R → ℕ × R
counted (blocks, r) = (u32 (length blocks), r)

-- The result with that number, or the error.
abbrev pub sized :
    {R S : Type 0} → Outcome (Unit {0}) × ((List ℕ × R) × S) → Outcome ℕ × ((ℕ × R) × S)
sized (ok _, w) = (ok (counted w.0).0, (counted w.0, w.1))
sized (err e, w) = (err e, (counted w.0, w.1))
sized (abort, w) = (abort, (counted w.0, w.1))
sized (out_of_fuel, w) = (out_of_fuel, (counted w.0, w.1))

sized_lem :
    {R S : Type 0} (run : Outcome (Unit {0}) × ((List ℕ × R) × S))
    → bind (over (λ w. (counted w.0, w.1)) run) (λ _ w. (ok w.0.0, w)) ≡ sized run
sized_lem (ok _, w) = refl
sized_lem (err e, w) = refl
sized_lem (abort, w) = refl
sized_lem (out_of_fuel, w) = refl

counted-keep :
    {R : Type 0} (t : List ℕ × R) (block : ℕ)
    → fs_size_count (counted t) block ≡ ((keep t block).0, counted (keep t block).1)
unfolding fs_size_count
counted-keep (blocks, r) block = ap (λ n. (none, (n, r))) (omega arith)

-- Where a fetch does not touch the count, `lfs2_fs_size` comes to the same end as `lfs2_fs_traverse`
-- with a callback that keeps the blocks it is called with, open files included: it returns the same
-- error, or the number of these blocks as a word, whatever the count held before.
pub fs_size-fs_traverse :
    (cfg : Config) (drv : Driver) (host : ByteOrder) {R : Type 0} (gstate : Gstate)
    (dir_fetch : Fetch (R × (drv.Dev × Cache))) (fuel : ℕ) (hs : List Handle) (dir : Mdir)
    (size : ℕ) (r : R) (s : drv.Dev × Cache)
    → fs_size cfg drv host gstate (beside dir_fetch) fuel hs dir ((size, r), s)
      ≡ sized (fs_traverse cfg drv host gstate keep (beside dir_fetch) fuel hs dir (([], r), s))
unfolding fs_size
fs_size-fs_traverse cfg drv host gstate dir_fetch fuel hs dir size r s =
    let run = fs_traverse cfg drv host gstate keep (beside dir_fetch) fuel hs dir (([], r), s) in
    ap (λ x. bind x (λ _ w. (ok w.0.0, w)))
      (fs_traverse-over cfg drv host counted keep fs_size_count counted-keep gstate
        (beside dir_fetch) (beside dir_fetch) (λ pair m w. refl) fuel hs dir (([], r), s))
    ∙ sized_lem run
