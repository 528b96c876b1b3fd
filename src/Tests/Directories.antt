-- ===== src/Tests/Directories.antt =====
-- The theorems on the position in a directory and on the list of all pairs, for one of two pairs.
use mbed_littlefs.Base.{ℕ, ◌+◌, ◌≡◌, refl, arith, true, false, ◌==◌, if◌then◌else◌, [], ◌∷◌, ok}
use mbed_littlefs.Base.{ap}
use mbed_littlefs.Util.{little_endian}
use mbed_littlefs.Gstate.{gstate_zero}
use mbed_littlefs.Device.{Cache}
use mbed_littlefs.Tests.Ram.{ram, small_config, empty_cache, numbered}
use mbed_littlefs.Fs.{
  fs_pred, fs_size, fs_traverse, traverse_pairs, traverse_files, traverse_ids, call,
}
use mbed_littlefs.Fs.Count.{beside, fs_size-fs_traverse}
use mbed_littlefs.Fs.Pred.{Searched, IsThread, fs_pred-Searched}
use mbed_littlefs.Tag.{pair_isnull}
use mbed_littlefs.Dir.{Mdir}
use mbed_littlefs.Tag.{type_dir}
use mbed_littlefs.Dir.Walk.{OpenDir, Fetch, dir_seek}
use mbed_littlefs.Dir.Seek.{Sought, IsChain, entry_at, dir_seek-entry_at}

-- The pairs (0, 1) with two entries and (2, 3) with three.
abbrev first_pair : Mdir
first_pair = record {
  pair = (0, 1);
  rev = 1;
  off = 64;
  etag = 0;
  count = 2;
  erased = true;
  split = true;
  tail = (2, 3);
}

abbrev second_pair : Mdir
second_pair = record {
  pair = (2, 3);
  rev = 1;
  off = 96;
  etag = 0;
  count = 3;
  erased = true;
  split = false;
  tail = (0, 0);
}

-- The state counts the fetches.
abbrev two_pairs : Fetch ℕ
two_pairs pair w = (ok tt, (if pair.0 == 0 then first_pair else second_pair, w.1 + 1))

-- An open directory that has been read to the end.
abbrev at_end : OpenDir
at_end = record { id = 3; type = type_dir; m = second_pair; pos = 7; head = (0, 1) }

first_pair-IsChain : IsChain two_pairs (λ _. Unit) first_pair (second_pair ∷ [])
unfolding IsChain
first_pair-IsChain = (refl, λ w _. (refl, refl, tt), omega arith, refl)

dir_seek-entry_at_example :
    let (out, w) = dir_seek two_pairs 3 5 (at_end, 0) in
    (out ≡ ok tt) × (w.0.m ≡ second_pair) × (w.0.id ≡ 1) × (w.0.pos ≡ 5)
unfolding Sought entry_at
dir_seek-entry_at_example =
    dir_seek-entry_at two_pairs (λ _. Unit) first_pair (second_pair ∷ []) 3 2 (at_end, 0) tt
      (λ w _. (refl, refl, tt)) first_pair-IsChain (omega arith) (omega arith)

-- The list of all pairs ends after (2, 3).
abbrev last_pair : Mdir
last_pair = record second_pair { tail = (0xffffffff, 0xffffffff) }

abbrev listed_pairs : Fetch ℕ
listed_pairs pair w = (ok tt, (if pair.0 == 0 then first_pair else last_pair, w.1 + 1))

start-IsThread :
    IsThread listed_pairs
      (λ _. Unit)
      (record first_pair { tail = (0, 1) })
      (first_pair ∷ last_pair ∷ [])
unfolding IsThread pair_isnull
start-IsThread = (refl, λ w _. (refl, refl, tt), (refl, λ w _. (refl, refl, tt), refl))

-- The pair before (3, 2).
fs_pred-Searched_example :
    Searched listed_pairs
      (λ _. Unit)
      (3, 2)
      (record first_pair { tail = (0, 1) } ∷ first_pair ∷ last_pair ∷ [])
      (fs_pred listed_pairs 3 (3, 2) (first_pair, 0))
fs_pred-Searched_example =
    fs_pred-Searched listed_pairs (λ _. Unit) (first_pair ∷ last_pair ∷ []) 3 (3, 2) first_pair 0 tt
      start-IsThread (omega arith)

-- A file system of empty directories: the blocks 0 to 3.
abbrev empty_pairs : Fetch (ℕ × ((ℕ → ℕ → ℕ) × Cache))
empty_pairs pair w =
    (ok tt, (record (if pair.0 == 0 then first_pair else last_pair) { count = 0 }, w.1))

fs_size-fs_traverse_example :
    (fs_size small_config ram little_endian gstate_zero
      (beside empty_pairs)
      3
      []
      last_pair
      ((9, 0), (numbered, empty_cache))).0
    ≡ ok 4
unfolding fs_traverse traverse_pairs traverse_files traverse_ids call pair_isnull
fs_size-fs_traverse_example =
    ap (λ r. r.0)
      (fs_size-fs_traverse small_config ram little_endian gstate_zero empty_pairs 3 [] last_pair 9 0
        (numbered, empty_cache))
