-- ===== src/Mount/Listed.antt =====
-- The pairs that `lfs2_mount` goes along, and what a mount relies on.
use mbed_littlefs.Base.{ℕ, ◌<◌, ◌≡◌, ◌⊎◌, true, false, ok}
use mbed_littlefs.Tag.{Pair, pair_isnull}
use mbed_littlefs.Gstate.{Gstate}
use mbed_littlefs.Device.{Cache}
use mbed_littlefs.Dir.{Mdir}
use mbed_littlefs.Disk.{Superblock}
use mbed_littlefs.Mount.Scan.{Metadata}

module _ {D : Type 0} (meta : Metadata D) (Fine : D × Cache → Type 0) where
  -- The pairs of the list that a mount goes along: the first, and the tails of those fetched.
  pub data Listed : Pair → Type 0 where
    first : Listed (0, 1)
    later :
        {seed : ℕ} {pair : Pair} {s : D × Cache} {found : ℕ × Mdir × ℕ}
        → Listed pair
        → Fine s
        → (meta.fetchmatch seed pair s).0 ≡ ok found
        → pair_isnull found.1.tail ≡ false
        → Listed found.1.tail

  -- The metadata have been fetched from a pair of the list.
  abbrev pub IsFetched : Mdir → Type 0
  IsFetched dir =
      (pair : Pair) × Listed pair
      × ((seed : ℕ) × (s : D × Cache) × (tag : ℕ) × (seed' : ℕ) × Fine s
          × ((meta.fetchmatch seed pair s).0 ≡ ok (tag, dir, seed')))

  -- What a mount relies on, of the states of the device and the read cache that are `Fine` and of the
  -- pairs of the list: calls that succeed keep the state fine, and the list ends, since the tail of each
  -- pair has a smaller rank.
  pub record IsMetadata (rank : Pair → ℕ) : Type 0 where
    pub shorter :
        (seed : ℕ) (pair : Pair) (s : D × Cache) (found : ℕ × Mdir × ℕ)
        → Listed pair
        → Fine s
        → (meta.fetchmatch seed pair s).0 ≡ ok found
        → (pair_isnull found.1.tail ≡ true) ⊎ (rank found.1.tail < rank pair)
    pub fetched :
        (seed : ℕ) (pair : Pair) (s : D × Cache) (found : ℕ × Mdir × ℕ)
        → Listed pair
        → Fine s
        → (meta.fetchmatch seed pair s).0 ≡ ok found
        → Fine (meta.fetchmatch seed pair s).1
    pub looked_up :
        (own : Gstate) (dir : Mdir) (s : D × Cache) (found : Superblock)
        → IsFetched dir
        → Fine s
        → (meta.superblock own dir s).0 ≡ ok found
        → Fine (meta.superblock own dir s).1
    pub summed :
        (own : Gstate) (dir : Mdir) (g : Gstate) (s : D × Cache) (g' : Gstate)
        → IsFetched dir
        → Fine s
        → (meta.getgstate own dir g s).0 ≡ ok g'
        → Fine (meta.getgstate own dir g s).1
