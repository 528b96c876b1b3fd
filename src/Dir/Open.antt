-- ===== src/Dir/Open.antt =====
-- `lfs2_dir_open` and `lfs2_dir_close` of littlefs/lfs2.c: what an open directory holds.
use mbed_littlefs.Base.{
  ℕ, not, ◌==◌, ==_refl, if◌then◌else◌, Bool-cases, inl, inr, List, ◌∷◌, ◌≡◌, refl, Outcome, ok,
  err, abort, out_of_fuel, notdir,
}
use mbed_littlefs.Util.{ByteOrder}
use mbed_littlefs.Tag.{Pair, tag_type3, type_dir}
use mbed_littlefs.Gstate.{Gstate}
use mbed_littlefs.Device.{Config, Driver}
use mbed_littlefs.Store.{bind}
use mbed_littlefs.Dir.{Mdir}
use mbed_littlefs.Dir.Walk.{OpenDir, Fetch, Lfs, on_mdir, open_pair, dir_open, dir_close}

module _ (cfg : Config) (drv : Driver) (host : ByteOrder) (gstate : Gstate)
    (dir_fetch : Fetch (Lfs cfg drv host)) where
  -- After a success the directory stands at its start, and closing it gives back the list.
  unfoldable pub Opens : List ℕ → ℕ → Outcome (List ℕ) × (OpenDir × Lfs cfg drv host) → Type 0
  Opens mlist address (ok list, (d, s)) =
      (dir_close list address ≡ mlist)
      × (d.head ≡ d.m.pair)
      × (d.id ≡ 0)
      × (d.pos ≡ 0)
      × (d.type ≡ type_dir)
  Opens mlist address (_, w) = Unit

  on_mdir-Opens :
      (mlist : List ℕ) (address : ℕ) (r : Outcome (Unit {0}) × (OpenDir × Lfs cfg drv host))
      → Opens mlist address (
          bind r (λ _ w3.
            let d = w3.0 in
            (
              ok (address ∷ mlist),
              (record d { head = d.m.pair; id = 0; pos = 0; type = type_dir }, w3.1),
            )))
  unfolding Opens dir_close
  on_mdir-Opens mlist address (ok _, w) = rw (==_refl address) (refl, refl, refl, refl, refl)
  on_mdir-Opens mlist address (err e, w) = tt
  on_mdir-Opens mlist address (abort, w) = tt
  on_mdir-Opens mlist address (out_of_fuel, w) = tt

  open_pair-Opens :
      (mlist : List ℕ) (address : ℕ) (r : Outcome Pair × (OpenDir × Lfs cfg drv host))
      → Opens mlist address (
          bind r (λ pair w2. bind (on_mdir (dir_fetch pair) w2) (λ _ w3.
            let d = w3.0 in
            (
              ok (address ∷ mlist),
              (record d { head = d.m.pair; id = 0; pos = 0; type = type_dir }, w3.1),
            ))))
  unfolding Opens
  open_pair-Opens mlist address (ok pair, w) =
      on_mdir-Opens mlist address (on_mdir (dir_fetch pair) w)
  open_pair-Opens mlist address (err e, w) = tt
  open_pair-Opens mlist address (abort, w) = tt
  open_pair-Opens mlist address (out_of_fuel, w) = tt

  -- A tag that is not that of a directory is not opened.
  dir_open-Opens :
      (root : Pair) (mlist : List ℕ) (address : ℕ) (r : Outcome ℕ × (OpenDir × Lfs cfg drv host))
      → Opens mlist address (
          bind r (λ tag w1.
            if not (tag_type3 tag == type_dir)
            then (err notdir, w1)
            else bind (open_pair cfg drv host gstate root tag w1) (λ pair w2.
              bind (on_mdir (dir_fetch pair) w2) (λ _ w3.
                let d = w3.0 in
                (
                  ok (address ∷ mlist),
                  (record d { head = d.m.pair; id = 0; pos = 0; type = type_dir }, w3.1),
                )))))
  unfolding Opens
  dir_open-Opens root mlist address (ok tag, w) = elim (Bool-cases (tag_type3 tag == type_dir)) [
    | inl h ↦ rw h (open_pair-Opens mlist address (open_pair cfg drv host gstate root tag w))
    | inr h ↦ rw h tt
  ]
  dir_open-Opens root mlist address (err e, w) = tt
  dir_open-Opens root mlist address (abort, w) = tt
  dir_open-Opens root mlist address (out_of_fuel, w) = tt

  -- `lfs2_dir_open` either fails, or leaves the directory at its start with its first pair as the
  -- head, in front of a list that `lfs2_dir_close` gives back as it was.
  dir_open-dir_close :
      (dir_find : Mdir × Lfs cfg drv host → Outcome ℕ × (Mdir × Lfs cfg drv host))
      → (root : Pair) (mlist : List ℕ) (address : ℕ) (w : OpenDir × Lfs cfg drv host)
      → Opens mlist address (dir_open cfg drv host gstate dir_fetch dir_find root mlist address w)
  unfolding dir_open
  dir_open-dir_close dir_find root mlist address w =
      dir_open-Opens root mlist address (on_mdir dir_find w)
