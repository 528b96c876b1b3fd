-- ===== src/Dir/Walk.antt =====
-- Open directories of littlefs/lfs2.c: `lfs2_dir_t`, `lfs2_dir_open`, `lfs2_dir_close`,
-- `lfs2_dir_read`, `lfs2_dir_seek`, `lfs2_dir_tell` and `lfs2_dir_rewind`. `lfs2_dir_find` and
-- `lfs2_dir_fetch` are arguments.
use mbed_littlefs.Base.{
  ℕ, zero, suc, ◌+◌, ◌-◌, min, true, false, not, ◌==◌, if◌then◌else◌, List, [], ◌∷◌, Option, none,
  some, noent, notdir, inval, Outcome, ok, err, abort, out_of_fuel, u16, u32,
}
use mbed_littlefs.Util.{ByteOrder}
use mbed_littlefs.Tag.{Pair, mktag, tag_id, tag_type3, type_dir, type_struct, pair_fromle32}
use mbed_littlefs.Gstate.{Gstate}
use mbed_littlefs.Device.{Config, Driver, Cache}
use mbed_littlefs.Store.{bind, word_at}
use mbed_littlefs.Dir.{Mdir, Info, dir_get, dir_getinfo}

-- `lfs2_dir_t`, without the link to the next of the list.
pub record OpenDir : Type 0 where
  pub id : ℕ
  pub type : ℕ
  pub m : Mdir
  pub pos : ℕ
  pub head : Pair

-- The list without the first link to `address`.
unfoldable pub dir_close : List ℕ → ℕ → List ℕ
dir_close [] address = []
dir_close (p ∷ ps) address = if p == address then ps else p ∷ dir_close ps address

abbrev pub dir_tell : OpenDir → ℕ
dir_tell d = d.pos

-- `lfs2_dir_fetch`: it fills in a metadata pair and changes the rest of the state.
abbrev pub Fetch : Type 0 → Type 0
Fetch S = Pair → Mdir × S → Outcome (Unit {0}) × (Mdir × S)

-- A call on the field `m`.
unfoldable pub on_mdir :
    {S A : Type 0} → (Mdir × S → Outcome A × (Mdir × S)) → OpenDir × S → Outcome A × (OpenDir × S)
on_mdir f (d, s) = let (out, w) = f (d.m, s) in (out, (record d { m = w.0 }, w.1))

module _ {S : Type 0} (dir_fetch : Fetch S) where
  unfoldable pub dir_rewind : OpenDir × S → Outcome (Unit {0}) × (OpenDir × S)
  dir_rewind w = bind (on_mdir (dir_fetch w.0.head) w) (λ _ w'.
      let d = w'.0 in
      (ok tt, (record d { m = record (d.m) { pair = d.head }; id = 0; pos = 0 }, w'.1)))

  -- The end of a round of the loop of `lfs2_dir_seek`; `again` is the next one.
  unfoldable pub seek_next :
      (OpenDir × S → Outcome (Unit {0}) × (OpenDir × S))
      → OpenDir × S
      → Outcome (Unit {0}) × (OpenDir × S)
  seek_next again w = elim (w.0.id == w.0.m.count) [
    | false ↦ again w
    | true ↦ elim w.0.m.split [
      | false ↦ (err inval, w)
      | true ↦ bind (on_mdir (dir_fetch w.0.m.tail) w) (λ _ w'. again w')
    ]
  ]

  -- The loop of `lfs2_dir_seek`, with fuel.
  unfoldable pub seek_loop : ℕ → ℕ → OpenDir × S → Outcome (Unit {0}) × (OpenDir × S)
  seek_loop zero off w = (out_of_fuel, w)
  seek_loop (suc fuel) off w = elim (off == 0) [
    | true ↦ (ok tt, w)
    | false ↦
        let id = min (w.0.m.count) off in
        seek_next (seek_loop fuel (off - id))
          (record (w.0) { id = id; pos = u32 (w.0.pos + id) }, w.1)
  ]

  unfoldable pub dir_seek : ℕ → ℕ → OpenDir × S → Outcome (Unit {0}) × (OpenDir × S)
  dir_seek fuel off w = bind (dir_rewind w) (λ _ w'.
      let start = min 2 off in seek_loop fuel (off - start) (record (w'.0) { pos = start }, w'.1))

module _ (cfg : Config) (drv : Driver) (host : ByteOrder) where
  open drv use {Dev}

  -- The device, `lfs2->rcache`, and `lfs2->seed`, which a fetch changes.
  abbrev pub Lfs : Type 0
  Lfs = (Dev × Cache) × ℕ

  -- A call that leaves the seed.
  unfoldable pub on_rcache :
      {A : Type 0}
      → (Mdir → Dev × Cache → Outcome A × (Dev × Cache))
      → OpenDir × Lfs
      → Outcome A × (OpenDir × Lfs)
  on_rcache f (d, (s, seed)) = let (out, s') = f d.m s in (out, (d, (s', seed)))

  -- The pair of the directory with the tag.
  unfoldable pub open_pair : Gstate → Pair → ℕ → OpenDir × Lfs → Outcome Pair × (OpenDir × Lfs)
  open_pair gstate root tag w =
      if tag_id tag == 0x3ff
      then (ok root, w)
      else bind
          (on_rcache
            (λ m.
              dir_get cfg drv host gstate m (mktag 0x700 0x3ff 0)
                (mktag type_struct (tag_id tag) 8))
            w)
          (λ res w'. (ok (pair_fromle32 host (word_at host res.1 0, word_at host res.1 4)), w'))

  module _ (gstate : Gstate) (dir_fetch : Fetch Lfs) where
    -- The list of the open ones, where that of `address` comes first.
    unfoldable pub dir_open :
        (Mdir × Lfs → Outcome ℕ × (Mdir × Lfs))
        → Pair
        → List ℕ
        → ℕ
        → OpenDir × Lfs
        → Outcome (List ℕ) × (OpenDir × Lfs)
    dir_open dir_find root mlist address w = bind (on_mdir dir_find w) (λ tag w1.
        if not (tag_type3 tag == type_dir)
        then (err notdir, w1)
        else bind (open_pair gstate root tag w1) (λ pair w2.
          bind (on_mdir (dir_fetch pair) w2) (λ _ w3.
            let d = w3.0 in
            (
              ok (address ∷ mlist),
              (record d { head = d.m.pair; id = 0; pos = 0; type = type_dir }, w3.1),
            ))))

    -- What follows `lfs2_dir_getinfo`; `again` is the loop. The size is 0 where it is not set.
    unfoldable pub read_next :
        (OpenDir × Lfs → Outcome (Option Info) × (OpenDir × Lfs))
        → Outcome Info × (OpenDir × Lfs)
        → Outcome (Option Info) × (OpenDir × Lfs)
    read_next again (ok info, (d, s)) = (
      ok (some (record info { size = elim info.size [ none ↦ some 0 | some n ↦ some n ] })),
      (record d { id = u16 (d.id + 1); pos = u32 (d.pos + 1) }, s),
    )
    read_next again (err noent, (d, s)) = again (record d { id = u16 (d.id + 1) }, s)
    read_next again (err e, w) = (err e, w)
    read_next again (abort, w) = (abort, w)
    read_next again (out_of_fuel, w) = (out_of_fuel, w)

    -- The loop of `lfs2_dir_read`, with fuel.
    unfoldable pub walk_loop : ℕ → ℕ → OpenDir × Lfs → Outcome (Option Info) × (OpenDir × Lfs)
    walk_loop name_max zero w = (out_of_fuel, w)
    walk_loop name_max (suc fuel) w =
        let entry : OpenDir × Lfs → Outcome (Option Info) × (OpenDir × Lfs) = λ w'.
          read_next (walk_loop name_max fuel)
            (on_rcache (λ m. dir_getinfo cfg drv host gstate name_max m w'.0.id) w') in
        elim (w.0.id == w.0.m.count) [
          | false ↦ entry w
          | true ↦ elim w.0.m.split [
            | false ↦ (ok none, w)
            | true ↦
                bind (on_mdir (dir_fetch w.0.m.tail) w)
                  (λ _ w'. entry (record (w'.0) { id = 0 }, w'.1))
          ]
        ]

    -- The entry `.` or `..`.
    abbrev pub dots : List ℕ → Info
    dots name = record { type = type_dir; size = some 0; name = name }

    -- The entry, or `none` at the end.
    unfoldable pub dir_read : ℕ → ℕ → OpenDir × Lfs → Outcome (Option Info) × (OpenDir × Lfs)
    dir_read name_max fuel w =
        let w' : OpenDir × Lfs = (record (w.0) { pos = u32 (w.0.pos + 1) }, w.1) in
        if w.0.pos == 0
        then (ok (some (dots (0x2e ∷ 0 ∷ []))), w')
        else if w.0.pos == 1
        then (ok (some (dots (0x2e ∷ 0x2e ∷ 0 ∷ []))), w')
        else walk_loop name_max fuel w
