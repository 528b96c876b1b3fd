-- ===== src/Dir/Traverse/Keeps.antt =====
-- What `lfs2_dir_traverse` of littlefs/lfs2.c keeps of its callback's data.
use mbed_littlefs.Base.{
  ℕ, zero, suc, ◌+◌, Bool, Bool-cases, true, false, ◌&&◌, leb, ltb, ◌==◌, inl, inr, List, [], ◌∷◌,
  length, Option, none, some, Outcome, ok, err, abort, out_of_fuel, u32, bit_and,
}
use mbed_littlefs.Util.{ByteOrder}
use mbed_littlefs.Tag.{
  mktag, tag_type3, tag_id, type_userattr, from_noop, from_move, from_userattrs,
}
use mbed_littlefs.Gstate.{Gstate}
use mbed_littlefs.Device.{Config, Driver, Cache}
use mbed_littlefs.Dir.Commit.{Buffer, memory, UserAttr}
use mbed_littlefs.Dir.Traverse.{
  Source, Range, all_tags, move_source, move_range, user_attrs, Callback, next_tag, or_stop,
  call_users, filter_tag, call_tag, filtered, traverse_next, dir_traverse,
}

module _ (cfg : Config) (drv : Driver) (host : ByteOrder) (gpending : Gstate) {D : Type 0}
    (P : D → Type 0) where
  open drv use {Dev}

  -- The data of a result has the property.
  abbrev Has : Outcome Bool × (D × (Dev × Cache)) → Type 0
  Has r = P r.1.0

  -- The data has the property after a call if it has it before.
  abbrev pub Keeps : (D × (Dev × Cache) → Outcome Bool × (D × (Dev × Cache))) → Type 0
  Keeps f = (d : D) (s : Dev × Cache) → P d → Has (f (d, s))

  or_stop-Has :
      (r : Outcome Bool × (D × (Dev × Cache)))
      (next : D × (Dev × Cache) → Outcome Bool × (D × (Dev × Cache)))
      → Has r
      → Keeps next
      → Has (or_stop cfg drv host gpending r next)
  unfolding or_stop
  or_stop-Has (ok true, w) next here there = here
  or_stop-Has (ok false, w) next here there = there w.0 w.1 here
  or_stop-Has (err e, w) next here there = here
  or_stop-Has (abort, w) next here there = here
  or_stop-Has (out_of_fuel, w) next here there = here

  filtered-Has :
      (next : D × (Dev × Cache) → Outcome Bool × (D × (Dev × Cache)))
      (call : ℕ → D × (Dev × Cache) → Outcome Bool × (D × (Dev × Cache))) (range : Range) (d : D)
      (r : Outcome Bool × (ℕ × (Dev × Cache)))
      → Keeps next
      → ((tag : ℕ) → Keeps (call tag))
      → P d
      → Has (filtered cfg drv host gpending next call range d r)
  unfolding filtered
  filtered-Has next call range d (ok true, w) hn hc h = hn d w.1 h
  filtered-Has next call range d (ok false, (tag, s)) hn hc h =
      elim (Bool-cases (leb range.begin (tag_id tag) && ltb (tag_id tag) range.end)) [
        | inl e ↦ rw e (hc tag d s h)
        | inr e ↦ rw e (hn d s h)
      ]
  filtered-Has next call range d (err e, w) hn hc h = h
  filtered-Has next call range d (abort, w) hn hc h = h
  filtered-Has next call range d (out_of_fuel, w) hn hc h = h

  next-Has :
      (next : Source → D × (Dev × Cache) → Outcome Bool × (D × (Dev × Cache)))
      (call : Source → Buffer → ℕ → D × (Dev × Cache) → Outcome Bool × (D × (Dev × Cache)))
      (filter : Source → ℕ × (Dev × Cache) → Outcome Bool × (ℕ × (Dev × Cache))) (range : Range)
      (out : Outcome (Option (ℕ × Buffer × Source))) (d : D) (s : Dev × Cache)
      → ((src : Source) → Keeps (next src))
      → ((src : Source) (buffer : Buffer) (tag : ℕ) → Keeps (call src buffer tag))
      → P d
      → Has (traverse_next cfg drv host gpending next call filter range out (d, s))
  unfolding traverse_next
  next-Has next call filter range (ok none) d s hn hc h = h
  next-Has next call filter range (ok (some (tag, buffer, src))) d s hn hc h =
      let mask = bit_and (mktag 0x7ff 0 0) range.tmask in
      elim (Bool-cases (bit_and mask tag == bit_and mask range.ttag)) [
        | inl e ↦ rw e (elim (Bool-cases (tag_id range.tmask == 0)) [
          | inl f ↦ rw f (hc src buffer tag d s h)
          | inr f ↦ rw f (
              filtered-Has (next src) (call src buffer) range d (filter src (tag, s)) (hn src)
                (hc src buffer) h)
        ])
        | inr e ↦ rw e (hn src d s h)
      ]
  next-Has next call filter range (err e) d s hn hc h = h
  next-Has next call filter range abort d s hn hc h = h
  next-Has next call filter range out_of_fuel d s hn hc h = h

  module _ (cb : Callback cfg drv host gpending D)
      (fine : (tag : ℕ) (buffer : Buffer) → Keeps (cb tag buffer)) where
    users-Has :
        (id : ℕ) (attrs : List UserAttr) (d : D) (s : Dev × Cache)
        → P d
        → Has (call_users cfg drv host gpending cb id attrs (d, s))
    unfolding call_users
    users-Has id [] d s h = h
    users-Has id (a ∷ rest) d s h =
        or_stop-Has
          (cb (mktag (type_userattr + a.type) id (length a.buffer)) (memory a.buffer) (d, s))
          (call_users cfg drv host gpending cb id rest)
          (fine (mktag (type_userattr + a.type) id (length a.buffer)) (memory a.buffer) d s h)
          (users-Has id rest)

    tag-Has :
        (move : Source → Range → D × (Dev × Cache) → Outcome Bool × (D × (Dev × Cache)))
        (src : Source) (range : Range) (tag : ℕ) (buffer : Buffer)
        → ((src' : Source) (range' : Range) → Keeps (move src' range'))
        → Keeps (call_tag cfg drv host gpending move cb src range tag buffer)
    unfolding call_tag
    tag-Has move src range tag buffer hm d s h = elim (Bool-cases (tag_type3 tag == from_noop)) [
      | inl e ↦ rw e h
      | inr e ↦ rw e (elim (Bool-cases (tag_type3 tag == from_move)) [
        | inl f ↦ rw f (hm (move_source buffer src) (move_range range tag) d s h)
        | inr f ↦ rw f (elim (Bool-cases (tag_type3 tag == from_userattrs)) [
          | inl g ↦ rw g (users-Has (u32 (tag_id tag + range.diff)) (user_attrs buffer) d s h)
          | inr g ↦ rw g (fine (u32 (tag + mktag 0 range.diff 0)) buffer d s h)
        ])
      ])
    ]

    -- What every call of the callback keeps, whatever it answers, a traversal keeps.
    pub dir_traverse-Keeps :
        (fuel : ℕ) (src : Source) (range : Range)
        → Keeps (dir_traverse cfg drv host gpending D fuel cb src range)
    unfolding dir_traverse
    dir_traverse-Keeps zero src range d s h = h
    dir_traverse-Keeps (suc fuel) src range d s h =
        let (out, s') = next_tag cfg drv host gpending src s in
        next-Has (λ src' w. dir_traverse cfg drv host gpending D fuel cb src' range w)
          (λ src' buffer tag w.
            or_stop cfg drv host gpending
              (call_tag cfg drv host gpending (dir_traverse cfg drv host gpending D fuel cb) cb src'
                range tag buffer w)
              (λ w'. dir_traverse cfg drv host gpending D fuel cb src' range w'))
          (λ src' w.
            dir_traverse cfg drv host gpending ℕ fuel (filter_tag cfg drv host gpending) src'
              all_tags w)
          range out d s' (λ src'. dir_traverse-Keeps fuel src' range)
          (λ src' buffer tag d' s2 h'.
            or_stop-Has
              (call_tag cfg drv host gpending (dir_traverse cfg drv host gpending D fuel cb) cb src'
                range tag buffer (d', s2))
              (dir_traverse cfg drv host gpending D fuel cb src' range)
              (tag-Has (dir_traverse cfg drv host gpending D fuel cb) src' range tag buffer
                (dir_traverse-Keeps fuel) d' s2 h')
              (dir_traverse-Keeps fuel src' range))
          h
