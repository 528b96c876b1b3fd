-- ===== src/Mbed/Files.antt =====
-- The operations of LittleFileSystem2.cpp on open files and directories.
use mbed_littlefs.Base.{
  ℕ, ◌+◌, ◌==◌, if◌then◌else◌, List, [], ◌∷◌, Option, none, some, Bool, false, ℤ, pos, negsuc,
}
use mbed_littlefs.Mbed.Convert.{Platform, toerror, fromflags, fromwhence, totype}
use mbed_littlefs.Mbed.FileSystem.{Core, State, is_zero, locked, converted}

-- The list without the first `x`.
abbrev pub without : List ℕ → ℕ → List ℕ
without [] x = []
without (y ∷ ys) x = if y == x then ys else y ∷ without ys x

module _ (core : Core) (p : Platform) where
  open core use {Memory}

  -- `new` of a file or directory object, at the address `s.fresh`.
  abbrev pub allocate : State core p → State core p
  allocate s = record s { live = s.fresh ∷ s.live; fresh = s.fresh + 1 }

  -- `delete` of the object.
  abbrev pub free : ℕ → State core p → State core p
  free f s = record s { live = without s.live f }

  -- After the call that opens the object at `f`; `handle` is what `*file` holds. The second result
  -- is what it holds at the end.
  abbrev pub open_end : ℕ → Option ℕ → ℤ × State core p → (ℤ × Option ℕ) × State core p
  open_end f handle (err, s) =
      if is_zero err then ((toerror p err, some f), s) else ((toerror p err, handle), free f s)

  unfoldable pub file_open : Option ℕ → List ℕ → ℕ → State core p → (ℤ × Option ℕ) × State core p
  file_open handle path flags s =
      open_end s.fresh handle
        (locked core p (core.file_open s.fresh path (fromflags p flags)) (allocate s))

  unfoldable pub file_close : ℕ → State core p → ℤ × State core p
  file_close f s = let (err, s') = locked core p (core.file_close f) s in (toerror p err, free f s')

  -- The result and what the buffer holds.
  abbrev pub file_read : ℕ → ℕ → State core p → (ℤ × List ℕ) × State core p
  file_read f len s =
      let ((res, bytes), s') = locked core p (core.file_read f len) s in
      ((toerror p res, bytes), s')

  abbrev pub file_write : ℕ → List ℕ → State core p → ℤ × State core p
  file_write f bytes = converted core p (core.file_write f bytes)

  abbrev pub file_sync : ℕ → State core p → ℤ × State core p
  file_sync f = converted core p (core.file_sync f)

  abbrev pub file_seek : ℕ → ℤ → ℕ → State core p → ℤ × State core p
  file_seek f offset whence = converted core p (core.file_seek f offset (fromwhence p whence))

  abbrev pub file_tell : ℕ → State core p → ℤ × State core p
  file_tell f = converted core p (core.file_tell f)

  abbrev pub file_size : ℕ → State core p → ℤ × State core p
  file_size f = converted core p (core.file_size f)

  abbrev pub file_truncate : ℕ → ℤ → State core p → ℤ × State core p
  file_truncate f length = converted core p (core.file_truncate f length)

  unfoldable pub dir_open : Option ℕ → List ℕ → State core p → (ℤ × Option ℕ) × State core p
  dir_open handle path s =
      open_end s.fresh handle (locked core p (core.dir_open s.fresh path) (allocate s))

  unfoldable pub dir_close : ℕ → State core p → ℤ × State core p
  dir_close d s = let (err, s') = locked core p (core.dir_close d) s in (toerror p err, free d s')

  -- `res == 1`.
  abbrev pub is_one : ℤ → Bool
  is_one (pos n) = n == 1
  is_one (negsuc n) = false

  -- The result, and the type and the name of `*ent`, where they are set.
  abbrev pub dir_read : ℕ → State core p → (ℤ × Option (ℕ × List ℕ)) × State core p
  dir_read d s =
      let ((res, info), s') = locked core p (core.dir_read d) s in
      ((toerror p res, if is_one res then some (totype p info.kind, info.name) else none), s')

  -- The result of `lfs2_dir_seek` is dropped.
  abbrev pub dir_seek : ℕ → ℤ → State core p → State core p
  dir_seek d offset s = (locked core p (core.dir_seek d offset) s).1

  abbrev pub dir_tell : ℕ → State core p → ℤ × State core p
  dir_tell d = converted core p (core.dir_tell d)

  abbrev pub dir_rewind : ℕ → State core p → State core p
  dir_rewind d s = (locked core p (core.dir_rewind d) s).1
