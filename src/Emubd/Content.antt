-- ===== src/Emubd/Content.antt =====
-- What a read of littlefs/emubd/lfs2_emubd.c sees of a program and of an erase.
use mbed_littlefs.Base.{
  ℕ, zero, suc, ◌+◌, ◌-◌, ◌%◌, ◌≤◌, ◌<◌, ◌≡◌, inl, inr, refl, sym, arith, ap, ◌∙◌, Bool, true,
  false, ◌&&◌, ltb, leb, ◌==◌, ==_refl, if◌then◌else◌, Bool-cases, List, [], ◌∷◌, ◌++◌, Option,
  none, some, length, take, drop, get_or, replicate, length-take, length-drop, length-append,
  length-replicate, get_or-take, get_or-drop, get_or-append_right, get_or_ext, Outcome, ok, min,
}
use mbed_littlefs.Device.{Config, view}
use mbed_littlefs.Bd.{overwrite}
use mbed_littlefs.Bd.View.{
  length-view, get_or-view, get_or-overwrite_before, get_or-overwrite_at, length-overwrite,
}
use mbed_littlefs.Emubd.{
  HostFile, HostDir, EmuDev, Errno, Faults, put, write_at, count_read, count_prog, read_file,
  emubd_read, prog_file, emubd_prog, fresh_file, create_file, emubd_erase,
}

-- A byte of a file; a read past its end, or of a missing file, gives 0.
abbrev pub byte_at : Option HostFile → ℕ → ℕ
byte_at none o = 0
byte_at (some file) o = get_or file.bytes o 0

abbrev pub content : HostDir → ℕ → ℕ → ℕ
content dir block o = byte_at (dir.blocks block) o

abbrev zeros : ℕ → List ℕ
zeros n = replicate n 0

get_or-zeros : (n i : ℕ) → get_or (zeros n) i 0 ≡ 0
get_or-zeros zero i = refl
get_or-zeros (suc n) zero = refl
get_or-zeros (suc n) (suc i) = get_or-zeros n i

get_or_past : (xs : List ℕ) (i : ℕ) → length xs ≤ i → get_or xs i 0 ≡ 0
get_or_past [] i h = refl
get_or_past (x ∷ xs) zero h = absurd (omega arith)
get_or_past (x ∷ xs) (suc i) h = get_or_past xs i (omega arith)

get_or_padded : (xs : List ℕ) (n i : ℕ) → get_or (xs ++ zeros n) i 0 ≡ get_or xs i 0
get_or_padded [] n i = get_or-zeros n i
get_or_padded (x ∷ xs) n zero = refl
get_or_padded (x ∷ xs) n (suc i) = get_or_padded xs n i

get_or-overwrite_after :
    (buffer : List ℕ) (i : ℕ) (bytes : List ℕ) (j : ℕ)
    → i + length bytes ≤ j
    → i ≤ length buffer
    → get_or (overwrite buffer i bytes) j 0 ≡ get_or buffer j 0
get_or-overwrite_after buffer i bytes j h fits =
    get_or-append_right (take i buffer) (bytes ++ drop (i + length bytes) buffer) j 0
      (omega (arith, length-take i buffer))
    ∙ get_or-append_right bytes (drop (i + length bytes) buffer) (j - length (take i buffer)) 0
        (omega (arith, length-take i buffer))
    ∙ get_or-drop (i + length bytes) buffer (j - length (take i buffer) - length bytes) 0
    ∙ ap (λ k. get_or buffer k 0) (omega (arith, length-take i buffer))

-- `o` is one of the `n` offsets from `off` on.
abbrev pub within : ℕ → ℕ → ℕ → Bool
within off n o = leb off o && ltb o (off + n)

get_or-overwrite :
    (buffer : List ℕ) (i : ℕ) (bytes : List ℕ) (j : ℕ)
    → i ≤ length buffer
    → get_or (overwrite buffer i bytes) j 0
      ≡ (if within i (length bytes) j then get_or bytes (j - i) 0 else get_or buffer j 0)
get_or-overwrite buffer i bytes j fits = elim (Bool-cases (leb i j)) [
  | inl e ↦ elim (Bool-cases (ltb j (i + length bytes))) [
    | inl e' ↦
        rw (e, e')
          (ap (λ k. get_or (overwrite buffer i bytes) k 0) (ground (arith, e))
            ∙ get_or-overwrite_at buffer i bytes (j - i) (ground (arith, e, e')) fits)
    | inr e' ↦ rw (e, e') (get_or-overwrite_after buffer i bytes j (ground (arith, e')) fits)
  ]
  | inr e ↦ rw e (get_or-overwrite_before buffer i bytes j (ground (arith, e)) fits)
]

get_or-write_at :
    (bytes : List ℕ) (off : ℕ) (stored : List ℕ) (o : ℕ)
    → get_or (write_at bytes off stored) o 0
      ≡ (if within off (length stored) o then get_or stored (o - off) 0 else get_or bytes o 0)
get_or-write_at bytes off stored o =
    let gap = off + length stored - length bytes in
    get_or-overwrite (bytes ++ zeros gap) off stored o
      (omega (arith, length-append bytes (zeros gap), length-replicate {A = ℕ} gap 0))
    ∙ ap (λ b. if within off (length stored) o then get_or stored (o - off) 0 else b)
        (get_or_padded bytes gap o)

-- What `fread` finds of a file.
abbrev found : List ℕ → ℕ → ℕ → List ℕ
found bytes off size = take size (drop off bytes)

length-found :
    (bytes : List ℕ) (off size : ℕ) → length (found bytes off size) ≡ min size (length bytes - off)
length-found bytes off size =
    omega (arith, length-take size (drop off bytes), length-drop off bytes)

found_at :
    (bytes : List ℕ) (off size i : ℕ)
    → i < size
    → get_or (overwrite (zeros size) 0 (found bytes off size)) i 0 ≡ get_or bytes (off + i) 0
found_at bytes off size i below =
    let low : leb 0 i ≡ true = ground arith in
    let same : i - 0 ≡ i = omega arith in
    get_or-overwrite (zeros size) 0 (found bytes off size) i (omega arith)
    ∙ elim (Bool-cases (ltb i (0 + length (found bytes off size)))) [
      | inl e ↦
          rw (low, e, same)
            (get_or-take size (drop off bytes) i 0 below ∙ get_or-drop off bytes i 0)
      | inr e ↦
          rw (low, e)
            (get_or-zeros size i
              ∙ sym (get_or_past bytes (off + i) (ground (arith, e, length-found bytes off size))))
    ]

-- What `fread` leaves in the zeroed buffer.
read_bytes :
    (bytes : List ℕ) (off size : ℕ)
    → overwrite (zeros size) 0 (found bytes off size) ≡ view (λ o. get_or bytes o 0) off size
read_bytes bytes off size =
    let len : length (overwrite (zeros size) 0 (found bytes off size)) ≡ size =
      length-overwrite (zeros size) 0 (found bytes off size)
        (omega (arith, length-found bytes off size, length-replicate {A = ℕ} size 0))
      ∙ length-replicate {A = ℕ} size 0 in
    get_or_ext 0 (overwrite (zeros size) 0 (found bytes off size))
      (view (λ o. get_or bytes o 0) off size)
      (len ∙ sym (length-view (λ o. get_or bytes o 0) off size))
      (λ i below.
        found_at bytes off size i (omega (arith, len))
        ∙ sym (get_or-view (λ o. get_or bytes o 0) off size i 0 (omega (arith, len))))

zeros-view : (off size : ℕ) → zeros size ≡ view (λ _. 0) off size
zeros-view off zero = refl
zeros-view off (suc size) = ap (λ xs. 0 ∷ xs) (zeros-view (off + 1) size)

-- What was written is what is read.
view-write_at :
    (off : ℕ) (bytes : List ℕ)
    → view (λ o. get_or (write_at [] off bytes) o 0) off (length bytes) ≡ bytes
view-write_at off bytes =
    let f : ℕ → ℕ = λ o. get_or (write_at [] off bytes) o 0 in
    let len = length-view f off (length bytes) in
    get_or_ext 0 (view f off (length bytes)) bytes len (λ i below.
      let inside : within off (length bytes) (off + i) ≡ true = ground (arith, len) in
      let same : off + i - off ≡ i = omega arith in
      get_or-view f off (length bytes) i 0 (omega (arith, len))
      ∙ get_or-write_at [] off bytes (off + i)
      ∙ rw (inside, same) refl)

module _ (cfg : Config) (n : Errno) (faults : Faults)
    (none_fails : (k : ℕ) → faults.fails k ≡ none) where
  -- A range that the assertions allow, in units of `unit`.
  pub record IsRange (unit block off size : ℕ) : Type 0 where
    pub off_aligned : off % unit ≡ 0
    pub size_aligned : size % unit ≡ 0
    pub in_device : block < cfg.block_count

  range_test :
      (unit block off size : ℕ)
      → IsRange unit block off size
      → (off % unit == 0 && (size % unit == 0 && ltb block cfg.block_count)) ≡ true
  range_test unit block off size r =
      let below = r.in_device in rw (r.off_aligned, r.size_aligned) (ground (arith, below))

  read_lem :
      (file : Option HostFile) (block off size : ℕ) (s : EmuDev)
      → s.dir.blocks block ≡ file
      → IsRange cfg.read_size block off size
      → emubd_read cfg n faults block off size s
        ≡ (ok (view (byte_at file) off size), count_read cfg n faults s)
  unfolding emubd_read read_file
  read_lem none block off size s e r =
      rw (range_test cfg.read_size block off size r, none_fails 0, e, ==_refl n.enoent)
        (ap (λ bytes. (ok bytes, count_read cfg n faults s)) (zeros-view off size))
  read_lem (some file) block off size s e r =
      rw
        (
          range_test cfg.read_size block off size r,
          none_fails 0,
          e,
          none_fails 1,
          none_fails 2,
          none_fails 3,
        )
        (ap (λ bytes. (ok bytes, count_read cfg n faults s)) (read_bytes file.bytes off size))

  length-write_at :
      (bytes : List ℕ) (off : ℕ) (stored : List ℕ)
      → off + length stored ≤ length (write_at bytes off stored)
  length-write_at bytes off stored =
      let gap = off + length stored - length bytes in
      let padded = bytes ++ zeros gap in
      let fits : off + length stored ≤ length padded =
        omega (arith, length-append bytes (zeros gap), length-replicate {A = ℕ} gap 0) in
      omega (arith, length-overwrite padded off stored fits, fits)

  -- The state after a program of the file of the block.
  abbrev programmed : ℕ → HostFile → ℕ → List ℕ → EmuDev → EmuDev
  programmed block file off bytes s =
      count_prog cfg n faults block
        (put block (some (record file { bytes = write_at file.bytes off bytes })) s)

  prog_lem :
      (file : HostFile) (block off : ℕ) (bytes : List ℕ) (s : EmuDev)
      → s.dir.blocks block ≡ some file
      → file.writable ≡ true
      → 0 < length bytes
      → IsRange cfg.prog_size block off (length bytes)
      → emubd_prog cfg n faults block off bytes s ≡ (ok tt, programmed block file off bytes s)
  unfolding emubd_prog prog_file
  prog_lem file block off bytes s e writable some_bytes r =
      let present : ltb off (length (write_at file.bytes off bytes)) ≡ true =
        let long = length-write_at file.bytes off bytes in ground (arith, long) in
      rw
        (
          range_test cfg.prog_size block off (length bytes) r,
          none_fails 0,
          e,
          writable,
          none_fails 1,
          none_fails 2,
          none_fails 3,
          none_fails 4,
          present,
          none_fails 5,
        )
        refl

  -- The file of the block may be erased.
  abbrev pub IsErasable : Option HostFile → Type 0
  IsErasable none = Unit {0}
  IsErasable (some file) = (file.regular && file.writable) ≡ true

  -- After an erase the block has a fresh file, and the other blocks are as before.
  record Erased (block : ℕ) (s : EmuDev) (out : Outcome (Unit {0}) × EmuDev) : Type 0 where
    success : out.0 ≡ ok tt
    fresh : out.1.dir.blocks block ≡ some (fresh_file cfg n faults)
    other : (b : ℕ) → (b == block) ≡ false → out.1.dir.blocks b ≡ s.dir.blocks b

  erase_lem :
      (file : Option HostFile) (block : ℕ) (s : EmuDev)
      → s.dir.blocks block ≡ file
      → IsErasable file
      → block < cfg.block_count
      → Erased block s (emubd_erase cfg n faults block s)
  unfolding emubd_erase create_file
  erase_lem none block s e erasable h =
      let below : ltb block cfg.block_count ≡ true = ground arith in
      rw (below, none_fails 0, e, ==_refl n.enoent, none_fails 2, none_fails 3)
        (record {
          success = refl;
          fresh = rw (==_refl block) refl;
          other = λ b differs. rw differs refl;
        })
  erase_lem (some file) block s e erasable h =
      let below : ltb block cfg.block_count ≡ true = ground arith in
      rw (below, none_fails 0, e, erasable, none_fails 1, none_fails 2, none_fails 3)
        (record {
          success = refl;
          fresh = rw (==_refl block) refl;
          other = λ b differs. rw differs refl;
        })

  -- Where no call of the host fails: a block whose file is missing or may be written is erased, then
  -- programmed, with success, and a read of the programmed range then gives the bytes. The rest of
  -- the block reads as zeros, and every other block as before.
  pub emubd_read-emubd_prog :
      (block off : ℕ) (bytes : List ℕ) (s : EmuDev)
      → IsErasable (s.dir.blocks block)
      → 0 < length bytes
      → IsRange cfg.prog_size block off (length bytes)
      → IsRange cfg.read_size block off (length bytes)
      → let (out1, s1) = emubd_erase cfg n faults block s in
        let (out2, s2) = emubd_prog cfg n faults block off bytes s1 in
        let (out3, s3) = emubd_read cfg n faults block off (length bytes) s2 in
        (out1 ≡ ok tt)
        × (out2 ≡ ok tt)
        × (out3 ≡ ok bytes)
        × ((b o : ℕ)
            → content s3.dir b o ≡ (
                if b == block
                then if within off (length bytes) o then get_or bytes (o - off) 0 else 0
                else content s.dir b o))
  emubd_read-emubd_prog block off bytes s erasable some_bytes pr rr =
      let erased = erase_lem (s.dir.blocks block) block s refl erasable pr.in_device in
      let s1 = (emubd_erase cfg n faults block s).1 in
      let file = fresh_file cfg n faults in
      let stored = record file { bytes = write_at [] off bytes } in
      let put_there : (programmed block file off bytes s1).dir.blocks block ≡ some stored =
        rw (==_refl block) refl in
      rw
        (
          prog_lem file block off bytes s1 erased.fresh refl some_bytes pr,
          read_lem (some stored) block off (length bytes) (programmed block file off bytes s1)
              put_there rr,
        )
        (
          erased.success,
          refl,
          ap ok (view-write_at off bytes),
          λ b o. elim (Bool-cases (b == block)) [
            | inl e ↦ rw e (get_or-write_at [] off bytes o)
            | inr e ↦ rw e (ap (λ f. byte_at f o) (erased.other b e))
          ],
        )
