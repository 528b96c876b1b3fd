-- ===== src/Bd/View.antt =====
-- Bytes of a block as a list, and what a cache shows of it.
use mbed_littlefs.Base.{
  ℕ, zero, suc, ◌+◌, ◌-◌, ◌≤◌, ◌<◌, ◌≡◌, refl, arith, ap, ap₂, ◌∙◌, List, ◌∷◌, ◌++◌, length, get_or,
  take, drop, length-take, length-drop, get_or-take, get_or-drop, get_or_ext, get_or-append_left,
  get_or-append_right, sym, length-append, Option, none, some, ◌&&◌, ◌==◌, leb, ltb, if◌then◌else◌,
}
use mbed_littlefs.Device.{Cache, view}
use mbed_littlefs.Bd.{hit, overwrite}

pub length-view : (f : ℕ → ℕ) (off n : ℕ) → length (view f off n) ≡ n
length-view f off zero = refl
length-view f off (suc n) = ap suc (length-view f (off + 1) n)

pub view-append :
    (f : ℕ → ℕ) (off n m : ℕ) → view f off n ++ view f (off + n) m ≡ view f off (n + m)
view-append f off zero m = ground arith
view-append f off (suc n) m =
    ap (λ k. f off ∷ (view f (off + 1) n ++ view f k m)) (shift off n)
    ∙ ap (λ xs. f off ∷ xs) (view-append f (off + 1) n m)
    ∙ ap (view f off) (sum n m)
  where
    shift : (off n : ℕ) → off + suc n ≡ off + 1 + n
    shift off n = omega arith

    sum : (n m : ℕ) → suc (n + m) ≡ suc n + m
    sum n m = omega arith

pub get_or-view : (f : ℕ → ℕ) (off n i d : ℕ) → i < n → get_or (view f off n) i d ≡ f (off + i)
get_or-view f off zero i d h = absurd (omega arith)
get_or-view f off (suc n) zero d h = ap f (omega arith)
get_or-view f off (suc n) (suc i) d h =
    get_or-view f (off + 1) n i d (omega arith) ∙ ap f (omega arith)

pub view_ext :
    (f g : ℕ → ℕ) (off n : ℕ)
    → ((o : ℕ) → off ≤ o → o < off + n → f o ≡ g o)
    → view f off n ≡ view g off n
view_ext f g off zero h = refl
view_ext f g off (suc n) h =
    ap₂ ◌∷◌ (h off (omega arith) (omega arith))
      (view_ext f g (off + 1) n (λ o p q. h o (omega arith) (omega arith)))

-- The bytes of the cache are those of `f`, at the offsets that the cache covers.
pub record Holds (c : Cache) (f : ℕ → ℕ) : Type 0 where
  pub filled : c.size ≤ length c.buffer
  pub bytes : (o : ℕ) → c.off ≤ o → o < c.off + c.size → get_or c.buffer (o - c.off) 0 ≡ f o

pub hit-view :
    (c : Cache) (f : ℕ → ℕ) (off n : ℕ)
    → Holds c f
    → c.off ≤ off
    → off + n ≤ c.off + c.size
    → hit c off n ≡ view f off n
hit-view c f off n h low high =
    get_or_ext 0 (hit c off n) (view f off n) (len ∙ sym (length-view f off n))
      (λ i below. at i (omega (arith, len)))
  where
    len : length (hit c off n) ≡ n
    len = omega (
      arith,
      length-take n (drop (off - c.off) c.buffer),
      length-drop (off - c.off) c.buffer,
      h.filled,
    )

    at : (i : ℕ) → i < n → get_or (hit c off n) i 0 ≡ get_or (view f off n) i 0
    at i below =
        get_or-take n (drop (off - c.off) c.buffer) i 0 below
        ∙ get_or-drop (off - c.off) c.buffer i 0
        ∙ ap (λ k. get_or c.buffer k 0) (omega arith)
        ∙ h.bytes (off + i) (omega arith) (omega arith)
        ∙ sym (get_or-view f off n i 0 below)

-- A cache whose buffer begins with the bytes of `f` holds `f`.
pub Holds-overwrite :
    (c : Cache) (f : ℕ → ℕ) (bytes : List ℕ)
    → bytes ≡ view f c.off c.size
    → Holds (record c { buffer = overwrite c.buffer 0 bytes }) f
Holds-overwrite c f bytes e = record {
  filled = omega (arith, len, length-append bytes (drop (0 + length bytes) c.buffer));
  bytes = λ o low high.
      get_or-append_left bytes (drop (0 + length bytes) c.buffer) (o - c.off) 0 (omega (arith, len))
      ∙ ap (λ xs. get_or xs (o - c.off) 0) e
      ∙ get_or-view f c.off c.size (o - c.off) 0 (omega arith)
      ∙ ap f (omega arith);
}
  where
    len : length bytes ≡ c.size
    len = ap length e ∙ length-view f c.off c.size

-- What a reader sees of block `block`, whose bytes are `f`: the program cache covers them.
unfoldable pub visible : Option Cache → ℕ → (ℕ → ℕ) → ℕ → ℕ
visible none block f o = f o
visible (some c) block f o =
    if block == c.block && (leb c.off o && ltb o (c.off + c.size))
    then get_or c.buffer (o - c.off) 0
    else f o

-- `overwrite` leaves what lies before, and puts the bytes in place.
pub get_or-overwrite_before :
    (buffer : List ℕ) (i : ℕ) (bytes : List ℕ) (j : ℕ)
    → j < i
    → i ≤ length buffer
    → get_or (overwrite buffer i bytes) j 0 ≡ get_or buffer j 0
get_or-overwrite_before buffer i bytes j h fits =
    get_or-append_left (take i buffer) (bytes ++ drop (i + length bytes) buffer) j 0
      (omega (arith, length-take i buffer))
    ∙ get_or-take i buffer j 0 h

pub get_or-overwrite_at :
    (buffer : List ℕ) (i : ℕ) (bytes : List ℕ) (j : ℕ)
    → j < length bytes
    → i ≤ length buffer
    → get_or (overwrite buffer i bytes) (i + j) 0 ≡ get_or bytes j 0
get_or-overwrite_at buffer i bytes j h fits =
    get_or-append_right (take i buffer) (bytes ++ drop (i + length bytes) buffer) (i + j) 0
      (omega (arith, length-take i buffer))
    ∙ ap (λ k. get_or (bytes ++ drop (i + length bytes) buffer) k 0)
        (omega (arith, length-take i buffer))
    ∙ get_or-append_left bytes (drop (i + length bytes) buffer) j 0 h

pub length-overwrite :
    (buffer : List ℕ) (i : ℕ) (bytes : List ℕ)
    → i + length bytes ≤ length buffer
    → length (overwrite buffer i bytes) ≡ length buffer
length-overwrite buffer i bytes h = omega (
  arith,
  length-append (take i buffer) (bytes ++ drop (i + length bytes) buffer),
  length-append bytes (drop (i + length bytes) buffer),
  length-take i buffer,
  length-drop (i + length bytes) buffer,
)
