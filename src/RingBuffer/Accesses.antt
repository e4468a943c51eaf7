-- ===== src/RingBuffer/Accesses.antt =====
-- ring_buffer.c: what one access of an end means for the other end, and for the bytes held.
use atcortex.Base.{
  ℕ, zero, suc, ◌+◌, ◌-◌, ◌%◌, ◌<◌, ◌≡◌, ◌≢◌, refl, ap, ◌∙◌, sym, subst, some, List, [], ◌∷◌, ◌++◌,
  arith, length-set, get_or, set, mod_once,
}
use atcortex.RingBuffer.{RingBuffer}
use atcortex.RingBuffer.Bounds.{IsValid, storage, held}
use atcortex.RingBuffer.Contents.{contents, span, span-congr, byte_at, get_or-set, not_behind}
use atcortex.RingBuffer.Turns.{contents-write, contents-read}
use atcortex.RingBuffer.Interleaved.{
  Writer, writer_outside, has_room, has_stored, Reader, reader_outside, has_byte, has_read,
}

-- What the writer relies on where it stands
abbrev pub WriterHolds : Writer → RingBuffer → Type 0
WriterHolds writer_outside h = Unit {0}
WriterHolds (has_room b next) h = (next ≡ (h.write_index + 1) % h.capacity) × (next ≢ h.read_index)
WriterHolds (has_stored b next) h =
    (next ≡ (h.write_index + 1) % h.capacity)
    × (next ≢ h.read_index)
    × (get_or (storage h) h.write_index 0 ≡ b)

abbrev pub ReaderHolds : Reader → RingBuffer → Type 0
ReaderHolds reader_outside h = Unit {0}
ReaderHolds has_byte h = h.read_index ≢ h.write_index
ReaderHolds (has_read b) h =
    (h.read_index ≢ h.write_index) × (get_or (storage h) h.read_index 0 ≡ b)

set-get : (xs : List ℕ) (i : ℕ) → set xs i (get_or xs i 0) ≡ xs
set-get [] i = refl
set-get (x ∷ xs) zero = refl
set-get (x ∷ xs) (suc i) = ap (◌∷◌ x) (set-get xs i)

-- The indices that the ends set do not meet the other end's.
next_ne : (r w c : ℕ) → r < c → w < c → r ≢ w → (w + 1) % c ≢ (r + 1) % c
next_ne r w c hr hw n =
    let a = mod_once (r + 1) c (omega arith) in
    let b = mod_once (w + 1) c (omega arith) in omega arith

-- The store, before the index is set
pub contents-store :
    {h : RingBuffer} (b : ℕ)
    → IsValid h
    → contents (record h { buffer = some (set (storage h) h.write_index b) }) ≡ contents h
unfolding contents
contents-store {h} b v =
    span-congr (byte_at (set (storage h) h.write_index b) h.capacity)
      (byte_at (storage h) h.capacity) h.read_index h.read_index (held h)
      λ k lt.
        let n = not_behind h.read_index h.write_index h.capacity k v.read_in v.write_in lt in
        get_or-set (storage h) h.write_index ((h.read_index + k) % h.capacity) b
          (omega (arith, v.fits, v.write_in))
        ∙ ground arith

-- The index that makes a stored byte part of the contents
pub contents-publish :
    {h : RingBuffer} (b : ℕ)
    → IsValid h
    → (h.write_index + 1) % h.capacity ≢ h.read_index
    → get_or (storage h) h.write_index 0 ≡ b
    → contents (record h { write_index = (h.write_index + 1) % h.capacity })
      ≡ contents h ++ (b ∷ [])
unfolding contents
contents-publish {h} b v n e =
    let same : set (storage h) h.write_index b ≡ storage h =
      ap (set (storage h) h.write_index) (sym e) ∙ set-get (storage h) h.write_index in
    let r =
      contents-write (storage h) h.capacity h.read_index h.write_index b v.fits v.read_in v.write_in
        v.two n in
    subst
      (λ s.
        span (byte_at s h.capacity) h.read_index
          (((h.write_index + 1) % h.capacity + h.capacity - h.read_index) % h.capacity)
        ≡ contents h ++ (b ∷ []))
      same r

pub contents-release :
    {h : RingBuffer} (b : ℕ)
    → IsValid h
    → h.read_index ≢ h.write_index
    → get_or (storage h) h.read_index 0 ≡ b
    → contents h ≡ b ∷ contents (record h { read_index = (h.read_index + 1) % h.capacity })
unfolding contents
contents-release {h} b v n e =
    contents-read (storage h) h.capacity h.read_index h.write_index v.read_in v.write_in v.two n
    ∙ ap (λ x. x ∷ contents (record h { read_index = (h.read_index + 1) % h.capacity })) e

-- The reader's part while the writer stores a byte
pub ReaderHolds-store :
    (r : Reader) {h : RingBuffer} (b : ℕ)
    → IsValid h
    → ReaderHolds r h
    → ReaderHolds r (record h { buffer = some (set (storage h) h.write_index b) })
ReaderHolds-store reader_outside b v h = tt
ReaderHolds-store has_byte b v h = h
ReaderHolds-store (has_read x) {h} b v (n, e) = (
  n,
  get_or-set (storage h) h.write_index h.read_index b (omega (arith, v.fits, v.write_in))
      ∙ ground arith,
)

-- And while the writer sets its index
pub ReaderHolds-publish :
    (r : Reader) (h : RingBuffer) (next : ℕ)
    → next ≢ h.read_index
    → ReaderHolds r h
    → ReaderHolds r (record h { write_index = next })
ReaderHolds-publish reader_outside h next n k = tt
ReaderHolds-publish has_byte h next n k = λ e. n (sym e)
ReaderHolds-publish (has_read x) h next n (m, e) = (λ e. n (sym e), e)

-- The writer's part while the reader sets its index
pub WriterHolds-release :
    (wr : Writer) {h : RingBuffer}
    → IsValid h
    → h.read_index ≢ h.write_index
    → WriterHolds wr h
    → WriterHolds wr (record h { read_index = (h.read_index + 1) % h.capacity })
WriterHolds-release writer_outside v n k = tt
WriterHolds-release (has_room b next) {h} v n (e, k) =
    (e, λ f. next_ne h.read_index h.write_index h.capacity v.read_in v.write_in n (sym e ∙ f))
WriterHolds-release (has_stored b next) {h} v n (e, k, g) =
    (e, λ f. next_ne h.read_index h.write_index h.capacity v.read_in v.write_in n (sym e ∙ f), g)

pub store-IsValid :
    {h : RingBuffer} (b : ℕ)
    → IsValid h
    → IsValid (record h { buffer = some (set (storage h) h.write_index b) })
store-IsValid {h} b v = record {
  stored = refl;
  two = v.two;
  fits = omega (arith, v.fits, length-set (storage h) h.write_index b);
  word = v.word;
  read_in = v.read_in;
  write_in = v.write_in;
}

pub set_write-IsValid :
    {h : RingBuffer} (i : ℕ) → i < h.capacity → IsValid h → IsValid (record h { write_index = i })
set_write-IsValid i lt v = record {
  stored = v.stored;
  two = v.two;
  fits = v.fits;
  word = v.word;
  read_in = v.read_in;
  write_in = lt;
}

pub set_read-IsValid :
    {h : RingBuffer} (i : ℕ) → i < h.capacity → IsValid h → IsValid (record h { read_index = i })
set_read-IsValid i lt v = record {
  stored = v.stored;
  two = v.two;
  fits = v.fits;
  word = v.word;
  read_in = lt;
  write_in = v.write_in;
}
