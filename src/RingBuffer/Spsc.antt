-- ===== src/RingBuffer/Spsc.antt =====
-- ring_buffer.c: a writer and a reader whose accesses come in any order.
use atcortex.Base.{
  ℕ, ◌+◌, ◌%◌, ◌<◌, ◌≡◌, ◌≢◌, refl, ap, ◌∙◌, sym, subst, List, [], ◌∷◌, ◌++◌, append_assoc,
  append-nil, arith, length, ◌==◌, Bool-cases, inl, inr,
}
use native.Mathlib.Nat.{mod-lt}
use atcortex.RingBuffer.{RingBuffer, next_index}
use atcortex.RingBuffer.Bounds.{IsValid, storage, next_index_lem}
use atcortex.RingBuffer.Contents.{contents, get_or-set, length-contents-lt}
use atcortex.RingBuffer.Interleaved.{
  Writer, writer_outside, has_room, has_stored, Reader, reader_outside, has_byte, has_read,
  writer_step, reader_step, Machine, Turn, write_turn, read_turn, turn, turns, outside,
}
use atcortex.RingBuffer.Accesses.{
  ReaderHolds, ReaderHolds-publish, ReaderHolds-store, WriterHolds, WriterHolds-release,
  contents-publish, contents-release, contents-store, set_read-IsValid, set_write-IsValid,
  store-IsValid,
}

-- Nothing is lost, doubled or out of order.
pub record Holds (m : Machine) : Type 0 where
  pub valid : IsValid m.handle
  pub at_writer : WriterHolds m.writer m.handle
  pub at_reader : ReaderHolds m.reader m.handle
  pub kept : m.written ≡ m.delivered ++ contents m.handle

write_turn-Holds :
    (byte : ℕ) (wr : Writer) (m : Machine)
    → Holds (record m { writer = wr })
    → Holds (turn (write_turn byte) (record m { writer = wr }))
unfolding turn writer_step
write_turn-Holds byte writer_outside m k =
    let v = k.valid in
    let h = m.handle in
    let f = next_index_lem h.write_index h.capacity v.write_in v.word in
    let kept = append-nil m.written ∙ k.kept in
    elim (Bool-cases (next_index h.write_index h.capacity == h.read_index)) [
      | inl full ↦
          rw full (record { valid = v; at_writer = tt; at_reader = k.at_reader; kept = kept })
      | inr room ↦
          let ne : next_index h.write_index h.capacity ≢ h.read_index = ground arith in
          rw room (record { valid = v; at_writer = (f, ne); at_reader = k.at_reader; kept = kept })
    ]
write_turn-Holds byte (has_room b next) m k =
    let v = k.valid in
    let h = m.handle in
    record {
      valid = store-IsValid b v;
      at_writer = (
        k.at_writer.0,
        k.at_writer.1,
        get_or-set (storage h) h.write_index h.write_index b (omega (arith, v.fits, v.write_in))
            ∙ ground arith,
      );
      at_reader = ReaderHolds-store m.reader b v k.at_reader;
      kept = append-nil m.written ∙ k.kept ∙ ap (λ q. m.delivered ++ q) (sym (contents-store b v));
    }
write_turn-Holds byte (has_stored b next) m k =
    let v = k.valid in
    let h = m.handle in
    let (e, ne, stored) = k.at_writer in
    let n : (h.write_index + 1) % h.capacity ≢ h.read_index = λ f. ne (e ∙ f) in
    let c = contents-publish b v n stored in
    let next_in : next < h.capacity =
      omega (arith, v.two, mod-lt (h.write_index + 1) {m = h.capacity}) in
    record {
      valid = set_write-IsValid next next_in v;
      at_writer = tt;
      at_reader = ReaderHolds-publish m.reader h next ne k.at_reader;
      kept =
          ap (λ q. q ++ (b ∷ [])) k.kept
          ∙ append_assoc m.delivered (contents h) (b ∷ [])
          ∙ ap (λ q. m.delivered ++ q)
              (sym c ∙ ap (λ i. contents (record h { write_index = i })) (sym e));
    }

read_turn-Holds :
    (r : Reader) (m : Machine)
    → Holds (record m { reader = r })
    → Holds (turn read_turn (record m { reader = r }))
unfolding turn reader_step
read_turn-Holds reader_outside m k =
    let h = m.handle in
    let kept = k.kept ∙ ap (λ q. q ++ contents h) (sym (append-nil m.delivered)) in
    elim (Bool-cases (h.read_index == h.write_index)) [
      | inl empty ↦
          rw empty
            (record { valid = k.valid; at_writer = k.at_writer; at_reader = tt; kept = kept })
      | inr some_bytes ↦
          let ne : h.read_index ≢ h.write_index = ground arith in
          rw some_bytes
            (record { valid = k.valid; at_writer = k.at_writer; at_reader = ne; kept = kept })
    ]
read_turn-Holds has_byte m k = record {
  valid = k.valid;
  at_writer = k.at_writer;
  at_reader = (k.at_reader, refl);
  kept = k.kept ∙ ap (λ q. q ++ contents m.handle) (sym (append-nil m.delivered));
}
read_turn-Holds (has_read b) m k =
    let v = k.valid in
    let h = m.handle in
    let (n, e) = k.at_reader in
    let i = (h.read_index + 1) % h.capacity in
    let after = record h { read_index = i } in
    let lt : i < h.capacity = omega (arith, v.two, mod-lt (h.read_index + 1) {m = h.capacity}) in
    let c = contents-release b v n e in
    let done : Holds (record m {
      handle = after;
      reader = reader_outside;
      delivered = m.delivered ++ (b ∷ []);
    }) =
      record {
        valid = set_read-IsValid i lt v;
        at_writer = WriterHolds-release m.writer v n k.at_writer;
        at_reader = tt;
        kept =
            k.kept
            ∙ ap (λ q. m.delivered ++ q) c
            ∙ sym (append_assoc m.delivered (b ∷ []) (contents after));
      } in
    subst
      (λ i. Holds (record m {
        handle = record h { read_index = i };
        reader = reader_outside;
        delivered = m.delivered ++ (b ∷ []);
      }))
      (sym (next_index_lem h.read_index h.capacity v.read_in v.word)) done

turn-Holds : (t : Turn) (m : Machine) → Holds m → Holds (turn t m)
turn-Holds (write_turn byte) m k = write_turn-Holds byte m.writer m k
turn-Holds read_turn m k = read_turn-Holds m.reader m k

turns-Holds : (ts : List Turn) (m : Machine) → Holds m → Holds (turns ts m)
unfolding turns
turns-Holds [] m k = k
turns-Holds (t ∷ ts) m k = turns-Holds ts (turn t m) (turn-Holds t m k)

-- From a valid ring buffer, and in whatever order the accesses to memory of one writer and one
-- reader come, each end possibly stopped in the middle of its function, the bytes written are
-- those read followed by those that wait: none is lost, doubled or out of order. The ring stays
-- valid, with fewer bytes than the capacity.
pub turns_lem :
    (ts : List Turn) {h : RingBuffer}
    → IsValid h
    → ((turns ts (outside h)).written
        ≡ (turns ts (outside h)).delivered ++ contents (turns ts (outside h)).handle)
      × (length (contents (turns ts (outside h)).handle) < (turns ts (outside h)).handle.capacity)
      × IsValid (turns ts (outside h)).handle
turns_lem ts {h} v =
    let k =
      turns-Holds ts (outside h)
        (record { valid = v; at_writer = tt; at_reader = tt; kept = refl }) in
    (k.kept, length-contents-lt k.valid, k.valid)
