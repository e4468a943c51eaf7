-- ===== src/Recv/Line.antt =====
-- recv_data_handle.c: the line buffer.
use atcortex.Base.{
  sizes, ℕ, zero, suc, ◌+◌, ◌-◌, ◌≤◌, ◌<◌, ◌≡◌, ◌≢◌, refl, ap, ap₂, ◌∙◌, sym, true, false, List, [],
  ◌∷◌, ◌++◌, append_assoc, append-nil, arith, length, set, drop, ltb, ◌==◌,
}
use atcortex.Types.{atc_rx_line_max_size}
use atcortex.Platform.{World, Os}
use atcortex.Context.{Context, State}
use atcortex.Recv.{put_line_byte, end_line}
use atcortex.Recv.Known.{line_step, byte_line_step}

-- The bytes of a line, none of them a line feed.
abbrev pub NoLineFeed : List ℕ → Type 0
NoLineFeed [] = Unit {0}
NoLineFeed (b ∷ bs) = (b ≢ b'\n') × NoLineFeed bs

pub set-append :
    (before after : List ℕ) (x y : ℕ)
    → set (before ++ (x ∷ after)) (length before) y ≡ before ++ (y ∷ after)
set-append [] after x y = refl
set-append (b ∷ bs) after x y = ap (λ l. b ∷ l) (set-append bs after x y)

drop-two :
    (xs : List ℕ) (n : ℕ)
    → n + 2 ≤ length xs
    → (x : ℕ) × (y : ℕ) × (drop n xs ≡ x ∷ (y ∷ drop (n + 2) xs))
drop-two [] n h = absurd (omega arith)
drop-two (x ∷ []) n h = absurd (omega arith)
drop-two (x ∷ y ∷ xs) zero h = (x, y, refl)
drop-two (x ∷ y ∷ xs) (suc n) h =
    let (a, b, e) = drop-two (y ∷ xs) n (omega arith) in
    (a, b, e ∙ ap (λ k. a ∷ (b ∷ drop k (x ∷ y ∷ xs))) {x = suc (n + 2)} (omega arith))

module _ {W : Type 0} (os : Os W) where
  -- Bytes that reach `byte_line_step` one after another.
  unfoldable pub feed : List ℕ → Context → World W → State W
  feed [] c w = (c, w)
  feed (byte ∷ bytes) c w = let (c', w') = byte_line_step os byte c w in feed bytes c' w'

  -- A context whose line buffer begins with `before`, and holds `after` behind that.
  abbrev pub with_line : Context → List ℕ → List ℕ → Context
  with_line c before after = record c {
    line_buffer = before ++ after;
    line_buffer_index = length before;
  }

  byte_line_step-more :
      (byte x : ℕ) (before after : List ℕ) (c : Context) (w : World W)
      → byte ≢ b'\n'
      → length before < atc_rx_line_max_size - 1
      → byte_line_step os byte (with_line c before (x ∷ after)) w
        ≡ (with_line c (before ++ (byte ∷ [])) after, w)
  unfolding byte_line_step put_line_byte
  byte_line_step-more byte x before after c w ne lt =
      let room : ltb (length before) (atc_rx_line_max_size - 1) ≡ true = ground arith in
      let more : (byte == b'\n') ≡ false = ground arith in
      rw (room, more)
        (ap₂ (λ l i. (record c { line_buffer = l; line_buffer_index = i }, w))
          (set-append before after x byte ∙ sym (append_assoc before (byte ∷ []) after))
          (grind sizes))

  byte_line_step-full :
      (byte : ℕ) (c : Context) (w : World W)
      → c.line_buffer_index ≡ atc_rx_line_max_size - 1
      → byte_line_step os byte c w ≡ (c, w)
  unfolding byte_line_step
  byte_line_step-full byte c w full =
      let out : ltb c.line_buffer_index (atc_rx_line_max_size - 1) ≡ false = ground arith in rw out

  pub feed-more :
      (bytes before after : List ℕ) (c : Context) (w : World W)
      → NoLineFeed bytes
      → length bytes ≤ length after
      → length before + length bytes < atc_rx_line_max_size
      → feed bytes (with_line c before after) w
        ≡ (with_line c (before ++ bytes) (drop (length bytes) after), w)
  unfolding feed
  feed-more [] before after c w plain h room =
      ap (λ l. (with_line c l after, w)) (sym (append-nil before))
  feed-more (b ∷ bs) before [] c w plain h room = absurd (omega arith)
  feed-more (b ∷ bs) before (x ∷ after) c w plain h room =
      rw (byte_line_step-more b x before after c w plain.0 (omega arith)) (
        feed-more bs (before ++ (b ∷ [])) after c w plain.1 (omega arith) (grind sizes)
        ∙ ap (λ l. (with_line c l (drop (length bs) after), w)) (append_assoc before (b ∷ []) bs))

  byte_line_step-end :
      (x y : ℕ) (before after : List ℕ) (c : Context) (w : World W)
      → length before < atc_rx_line_max_size - 1
      → let line = before ++ (b'\n' ∷ (0 ∷ after)) in
        let n = length before + 1 in
        let (c', w') =
          line_step os line n (record c { line_buffer = line; line_buffer_index = n }) w in
        byte_line_step os b'\n' (with_line c before (x ∷ (y ∷ after))) w
        ≡ (record c' { line_buffer_index = 0 }, w')
  unfolding byte_line_step put_line_byte end_line
  byte_line_step-end x y before after c w lt =
      let room : ltb (length before) (atc_rx_line_max_size - 1) ≡ true = ground arith in
      rw room (
        ap
          (λ l.
            let n = length before + 1 in
            let (c', w') =
              line_step os l n (record c { line_buffer = l; line_buffer_index = n }) w in
            (record c' { line_buffer_index = 0 }, w'))
          ended)
    where
      ended :
          set (set (before ++ (x ∷ (y ∷ after))) (length before) b'\n') (length before + 1) 0
          ≡ before ++ (b'\n' ∷ (0 ∷ after))
      ended =
          ap₂ (λ l i. set l i 0)
            (set-append before (y ∷ after) x b'\n'
              ∙ sym (append_assoc before (b'\n' ∷ []) (y ∷ after)))
            (grind sizes)
          ∙ set-append (before ++ (b'\n' ∷ [])) after y 0
          ∙ append_assoc before (b'\n' ∷ []) (0 ∷ after)

  pub feed-append :
      (xs ys : List ℕ) (c : Context) (w : World W)
      → feed (xs ++ ys) c w ≡ (let (c', w') = feed xs c w in feed ys c' w')
  unfolding feed
  feed-append [] ys c w = refl
  feed-append (x ∷ xs) ys c w = let (c', w') = byte_line_step os x c w in feed-append xs ys c' w'

  -- A line of at most 254 bytes with its line feed, fed to an empty line buffer, makes one call
  -- of `line_step` on exactly those bytes with a 0 behind them, and leaves the buffer empty.
  pub feed_line_lem :
      (bytes : List ℕ) (c : Context) (w : World W)
      → NoLineFeed bytes
      → length bytes < atc_rx_line_max_size - 1
      → length c.line_buffer ≡ atc_rx_line_max_size
      → c.line_buffer_index ≡ 0
      → let line = bytes ++ (b'\n' ∷ (0 ∷ drop (length bytes + 2) c.line_buffer)) in
        let n = length bytes + 1 in
        let (c', w') =
          line_step os line n (record c { line_buffer = line; line_buffer_index = n }) w in
        feed (bytes ++ (b'\n' ∷ [])) c w ≡ (record c' { line_buffer_index = 0 }, w')
  unfolding feed
  feed_line_lem bytes c w plain lt size start =
      let (x, y, e) = drop-two c.line_buffer (length bytes) (omega arith) in
      ap (λ i. feed (bytes ++ (b'\n' ∷ [])) (record c { line_buffer_index = i }) w) start
      ∙ feed-append bytes (b'\n' ∷ []) (with_line c [] c.line_buffer) w
      ∙ ap (λ (s : State W). feed (b'\n' ∷ []) s.0 s.1)
          (feed-more bytes [] c.line_buffer c w plain (omega arith) (omega arith))
      ∙ ap (λ l. byte_line_step os b'\n' (with_line c bytes l) w) e
      ∙ byte_line_step-end x y bytes (drop (length bytes + 2) c.line_buffer) c w lt

  -- A full line buffer takes no byte in any more, not even a line feed: from then on every byte
  -- that comes for it is dropped.
  pub feed_full_lem :
      (bytes : List ℕ) (c : Context) (w : World W)
      → c.line_buffer_index ≡ atc_rx_line_max_size - 1
      → feed bytes c w ≡ (c, w)
  unfolding feed
  feed_full_lem [] c w full = refl
  feed_full_lem (b ∷ bs) c w full = rw (byte_line_step-full b c w full) (feed_full_lem bs c w full)
