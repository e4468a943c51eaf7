-- ===== src/SyncResponse/Answer.antt =====
-- send_msg_handle.c: what a caller that waits gets from `sync_response_handler`.
use atcortex.Base.{
  sizes, ℕ, zero, suc, ◌≤◌, ◌<◌, ◌≡◌, ◌≢◌, refl, ap, ◌∙◌, true, false, List, [], ◌∷◌, ◌++◌, arith,
  length, take, drop, min, ◌==◌,
}
use atcortex.Types.{Ptr, null, AtcResult, SendTask}
use atcortex.Platform.{gave, World, Os, semaphore_give, update}
use atcortex.SyncResponse.{memcpy, copy_response, sync_response_handler}

-- What a task's caller finds behind an answer with a response that is not empty: the result, the
-- number of bytes copied, and these bytes at the start of its buffer, whose size is as before. It has
-- been woken once, behind all that.
pub record Answered {W : Type 0} (t : SendTask) (r : AtcResult) (response : List ℕ) (n : ℕ)
    (w w' : World W) : Type 0 where
  pub result : w'.memory.results t.sync_send_result ≡ r
  pub copied :
      w'.memory.lengths t.sync_response_length ≡ min n (w.memory.lengths t.sync_response_length)
  pub bytes :
      take (min n (w.memory.lengths t.sync_response_length)) (w'.memory.buffers t.sync_response_buf)
      ≡ take (min n (w.memory.lengths t.sync_response_length)) response
  pub size :
      length (w'.memory.buffers t.sync_response_buf) ≡ length (w.memory.buffers t.sync_response_buf)
  pub woken : w'.trace ≡ gave t.semaphore ∷ w.trace

take-append : (xs ys : List ℕ) (n : ℕ) → n ≤ length xs → take n (take n xs ++ ys) ≡ take n xs
take-append xs ys zero h = refl
take-append [] ys (suc n) h = absurd (omega arith)
take-append (x ∷ xs) ys (suc n) h = ap (λ l. x ∷ l) (take-append xs ys n (omega arith))

update-same : {A : Type 0} (f : Ptr → A) (p : Ptr) (v : A) → update f p v p ≡ v
update-same f p v = let same : (p == p) ≡ true = ground arith in rw same refl

length-memcpy :
    (buf from : List ℕ) (n : ℕ)
    → n ≤ length from
    → n ≤ length buf
    → length (memcpy buf from n) ≡ length buf
length-memcpy buf from n h k = grind sizes

-- An answer never writes past the size that the caller has given for its buffer: where the caller
-- has given all three variables, and the response is not empty, the result arrives, as many bytes
-- of the response as fit are copied to the start of the buffer, their number is stored, and the
-- caller is woken once.
pub sync_response_handler_lem :
    {W : Type 0} (os : Os W) (t : SendTask) (r : AtcResult) (response : List ℕ) (n : ℕ)
    (w : World W)
    → t.sync_send_result ≢ null
    → t.sync_response_buf ≢ null
    → t.sync_response_length ≢ null
    → t.semaphore ≢ null
    → 0 < n
    → n ≤ length response
    → w.memory.lengths t.sync_response_length ≤ length (w.memory.buffers t.sync_response_buf)
    → Answered t r response n w (sync_response_handler os t r response n w).1
unfolding sync_response_handler copy_response semaphore_give
sync_response_handler_lem os t r response n w a b c d pos within size =
    let e1 : (t.sync_send_result == null) ≡ false = ground arith in
    let e2 : (t.sync_response_buf == null) ≡ false = ground arith in
    let e3 : (t.sync_response_length == null) ≡ false = ground arith in
    let e4 : (t.semaphore == null) ≡ false = ground arith in
    let e5 : (n == 0) ≡ false = ground arith in
    let k : ℕ = min n (w.memory.lengths t.sync_response_length) in
    rw (e1, e2, e3, e4, e5)
      (record {
        result = update-same w.memory.results t.sync_send_result r;
        copied = update-same w.memory.lengths t.sync_response_length _;
        bytes =
            ap (take k) (update-same w.memory.buffers t.sync_response_buf _)
            ∙ (take-append response (drop k (w.memory.buffers t.sync_response_buf)) k
                (omega arith));
        size =
            ap (λ l. length l) (update-same w.memory.buffers t.sync_response_buf _)
            ∙ length-memcpy (w.memory.buffers t.sync_response_buf) response k (omega arith)
                (omega arith);
        woken = refl;
      })
