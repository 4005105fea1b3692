-- ===== src/Queue.antt =====
-- riss/mtl/Queue.h: class Queue, a ring buffer that grows. The buffer is a function with its size;
-- `fresh` is the value of a new element.
pub mod Refine
mod Tests
use riss.Base.{
  ℕ, zero, suc, ◌+◌, ◌-◌, ◌*◌, ◌/◌, ◌%◌, Bool, true, false, ◌==◌, leb, ltb, if◌then◌else◌, update,
}

pub record Queue {ℓ} (A : Type ℓ) : Type ℓ where
  pub buf : ℕ → A
  pub buf_size : ℕ
  pub first : ℕ
  pub end : ℕ

module _ {ℓ} {A : Type ℓ} where
  abbrev pub new_queue : A → Queue A
  new_queue fresh = record { buf = λ _. fresh; buf_size = 1; first = 0; end = 0 }

  abbrev pub size : Queue A → ℕ
  size q = if leb q.first q.end then q.end - q.first else q.end + q.buf_size - q.first

  -- operator []
  abbrev pub get : Queue A → ℕ → A
  get q i = q.buf ((q.first + i) % q.buf_size)

  abbrev pub peek : Queue A → A
  peek q = q.buf q.first

  unfoldable pub pop : Queue A → Queue A
  pop q = record q { first = if q.first + 1 == q.buf_size then 0 else q.first + 1 }

  -- for (j = from; count more; j++) tmp[i++] = buf[j]
  unfoldable pub copy_range : (ℕ → A) → ℕ → ℕ → ℕ → (ℕ → A) → ℕ → A
  copy_range buf from i zero tmp = tmp
  copy_range buf from i (suc count) tmp =
      copy_range buf (from + 1) (i + 1) count (update tmp i (buf from))

  -- the larger buffer
  unfoldable pub resized : A → Queue A → Queue A
  resized fresh q =
      let upper = copy_range q.buf q.first 0 (q.buf_size - q.first) (λ _. fresh) in
      let tmp = copy_range q.buf 0 (q.buf_size - q.first) q.end upper in
      record { buf = tmp; buf_size = (q.buf_size * 3 + 1) / 2; first = 0; end = q.buf_size }

  -- buf[end++] = elem, and back to the start at the end of the buffer
  abbrev pub write_end : A → Queue A → Queue A
  write_end x q = record q {
    buf = update q.buf q.end x;
    end = if q.end + 1 == q.buf_size then 0 else q.end + 1;
  }

  unfoldable pub insert : A → A → Queue A → Queue A
  insert fresh x q = let r = write_end x q in if r.first == r.end then resized fresh r else r

  unfoldable pub clear : A → Queue A → Queue A
  clear fresh q = new_queue fresh
