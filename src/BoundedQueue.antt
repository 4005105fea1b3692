-- ===== src/BoundedQueue.antt =====
-- riss/core/BoundedQueue.h: class bqueue, the last values of a statistic with their sum. The
-- averages in floating point are not modelled. `elems` is a function with its size; the sum is a
-- 64-bit word and the values are 32-bit ones.
pub mod Sum
mod Tests
use riss.Base.{
  ℕ, suc, ◌+◌, ◌-◌, ◌*◌, ◌/◌, ◌%◌, ◌^◌, Bool, true, false, not, ◌&&◌, ◌==◌, ltb, if◌then◌else◌,
  update,
}

pub record Bqueue : Type 0 where
  pub elems : ℕ → ℕ
  pub elems_size : ℕ
  pub first : ℕ
  pub last : ℕ
  pub sumofqueue : ℕ
  pub maxsize : ℕ
  pub queuesize : ℕ

abbrev pub new_bqueue : Bqueue
new_bqueue = record {
  elems = λ _. 0;
  elems_size = 0;
  first = 0;
  last = 0;
  sumofqueue = 0;
  maxsize = 0;
  queuesize = 0;
}

-- sumofqueue -= x, in 64 bits
abbrev pub minus64 : ℕ → ℕ → ℕ
minus64 s x = (s + 2 ^ 64 - x) % 2 ^ 64

-- if ((++i) == maxsize) { i = 0; }
abbrev pub advance : ℕ → ℕ → ℕ
advance i n = if i + 1 == n then 0 else i + 1

-- the oldest value leaves a full queue
unfoldable pub drop_oldest : Bqueue → Bqueue
drop_oldest q =
    if (q.queuesize == q.maxsize) && not (q.elems_size == 0)
    then record q {
      sumofqueue = minus64 q.sumofqueue (q.elems q.last);
      last = advance q.last q.maxsize;
    }
    else record q { queuesize = suc q.queuesize }

-- When `first` comes to the end, `last` is set to the start, too.
abbrev pub put : ℕ → Bqueue → Bqueue
put x r = record r {
  sumofqueue = (r.sumofqueue + x) % 2 ^ 64;
  elems = update r.elems r.first x;
  first = advance r.first r.maxsize;
  last = if r.first + 1 == r.maxsize then 0 else r.last;
}

unfoldable pub push : ℕ → Bqueue → Bqueue
push x q = put x (drop_oldest q)

abbrev pub peek : Bqueue → ℕ
peek q = q.elems q.last

unfoldable pub pop : Bqueue → Bqueue
pop q = record q {
  sumofqueue = minus64 q.sumofqueue (q.elems q.last);
  queuesize = q.queuesize - 1;
  last = advance q.last q.maxsize;
}

-- the average, as a 32-bit word
unfoldable pub get_avg : Bqueue → ℕ
get_avg q = if q.queuesize == 0 then 0 else (q.sumofqueue / q.queuesize) % 2 ^ 32

abbrev pub is_valid : Bqueue → Bool
is_valid q = q.queuesize == q.maxsize

-- growTo: the sum is left alone
unfoldable pub grow_to : ℕ → Bqueue → Bqueue
grow_to size q = record q {
  elems = λ i. if ltb i size then 0 else q.elems i;
  elems_size = if ltb q.elems_size size then size else q.elems_size;
  first = 0;
  maxsize = size;
  queuesize = 0;
  last = 0;
}

unfoldable pub fastclear : Bqueue → Bqueue
fastclear q = record q { first = 0; last = 0; queuesize = 0; sumofqueue = 0 }

unfoldable pub clear : Bqueue → Bqueue
clear q = record q { elems_size = 0; first = 0; maxsize = 0; queuesize = 0; sumofqueue = 0 }
