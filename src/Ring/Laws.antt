-- ===== src/Ring/Laws.antt =====
-- The circular buffer macros of src/microbus.h against arithmetic modulo the size.
use native.Mathlib.Nat.{mod-eq_of_lt, mod-eq-sub-mod}
use microbus.Common.{ℕ, ◌+◌, ◌-◌, ◌%◌, ◌≤◌, ◌<◌, ◌≡◌, ◌↔◌, true, some, arith}
use microbus.Ring.{
  incr_and_wrap, decr_and_wrap, circular_buffer_full, circular_buffer_empty, circular_buffer_length,
  append_tail, shift_tail, circular_buffer_peek,
}

mod_small : (n m : ℕ) → n < m → n % m ≡ n
mod_small n m h = mod-eq_of_lt h

mod_once : (n m : ℕ) → m ≤ n → n < m + m → n % m ≡ n - m
mod_once n m h k =
    omega (arith, mod-eq-sub-mod {n = n} {m = m} h, mod-eq_of_lt {n = n - m} {m = m} (omega arith))

-- INCR_AND_WRAP and DECR_AND_WRAP of a position in the buffer by a step below its size are addition
-- and subtraction modulo the size.
pub wrap_is_mod :
    (val step size : ℕ)
    → val < size
    → step < size
    → (incr_and_wrap val step size ≡ (val + step) % size)
      × (decr_and_wrap val step size ≡ (val + size - step) % size)
unfolding incr_and_wrap decr_and_wrap
wrap_is_mod val step size hv hs = ground (
  arith,
  mod_small (val + step) size,
  mod_once (val + step) size,
  mod_small (val + size - step) size,
  mod_once (val + size - step) size,
)

pub incr_lt : (val size : ℕ) → val < size → incr_and_wrap val 1 size < size
unfolding incr_and_wrap
incr_lt val size h = ground arith

-- For two positions in the buffer: the length is the distance from head to tail modulo the size, it
-- is less than the size, the buffer is empty exactly when the length is 0, and full exactly when it
-- is one less than the size.
pub length_lem :
    (head tail size : ℕ)
    → head < size
    → tail < size
    → (circular_buffer_length head tail size ≡ (tail + size - head) % size)
      × (circular_buffer_length head tail size < size)
      × ((circular_buffer_empty head tail size ≡ true)
          ↔ (circular_buffer_length head tail size ≡ 0))
      × ((circular_buffer_full head tail size ≡ true)
          ↔ (circular_buffer_length head tail size + 1 ≡ size))
unfolding circular_buffer_length circular_buffer_empty circular_buffer_full
length_lem head tail size hh ht = grind arith

-- After an append that does not fail, a shift takes the entry off again, and a peek points to the head.
shift-append :
    (head tail size : ℕ) {end : ℕ}
    → head < size
    → tail < size
    → append_tail head tail size ≡ some end
    → (shift_tail head end size ≡ some tail) × (circular_buffer_peek head end size ≡ some head)
unfolding append_tail shift_tail circular_buffer_peek circular_buffer_full circular_buffer_empty
    incr_and_wrap decr_and_wrap
shift-append head tail size {end} hh ht ok = ground arith
