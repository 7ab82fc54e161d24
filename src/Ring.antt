-- ===== src/Ring.antt =====
-- src/microbus.h: the macros on the positions of a circular buffer. Their values are of C's `int`,
-- and positions are bytes, so no subtraction below is negative where the positions lie in the buffer.
pub mod Laws
mod Tests
use microbus.Common.{ℕ, ◌+◌, ◌-◌, ◌≤◌, ◌<◌, Bool, ltb, leb, ◌==◌, if◌then◌else◌, Option, none, some}

-- `INCR_AND_WRAP`
unfoldable pub incr_and_wrap : ℕ → ℕ → ℕ → ℕ
incr_and_wrap val incr max = if leb (max - incr) val then incr - (max - val) else val + incr

-- `DECR_AND_WRAP`
unfoldable pub decr_and_wrap : ℕ → ℕ → ℕ → ℕ
decr_and_wrap val decr max = if ltb val decr then max - decr + val else val - decr

-- `CIRCULAR_BUFFER_FULL`, `CIRCULAR_BUFFER_EMPTY` and `CIRCULAR_BUFFER_LENGTH`
unfoldable pub circular_buffer_full : ℕ → ℕ → ℕ → Bool
unfolding incr_and_wrap
circular_buffer_full head tail size = head == incr_and_wrap tail 1 size

unfoldable pub circular_buffer_empty : ℕ → ℕ → ℕ → Bool
circular_buffer_empty head tail size = head == tail

unfoldable pub circular_buffer_length : ℕ → ℕ → ℕ → ℕ
unfolding decr_and_wrap
circular_buffer_length head tail size = decr_and_wrap tail head size

-- What `CIRCULAR_BUFFER_APPEND` and `CIRCULAR_BUFFER_POP` do to `tail` and to `head`.
unfoldable pub append_tail : ℕ → ℕ → ℕ → Option ℕ
unfolding circular_buffer_full
append_tail head tail size =
    if circular_buffer_full head tail size then none else some (incr_and_wrap tail 1 size)

unfoldable pub pop_head : ℕ → ℕ → ℕ → Option ℕ
unfolding circular_buffer_empty
pop_head head tail size =
    if circular_buffer_empty head tail size then none else some (incr_and_wrap head 1 size)

-- What `CIRCULAR_BUFFER_SHIFT` does to `tail`: it takes the last entry off again.
unfoldable pub shift_tail : ℕ → ℕ → ℕ → Option ℕ
unfolding circular_buffer_empty decr_and_wrap
shift_tail head tail size =
    if circular_buffer_empty head tail size then none else some (decr_and_wrap tail 1 size)

-- The entry that `CIRCULAR_BUFFER_PEEK` points to, by its index; `none` is the null pointer.
unfoldable pub circular_buffer_peek : ℕ → ℕ → ℕ → Option ℕ
unfolding circular_buffer_empty
circular_buffer_peek head tail size =
    if circular_buffer_empty head tail size then none else some head
