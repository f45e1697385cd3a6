-- ===== src/Protocol/Pool.antt =====
-- internal/shared/pool/buffer_pool.go: byte buffers in four size classes.
use tunl.Base.{ℕ, ◌*◌, ◌≤◌, ◌≡◌, Option, none, some, arith, leb, ◌==◌, if◌then◌else◌}

abbrev pub size_small : ℕ
size_small = 4 * 1024

abbrev pub size_medium : ℕ
size_medium = 32 * 1024

abbrev pub size_large : ℕ
size_large = 256 * 1024

abbrev pub size_x_large : ℕ
size_x_large = 1024 * 1024

-- The four pools; `sync.Pool` makes a new buffer of the class's size when it holds none.
pub data Class : Type 0 where
  small medium large x_large : Class

unfoldable pub capacity : Class → ℕ
capacity small = size_small
capacity medium = size_medium
capacity large = size_large
capacity x_large = size_x_large

-- The class that `Get` takes a buffer from.
unfoldable pub get_buffer : ℕ → Class
get_buffer size =
    if leb size size_small
    then small
    else if leb size size_medium
    then medium
    else if leb size size_large
    then large
    else x_large

-- The class that `Put` gives a buffer of this capacity back to; any other buffer is dropped.
unfoldable pub put_buffer : ℕ → Option Class
put_buffer cap =
    if cap == size_small
    then some small
    else if cap == size_medium
    then some medium
    else if cap == size_large
    then some large
    else if cap == size_x_large
    then some x_large
    else none

-- A buffer for at most 1 MB has room for the size that was asked for, no smaller class has, and
-- `Put` gives the buffer back to the class that `Get` took it from.
pub get_buffer_fits :
    (size : ℕ)
    → size ≤ size_x_large
    → (size ≤ capacity (get_buffer size))
      × ((c : Class) → size ≤ capacity c → capacity (get_buffer size) ≤ capacity c)
      × (put_buffer (capacity (get_buffer size)) ≡ some (get_buffer size))
unfolding get_buffer put_buffer capacity
get_buffer_fits size h = (ground arith, smallest, ground arith)
  where
    smallest : (c : Class) → size ≤ capacity c → capacity (get_buffer size) ≤ capacity c
    smallest small p = ground arith
    smallest medium p = ground arith
    smallest large p = ground arith
    smallest x_large p = ground arith
