-- ===== src/Wsutil/Tests.antt =====
-- internal/shared/wsutil/conn.go: runs at concrete inputs.
use tunl.Base.{ℕ, ◌-◌, ◌≡◌, ◌≤◌, refl, List, [], ◌∷◌, ◌++◌, arith, leb, length}
use Prim.Native.Nat.{min}
use tunl.Wsutil.Conn.{Conn, new_conn, Reader, IsReader, write}
use tunl.Wsutil.Conn.Stream.{pending, read_all, received, write_all, join, read_all-write_all}

-- A reader that fills the buffer and reports the end with the last bytes.
abbrev eager : Reader
eager bytes k = (min k (length bytes), leb (length bytes) k)

eager-IsReader : IsReader eager
eager-IsReader = record {
  within = λ bytes k. omega arith;
  ends = λ bytes k e. ground arith;
  moves = λ bytes k l e. ground arith;
}

abbrev written : List (List ℕ)
written = (1 ∷ 2 ∷ 3 ∷ []) ∷ [] ∷ (4 ∷ []) ∷ []

abbrev other_side : Conn
other_side = new_conn (received (write_all written (new_conn [])).sent)

-- The reads stop at the ends of the messages.
three_reads : (read_all eager (2 ∷ 2 ∷ 2 ∷ []) other_side).0 ≡ 1 ∷ 2 ∷ 3 ∷ 4 ∷ []
unfolding read_all new_conn write
three_reads = refl

abbrev sizes : List ℕ
sizes = 2 ∷ 2 ∷ 2 ∷ 2 ∷ []

read_all-write_all_example :
    ((read_all eager sizes other_side).0 ++ pending (read_all eager sizes other_side).1
      ≡ join written)
    × (length (pending (read_all eager sizes other_side).1) ≤ length (join written) - length sizes)
read_all-write_all_example =
    read_all-write_all eager written sizes eager-IsReader
      (omega arith, (omega arith, (omega arith, (omega arith, tt))))
