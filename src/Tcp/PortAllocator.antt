-- ===== src/Tcp/PortAllocator.antt =====
-- internal/server/tcp/port_allocator.go: ports in a range, reserved until they are released. The
-- random numbers and the answers of `net.Listen` are arguments.
pub mod Outcome
pub mod Exclusive
use tunl.Base.{
  ℕ, zero, suc, ◌+◌, ◌-◌, ◌≡◌, refl, Bool, true, false, ◌||◌, Option, none, some, List, [], ◌∷◌,
  ltb, leb, ◌==◌, if◌then◌else◌, nat_eq, ok, err,
}
use tunl.Base.Int.{ℤ, pos, negsuc, pos_part, ltb_ℤ}
use tunl.Base.Result.{Result}
use tunl.Base.Map.{lookup, insert, erase}

pub record PortAllocator : Type 0 where
  pub min : ℕ
  pub max : ℕ
  pub used : List (ℕ × Bool)

abbrev at_most_zero : ℤ → Bool
at_most_zero z = pos_part z == 0

unfoldable pub new_port_allocator : ℤ → ℤ → Option PortAllocator
new_port_allocator min max =
    if at_most_zero min
      || (at_most_zero max || (leb (pos_part max) (pos_part min) || ltb 65535 (pos_part max)))
    then none
    else some (record { min = pos_part min; max = pos_part max; used = [] })

pub data PortError : Type 0 where
  none_available out_of_range in_use unavailable : PortError

-- `p.used[port]`.
unfoldable pub is_taken : ℕ → PortAllocator → Bool
is_taken port p = elim (lookup port p.used) [ none ↦ false | some b ↦ b ]

-- `draw` is the answer of `rand.Int`, if it has one.
unfoldable pub random_port : Option ℕ → PortAllocator → ℕ
random_port draw p =
    if ltb p.max p.min then p.min else elim draw [ none ↦ p.min | some k ↦ p.min + k ]

unfoldable pub reserve : ℕ → PortAllocator → PortAllocator
reserve port p = record p { used = insert port true p.used }

-- The attempts from `i` on, `k` of them: attempt `i` draws by `draw i`, and `listens i port` is
-- whether the operating system lets it listen on the port.
unfoldable pub try_from :
    (ℕ → Option ℕ) → (ℕ → ℕ → Bool) → ℕ → ℕ → PortAllocator → PortAllocator × Result PortError ℕ
unfolding random_port is_taken reserve
try_from draw listens i zero p = (p, err none_available)
try_from draw listens i (suc k) p =
    let port = random_port (draw i) p in
    let rest = try_from draw listens (i + 1) k p in
    if is_taken port p then rest else if listens i port then (reserve port p, ok port) else rest

unfoldable pub allocate :
    (ℕ → Option ℕ) → (ℕ → ℕ → Bool) → PortAllocator → PortAllocator × Result PortError ℕ
unfolding try_from
allocate draw listens p = try_from draw listens 0 (p.max + 1 - p.min) p

-- A port below 0 is out of the range as 0 is, since `min` is above 0.
unfoldable pub allocate_specific : ℕ → Bool → PortAllocator → PortAllocator × Result PortError ℕ
unfolding is_taken reserve
allocate_specific port listens p =
    if ltb port p.min || ltb p.max port
    then (p, err out_of_range)
    else if is_taken port p
    then (p, err in_use)
    else if listens
    then (reserve port p, ok port)
    else (p, err unavailable)

unfoldable pub release_port : ℕ → PortAllocator → PortAllocator
release_port port p = record p { used = erase port p.used }
