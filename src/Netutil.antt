-- ===== src/Netutil.antt =====
-- internal/shared/netutil: addresses, and who may connect.
pub mod Access
pub mod ClientIp
pub mod Tests
use tunl.Base.{ℕ, ◌/◌, ◌-◌, ◌^◌, Bool, false, Option, ◌==◌, Text}

-- An address as package net keeps it: of four bytes, also when it was written as ::ffff:a.b.c.d, or
-- of sixteen.
pub data Address : Type 0 where
  v4 v6 : ℕ → Address

-- A network: its base address and the number of leading bits that count.
pub data Network : Type 0 where
  net4 net6 : ℕ → ℕ → Network

-- `IPNet.Contains`.
unfoldable pub in_network : Network → Address → Bool
in_network (net4 base bits) (v4 a) = base / 2 ^ (32 - bits) == a / 2 ^ (32 - bits)
in_network (net6 base bits) (v6 a) = base / 2 ^ (128 - bits) == a / 2 ^ (128 - bits)
in_network (net4 base bits) (v6 a) = false
in_network (net6 base bits) (v4 a) = false

-- What package net reads from texts: `ParseIP`, `ParseCIDR`, and the host of `SplitHostPort`.
pub record Parsers : Type 0 where
  pub parse_ip : Text → Option Address
  pub parse_cidr : Text → Option Network
  pub split_host : Text → Option Text

-- What the code reads of an HTTP request: the fields of `http.Request`, `Header.Get`, `Cookie`,
-- whether `ParseForm` succeeds, and `FormValue`.
pub record Request : Type 0 where
  pub method : Text
  pub host : Text
  pub path : Text
  pub raw_query : Text
  pub remote_addr : Text
  pub header : Text → Text
  pub cookie : Text → Option Text
  pub form_parses : Bool
  pub form_value : Text → Text
