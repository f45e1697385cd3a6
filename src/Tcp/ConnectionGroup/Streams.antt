-- ===== src/Tcp/ConnectionGroup/Streams.antt =====
-- internal/server/tcp/connection_group.go: `OpenStream`. The heap of container/heap gives its entries
-- in the order of their streams. What the multiplexer answers is an argument; one goroutine works at a
-- time.
pub mod Heap
pub mod Choice
use tunl.Base.{
  ℕ, zero, suc, ◌-◌, Bool, true, false, not, ◌&&◌, ◌||◌, Option, none, some, List, [], ◌∷◌, leb,
  if◌then◌else◌, Text, text_beq, text_eq, codes,
}
use tunl.Base.Result.{Result, ok, err}
use tunl.Base.Map.{keep_if}
use tunl.Tcp.ConnectionGroup.{ConnectionGroup}

pub record SessionEntry : Type 0 where
  pub id : Text
  pub session : ℕ
  pub streams : ℕ

-- What a session answers when the heap is built, and when it is tried: an error has a number, a stream
-- too.
pub record Seen : Type 0 where
  pub is_closed : Bool
  pub num_streams : ℕ

pub record Tried : Type 0 where
  pub is_closed : Bool
  pub num_streams : ℕ
  pub opens : Result ℕ ℕ
  pub closed_after : Bool

-- The answers of the sessions in each attempt, and which are closed once a session failed to open.
pub record Mux : Type 0 where
  pub seen : ℕ → ℕ → Seen
  pub tried : ℕ → ℕ → Tried
  pub gone : ℕ → ℕ → ℕ → Bool

pub data OpenError : Type 0 where
  closed at_capacity nothing_opened : OpenError
  open_failed : ℕ → OpenError

abbrev pub max_streams_per_session : ℕ
max_streams_per_session = 256

abbrev pub max_retries : ℕ
max_retries = 3

unfoldable pub insert_entry : SessionEntry → List SessionEntry → List SessionEntry
insert_entry e [] = e ∷ []
insert_entry e (x ∷ xs) =
    let rest = insert_entry e xs in if leb e.streams x.streams then e ∷ x ∷ xs else x ∷ rest

unfoldable pub build_session_heap : (ℕ → Seen) → Bool → List (Text × ℕ) → List SessionEntry
unfolding insert_entry
build_session_heap seen include_primary [] = []
build_session_heap seen include_primary ((id, s) ∷ m) =
    let rest = build_session_heap seen include_primary m in
    if (seen s).is_closed || (text_beq id (codes "primary") && not include_primary)
    then rest
    else insert_entry (record { id = id; session = s; streams = (seen s).num_streams }) rest

-- The primary session is asked if no other is open.
unfoldable pub session_heap : (ℕ → Seen) → List (Text × ℕ) → List SessionEntry
unfolding build_session_heap
session_heap seen m = elim (build_session_heap seen false m) [
  | [] ↦ build_session_heap seen true m
  | e ∷ es ↦ e ∷ es
]

unfoldable pub delete_closed_sessions : (ℕ → Bool) → ConnectionGroup → ConnectionGroup
delete_closed_sessions is_closed g = record g {
  sessions = keep_if (λ x. not (is_closed x.1)) g.sessions;
}

-- How far `OpenStream` is.
pub record Progress : Type 0 where
  pub group : ConnectionGroup
  pub any_under_cap : Bool
  pub last_err : Option OpenError
  pub opened : Option ℕ

unfoldable pub try_entry : Mux → ℕ → SessionEntry → Progress → Progress
unfolding delete_closed_sessions
try_entry m i e p =
    let t = m.tried i e.session in
    if t.is_closed || leb max_streams_per_session t.num_streams then p else elim t.opens [
      | ok stream ↦ record p { any_under_cap = true; opened = some stream }
      | err x ↦ record p {
        any_under_cap = true;
        last_err = some (open_failed x);
        group =
            if t.closed_after then delete_closed_sessions (m.gone i e.session) p.group else p.group;
      }
    ]

unfoldable pub try_entries : Mux → ℕ → List SessionEntry → Progress → Progress
unfolding try_entry
try_entries m i [] p = p
try_entries m i (e ∷ es) p =
    let p' = try_entry m i e p in elim p'.opened [ none ↦ try_entries m i es p' | some _ ↦ p' ]

-- The error that an attempt leaves behind.
unfoldable pub error_after : Progress → Option OpenError
error_after p = if p.any_under_cap then p.last_err else some at_capacity

-- The attempts that are left.
unfoldable pub open_attempts :
    Mux → ℕ → Option OpenError → ConnectionGroup → ConnectionGroup × Result OpenError ℕ
unfolding session_heap try_entries error_after
open_attempts m zero last g = elim last [ none ↦ (g, err nothing_opened) | some e ↦ (g, err e) ]
open_attempts m (suc n) last g =
    let i = max_retries - suc n in
    if g.stop_ch.closed then (g, err closed) else elim (session_heap (m.seen i) g.sessions) [
      | [] ↦ (g, err closed)
      | e ∷ es ↦
          let p =
            try_entries m i (e ∷ es)
              (record { group = g; any_under_cap = false; last_err = last; opened = none }) in
          elim p.opened [
            | none ↦ open_attempts m n (error_after p) p.group
            | some stream ↦ (p.group, ok stream)
          ]
    ]

unfoldable pub open_stream : Mux → ConnectionGroup → ConnectionGroup × Result OpenError ℕ
unfolding open_attempts
open_stream m g = open_attempts m max_retries none g
