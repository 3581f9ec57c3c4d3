-- ===== src/SqlCache/Connection.antt =====
-- db/sqlcache/pool.go: poolConn, a logical connection over the backend's pool.
-- A logical connection takes a physical one only when it must: for statements that are no reads,
-- and for transactions. What the backend answers (whether it has a connection, whether it begins a
-- transaction) is an argument.
pub mod Properties
pub mod Tests
use request_generator.Common.{
  ℕ, Bool, true, false, not, ◌&&◌, ◌||◌, Option, none, some, List, [], ◌∷◌, ◌++◌, if◌then◌else◌,
}
use request_generator.SqlCache.Scanner.{read_only, session_changed}

pub record Conn : Type 0 where
  pub pinned : Bool
  pub tx : Bool
  pub dirty : Bool
  pub closed : Bool

abbrev pub fresh : Conn
fresh = record { pinned = false; tx = false; dirty = false; closed = false }

-- Where a statement runs: in the transaction, on the pinned connection, by the caller's prepared
-- statement, or by the shared statement of its text.
pub data Route : Type 0 where
  transaction pinned_connection prepared_statement shared_statement : Route

-- The connection after `pin`, if the backend gave one where one was needed.
unfoldable pub pin : Bool → Conn → Option Conn
pin available c =
    if c.pinned then some c else if available then some (record c { pinned = true }) else none

module _ (to_upper : List ℕ → List ℕ) where
  unfoldable pub track : List ℕ → Conn → Conn
  track s c = record c { dirty = c.dirty || session_changed to_upper s }

  abbrev pub query_route : Bool → Conn → Route
  query_route prepared c =
      if c.tx
      then transaction
      else if c.pinned
      then pinned_connection
      else if prepared
      then prepared_statement
      else shared_statement

  -- Whether the result cache may serve the query, and the route of a query that runs.
  abbrev pub routed : Bool → Bool → Conn → Bool × Route
  routed eligible prepared c = (eligible && (not c.pinned && not c.tx), query_route prepared c)

  -- `query`; `none` is the error of a checkout that failed.
  unfoldable pub query : Bool → Bool → List ℕ → Conn → Option (Bool × Route) × Conn
  query available prepared s c =
      if read_only to_upper s then (some (routed true prepared c), c) else elim (pin available c) [
        | none ↦ (none, c)
        | some d ↦ (some (routed false prepared (track s d)), track s d)
      ]

  unfoldable pub exec : Bool → List ℕ → Conn → Option Route × Conn
  exec available s c = elim (pin available c) [
    | none ↦ (none, c)
    | some d ↦ (some (if d.tx then transaction else pinned_connection), track s d)
  ]

-- `BeginTx`, with whether the backend has a connection and begins the transaction on it.
unfoldable pub begin_tx : Bool → Bool → Conn → Bool × Conn
begin_tx available begins c = elim (pin available c) [
  | none ↦ (false, c)
  | some d ↦ if begins then (true, record d { tx = true }) else (false, d)
]

-- Commit and Rollback, whatever the backend answers.
unfoldable pub end_tx : Conn → Conn
end_tx c = record c { tx = false }

-- What `release` does to the physical connection.
pub data Effect : Type 0 where
  rolls_back discards gives_back : Effect

unfoldable pub release : Conn → Conn × List Effect
release c = (
  record c { tx = false; pinned = false; dirty = false },
  (if c.tx then rolls_back ∷ [] else [])
      ++ (if c.pinned
          then (if c.dirty then discards ∷ gives_back ∷ [] else gives_back ∷ [])
          else []),
)

-- `IsValid` releases too, and `Close` marks the connection.
unfoldable pub is_valid : Conn → Bool × Conn
is_valid c = (not c.closed, (release c).0)

unfoldable pub close : Conn → Conn
close c = record (release c).0 { closed = true }

-- One call on a checked-out connection.
pub data Call : Type 0 where
  queries : Bool → Bool → List ℕ → Call
  executes : Bool → List ℕ → Call
  begins_tx : Bool → Bool → Call
  ends_tx : Call

module _ (to_upper : List ℕ → List ℕ) where
  unfoldable pub apply : Call → Conn → Conn
  apply (queries available prepared s) c = (query to_upper available prepared s c).1
  apply (executes available s) c = (exec to_upper available s c).1
  apply (begins_tx available begins) c = (begin_tx available begins c).1
  apply ends_tx c = end_tx c

  unfoldable pub run : List Call → Conn → Conn
  run [] c = c
  run (x ∷ xs) c = run xs (apply x c)
