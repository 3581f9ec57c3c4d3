-- ===== src/SqlCache/Connection/Properties.antt =====
-- db/sqlcache/pool.go: a changed session never leaks into the backend's pool or into the cache.
use request_generator.Common.{
  ℕ, ◌≡◌, Bool, true, false, some, List, [], ◌∷◌, ◌++◌, if◌then◌else◌, arith, ◌⊎◌, ◌↔◌, All, refl,
}
use request_generator.SqlCache.Scanner.{read_only, session_changed}
use request_generator.SqlCache.Connection.{
  Conn, Route, transaction, prepared_statement, shared_statement, pin, track, query, exec, begin_tx,
  end_tx, rolls_back, discards, gives_back, release, Call, queries, executes, begins_tx, ends_tx,
  apply, run, fresh,
}

-- A transaction and a changed session have their physical connection.
pub record Tidy (c : Conn) : Type 0 where
  pub tx_pinned : c.tx ≡ true → c.pinned ≡ true
  pub dirty_pinned : c.dirty ≡ true → c.pinned ≡ true

module _ (to_upper : List ℕ → List ℕ) where
  apply-Tidy : (x : Call) (c : Conn) → Tidy c → Tidy (apply to_upper x c)
  unfolding apply query exec begin_tx end_tx pin track
  apply-Tidy (queries available prepared s) c v = ground arith
  apply-Tidy (executes available s) c v = ground arith
  apply-Tidy (begins_tx available begins) c v = ground arith
  apply-Tidy ends_tx c v = ground arith

  -- Until its release a connection that is dirty stays so.
  apply-dirty : (x : Call) (c : Conn) → c.dirty ≡ true → (apply to_upper x c).dirty ≡ true
  unfolding apply query exec begin_tx end_tx pin track
  apply-dirty (queries available prepared s) c v = ground arith
  apply-dirty (executes available s) c v = ground arith
  apply-dirty (begins_tx available begins) c v = ground arith
  apply-dirty ends_tx c v = ground arith

  run-dirty :
      (xs : List Call) (c : Conn)
      → Tidy c
      → c.dirty ≡ true
      → Tidy (run to_upper xs c) × ((run to_upper xs c).dirty ≡ true)
  unfolding run
  run-dirty [] c v d = (v, d)
  run-dirty (x ∷ xs) c v d =
      run-dirty xs (apply to_upper x c) (apply-Tidy x c v) (apply-dirty x c d)

  pub run-Tidy : (xs : List Call) (c : Conn) → Tidy c → Tidy (run to_upper xs c)
  unfolding run
  run-Tidy [] c v = v
  run-Tidy (x ∷ xs) c v = run-Tidy xs (apply to_upper x c) (apply-Tidy x c v)

  fresh-Tidy : Tidy fresh
  fresh-Tidy = record { tx_pinned = λ e. cc; dirty_pinned = λ e. cc }

  -- The call runs a statement that changes the session, on a connection of its own.
  abbrev pub Changes : Call → Conn → Type 0
  Changes (queries available prepared s) c =
      (read_only to_upper s ≡ false)
      × ((x : Bool × Route) × ((query to_upper available prepared s c).0 ≡ some x))
      × (session_changed to_upper s ≡ true)
  Changes (executes available s) c =
      ((r : Route) × ((exec to_upper available s c).0 ≡ some r))
      × (session_changed to_upper s ≡ true)
  Changes (begins_tx available begins) c = ⊥
  Changes ends_tx c = ⊥

  marked : (x : Call) (c : Conn) → Changes x c → (apply to_upper x c).dirty ≡ true
  unfolding apply query exec pin track
  marked (queries available prepared s) c (other_than_read, (x, e), changed) = ground arith
  marked (executes available s) c ((r, e), changed) = ground arith
  marked (begins_tx available begins) c h = absurd h
  marked ends_tx c h = absurd h

  -- After any calls, if a statement that changes the session runs by Exec, or by Query as a statement
  -- that is no read, then whatever is called next, the release of the connection discards the
  -- physical connection before giving it back.
  pub run-discarded :
      (before after : List Call) (x : Call)
      → Changes x (run to_upper before fresh)
      → let c = run to_upper after (apply to_upper x (run to_upper before fresh)) in
        (release c).1 ≡ (if c.tx then rolls_back ∷ [] else []) ++ discards ∷ gives_back ∷ []
  unfolding release
  run-discarded before after x h =
      let start : Conn = run to_upper before fresh in
      let (v, d) =
        run-dirty after (apply to_upper x start)
          (apply-Tidy x start (run-Tidy before fresh fresh-Tidy)) (marked x start h) in
      ground (arith, v.dirty_pinned)

  -- A call that takes no physical connection: a read, one that gets none, or the end of a transaction.
  abbrev pub Untouched : Call → Type 0
  Untouched (queries available prepared s) = (read_only to_upper s ≡ true) ⊎ (available ≡ false)
  Untouched (executes available s) = available ≡ false
  Untouched (begins_tx available begins) = available ≡ false
  Untouched ends_tx = Unit {0}

  apply-pinned :
      (x : Call) (c : Conn)
      → ((apply to_upper x c).pinned ≡ false) ↔ ((c.pinned ≡ false) × Untouched x)
  unfolding apply query exec begin_tx end_tx pin track
  apply-pinned (queries available prepared s) c = ground arith
  apply-pinned (executes available s) c = ground arith
  apply-pinned (begins_tx available begins) c = ground arith
  apply-pinned ends_tx c = ground arith

  run-pinned :
      (xs : List Call) (c : Conn)
      → ((run to_upper xs c).pinned ≡ false) ↔ ((c.pinned ≡ false) × All Untouched xs)
  unfolding run
  run-pinned [] c = ground arith
  run-pinned (x ∷ xs) c =
      let (to, from) = run-pinned xs (apply to_upper x c) in
      let (to_one, from_one) = apply-pinned x c in
      (
        λ e. let (one, rest) = to e in let (old, free) = to_one one in (old, (free, rest)),
        λ (old, (free, rest)). from (from_one (old, free), rest),
      )

  query-routed :
      (available prepared : Bool) (s : List ℕ) (c : Conn) (r : Route)
      → Tidy c
      → ((query to_upper available prepared s c).0 ≡ some (true, r)) ↔ (
          (read_only to_upper s ≡ true)
          × (c.pinned ≡ false)
          × (r ≡ (if prepared then prepared_statement else shared_statement)))
  unfolding query pin track
  query-routed available prepared s c r v =
      (λ e. ground arith, λ (reads, free, e). ground (arith, v.tx_pinned, reads, free, e))

  -- The result cache may serve a query exactly if the statement is a read and no call of the same
  -- checkout before it took a physical connection: each was a read, or did not get one, or ended a
  -- transaction. If such a query runs, it goes to a statement of the backend's pool.
  pub query-eligible :
      (calls : List Call) (available prepared : Bool) (s : List ℕ) (r : Route)
      → ((query to_upper available prepared s (run to_upper calls fresh)).0 ≡ some (true, r)) ↔ (
          (read_only to_upper s ≡ true)
          × All Untouched calls
          × (r ≡ (if prepared then prepared_statement else shared_statement)))
  query-eligible calls available prepared s r =
      let (to, from) =
        query-routed available prepared s (run to_upper calls fresh) r
          (run-Tidy calls fresh fresh-Tidy) in
      (
        λ e.
            let (reads, free, routed) = to e in
            (reads, ((run-pinned calls fresh).0 free).1, routed),
        λ (reads, free, routed). from (reads, (run-pinned calls fresh).1 (refl, free), routed),
      )

  -- After any calls that leave a transaction open, every query and every Exec runs in it, and no
  -- query is served by the result cache; a pool without connections cannot make them fail.
  pub in_transaction :
      (calls : List Call) (available prepared : Bool) (s : List ℕ)
      → (run to_upper calls fresh).tx ≡ true
      → ((query to_upper available prepared s (run to_upper calls fresh)).0
          ≡ some (false, transaction))
        × ((exec to_upper available s (run to_upper calls fresh)).0 ≡ some transaction)
  unfolding query exec pin track
  in_transaction calls available prepared s e =
      ground (arith, (run-Tidy calls fresh fresh-Tidy).tx_pinned e)
