-- ===== src/Db/SelectCache/Properties.antt =====
-- db/select_cache.go: what the List SELECT cache promises.
use request_generator.Common.{
  ℕ, ◌+◌, ◌≤◌, ◌<◌, ◌≡◌, ◌↔◌, ◌≢◌, ap, sym, ◌∙◌, refl, inl, inr, false, Option, none, some, List,
  Option-cases, length, arith,
}
use request_generator.Common.Assoc.{
  lookup, delete, lookup-delete, lookup-insert, length-delete, total,
}
use request_generator.Db.SelectCache.Rows.{Row, Result}
use request_generator.Db.SelectCache.{
  Options, Entry, Outcome, failed, oversized, captured, Cache, empty, purge, cleaned, Found, serves,
  waits, leads, miss, find, look, store, complete, await, reports, queries_itself,
}
use request_generator.Db.SelectCache.Invariant.{
  Purged, purge-Purged, kept, size, Inv, Reach, Reach-Inv, look-Inv, complete-Inv,
}

-- In every state that requests can bring about, the byte count is exactly what the entries hold,
-- and entries, bytes and reads under way stay within their limits.
pub Reach-limits :
    (o : Options) (c : Cache)
    → Reach (empty o) c
    → (c.bytes ≡ total size c.entries)
      × (c.bytes ≤ c.options.max_bytes)
      × (length c.entries ≤ c.options.max_entries)
      × (length c.flights ≤ c.options.max_entries)
Reach-limits o c r = let v = Reach-Inv o r in (v.sized, v.small, v.few, v.few_flights)

cleanup : (now : ℕ) (c : Cache) → Inv c → Purged now c.bytes c.entries (purge now c.entries c.bytes)
cleanup now c v = purge-Purged now c.entries c.bytes v.keys_once (omega (arith, v.sized))

look-stale :
    (now k : ℕ) (c : Cache)
    → Inv c
    → kept now (lookup k c.entries) ≡ none
    → look now k c ≡ miss k (cleaned now c)
unfolding look find
look-stale now k c v e = rw ((cleanup now c v).exact k, e, find) refl

look-fresh :
    (now k : ℕ) (c : Cache) (e : Entry)
    → Inv c
    → kept now (lookup k c.entries) ≡ some e
    → (look now k c).0 ≡ serves e.result.rows
unfolding look find
look-fresh now k c e v h = rw ((cleanup now c v).exact k, h, find) refl

kept-some :
    (now : ℕ) (o : Option Entry) (e : Entry)
    → kept now o ≡ some e
    → (o ≡ some e) × (now < e.expires)
kept-some now none e h = cc
kept-some now (some x) e h = ground arith

miss-leads :
    (k i : ℕ) (c : Cache)
    → (miss k c).0 ≡ leads i
    → (lookup k c.flights ≡ none) × (lookup k (miss k c).1.flights ≡ some i)
unfolding miss
miss-leads k i c e = ground (arith, lookup-insert k k c.next c.flights)

miss-serves : (k : ℕ) (c : Cache) (rows : List Row) → (miss k c).0 ≢ serves rows
unfolding miss
miss-serves k c rows e = ground arith

serves_inj : {xs ys : List Row} → serves xs ≡ serves ys → xs ≡ ys
serves_inj e = cc

serves-leads : {xs : List Row} {i : ℕ} → serves xs ≢ leads i
serves-leads e = cc

miss-waits : (k i : ℕ) (c : Cache) → lookup k c.flights ≡ some i → (miss k c).0 ≡ waits i
unfolding miss
miss-waits k i c e = rw (e, miss) refl

-- In a reachable state a lookup serves rows exactly if the key has an entry that has not expired
-- and these are its rows.
look-serves :
    (o : Options) (c : Cache) (now k : ℕ) (rows : List Row)
    → Reach (empty o) c
    → ((look now k c).0 ≡ serves rows)
      ↔ ((e : Entry) × (lookup k c.entries ≡ some e) × (now < e.expires) × (e.result.rows ≡ rows))
look-serves o c now k rows r =
    (there, λ (e, f, g, h). look-fresh now k c e v (ground arith) ∙ ap serves h)
  where
    v : Inv c
    v = Reach-Inv o r

    there :
        (look now k c).0 ≡ serves rows
        → (e : Entry) × (lookup k c.entries ≡ some e) × (now < e.expires) × (e.result.rows ≡ rows)
    there h = elim (Option-cases (kept now (lookup k c.entries))) [
      | inl n ↦ absurd (
          miss-serves k (cleaned now c) rows
            (sym (ap (λ (x : Found × Cache). x.0) (look-stale now k c v n)) ∙ h))
      | inr (e, n) ↦
          let (f, g) = kept-some now (lookup k c.entries) e n in
          (e, f, g, serves_inj (sym (look-fresh now k c e v n) ∙ h))
    ]

-- In a reachable state a lookup becomes the leader of a new read only if no read of its key is
-- under way and no entry of its key is fresh, and the next lookup of the key waits for that read.
look-leads :
    (o : Options) (c : Cache) (now later k i : ℕ)
    → Reach (empty o) c
    → (look now k c).0 ≡ leads i
    → (lookup k c.flights ≡ none)
      × (kept now (lookup k c.entries) ≡ none)
      × ((look later k (look now k c).1).0 ≡ waits i)
look-leads o c now later k i r e = elim (Option-cases (kept now (lookup k c.entries))) [
  | inr (x, n) ↦ absurd (serves-leads (sym (look-fresh now k c x v n) ∙ e))
  | inl n ↦
      let same = look-stale now k c v n in
      let (f, g) =
        miss-leads k i (cleaned now c) (sym (ap (λ (x : Found × Cache). x.0) same) ∙ e) in
      let started = ap (λ (x : Found × Cache). lookup k x.1.flights) same ∙ g in
      let w = look-Inv now k c v in
      (
        f,
        n,
        ap (λ (x : Found × Cache). x.0)
              (look-stale later k (look now k c).1 w (rw (w.apart k i started) refl))
            ∙ miss-waits k i (cleaned later (look now k c).1) started,
      )
]
  where
    v : Inv c
    v = Reach-Inv o r

-- In a reachable state, when the leader of a read completes with a result that is kept, lookups
-- serve its rows until its deadline.
pub complete-look :
    (o : Options) (c : Cache) (completed now later k i : ℕ) (r : Result)
    → Reach (empty o) c
    → lookup k c.flights ≡ some i
    → now < completed + c.options.ttl
    → length c.entries < c.options.max_entries
    → c.bytes + r.bytes ≤ c.options.max_bytes
    → later < completed + c.options.ttl
    → (look later k (complete completed now k i (captured r) c)).0 ≡ serves r.rows
complete-look o c completed now later k i r s f live room light before =
    look-fresh later k (complete completed now k i (captured r) c) entry
      (complete-Inv completed now k i (captured r) c v f) held
  where
    v : Inv c
    v = Reach-Inv o s

    entry : Entry
    entry = record { result = r; expires = completed + c.options.ttl }

    held : kept later (lookup k (complete completed now k i (captured r) c).entries) ≡ some entry
    held = unfold complete store in ground (arith, lookup-insert k k entry c.entries)

miss-room :
    (k : ℕ) (c : Cache)
    → lookup k c.flights ≡ none
    → length c.flights < c.options.max_entries
    → (miss k c).0 ≡ leads c.next
unfolding miss
miss-room k c e h = ground arith

idle-leads :
    (now k : ℕ) (c : Cache)
    → Inv c
    → lookup k c.entries ≡ none
    → lookup k c.flights ≡ none
    → length c.flights < c.options.max_entries
    → (look now k c).0 ≡ leads c.next
idle-leads now k c v e f h =
    ap (λ (x : Found × Cache). x.0) (look-stale now k c v (rw e refl))
    ∙ miss-room k (cleaned now c) f h

-- In a reachable state a read that fails or is too large changes no entry. The waiters get its
-- error, or query themselves, and the next lookup of the key leads a new read.
complete-unkept :
    (o : Options) (c : Cache) (completed now later k i e : ℕ)
    → Reach (empty o) c
    → lookup k c.flights ≡ some i
    → ((complete completed now k i (failed e) c).entries ≡ c.entries)
      × ((complete completed now k i oversized c).entries ≡ c.entries)
      × (await false ((complete completed now k i (failed e) c).heap i) ≡ reports e)
      × (await false ((complete completed now k i oversized c).heap i) ≡ queries_itself)
      × ((look later k (complete completed now k i (failed e) c)).0 ≡ leads c.next)
      × ((look later k (complete completed now k i oversized c)).0 ≡ leads c.next)
unfolding complete await
complete-unkept o c completed now later k i e r f = (
  refl,
  refl,
  ground arith,
  ground arith,
  retried (failed e) refl refl refl refl,
  retried oversized refl refl refl refl,
)
  where
    v : Inv c
    v = Reach-Inv o r

    none_left : lookup k (delete k c.flights) ≡ none
    none_left = ground (arith, lookup-delete k k c.flights)

    room : length (delete k c.flights) < c.options.max_entries
    room = omega (arith, length-delete k i c.flights f, v.few_flights)

    retried :
        (x : Outcome)
        → (complete completed now k i x c).entries ≡ c.entries
        → (complete completed now k i x c).flights ≡ delete k c.flights
        → (complete completed now k i x c).options ≡ c.options
        → (complete completed now k i x c).next ≡ c.next
        → (look later k (complete completed now k i x c)).0 ≡ leads c.next
    retried x e g p n =
        idle-leads later k (complete completed now k i x c) (complete-Inv completed now k i x c v f)
          (ap (lookup k) e ∙ v.apart k i f) (ap (lookup k) g ∙ none_left) (ground (arith, room))
        ∙ ap leads n
