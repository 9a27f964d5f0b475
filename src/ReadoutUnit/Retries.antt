-- ===== src/ReadoutUnit/Retries.antt =====
-- The connections of a readout unit whose builder units come up at some time.
use lseb.Prelude.{
  ℕ, zero, suc, ◌+◌, ◌-◌, ◌≤◌, ◌<◌, ◌≡◌, refl, ap, ◌∙◌, arith, ok, err, assert_failed, true, false,
  Bool, List, [], ◌∷◌, ◌++◌, take, drop, some, none, ◌==◌, le→leb, if◌then◌else◌,
}
use lseb.Socket.{Socket, create, register_memory}
use lseb.ReadoutUnit.{iota, create_sequence}
use lseb.ReadoutUnit.Sequence.{drop-iota, take-iota}
use lseb.ReadoutUnit.Connecting.{
  Connections, emplace, Attempt, refused, connected, connect_node, connect_nodes, connect,
}
use lseb.ReadoutUnit.Rows.{all_from, all_from-append, emplace-last, emplace-between, emplace-twice}

-- Some tries without success, then one that connects, and what comes after.
abbrev pub tries : ℕ → Attempt → List Attempt → List Attempt
tries zero attempt later = attempt ∷ later
tries (suc n) attempt later = refused ∷ tries n attempt later

-- A connection with its memory registered.
abbrev pub ready : ℕ → ℕ → ℕ → Socket
ready credits buffer size = record {
  mrs = record { addr = buffer; length = size } ∷ [];
  credits = credits;
  pending_send = [];
  pending_recv = [];
}

module _ (credits buffer size : ℕ) where
  connect_node-tries :
      (id n : ℕ) (later : List Attempt) (conns conns' : Connections)
      → emplace id (ready credits buffer size) conns ≡ some conns'
      → connect_node credits buffer size id (tries n (connected true) later) conns
        ≡ ok (conns', true)
  unfolding connect_node create register_memory
  connect_node-tries id zero later conns conns' e = rw (connect_node, e)
  connect_node-tries id (suc n) later conns conns' e = connect_node-tries id n later conns conns' e

module _ (credits buffer size : ℕ) (delay : ℕ → ℕ) (later : ℕ → List Attempt) where
  abbrev attempts : ℕ → List Attempt
  attempts id = tries (delay id) (connected true) (later id)

  abbrev conn : Socket
  conn = ready credits buffer size

  -- The nodes from the unit's successor on.
  upper_row :
      (f k m : ℕ) (more : List ℕ)
      → connect_nodes credits buffer size (iota (f + k) m ++ more) attempts (all_from conn f k)
        ≡ connect_nodes credits buffer size more attempts (all_from conn f (k + m))
  unfolding iota connect_nodes
  upper_row f k zero more =
      ap (λ n. connect_nodes credits buffer size more attempts (all_from conn f n)) {x = k}
        {y = k + 0} (omega arith)
  upper_row f k (suc m) more =
      rw
        (
          connect_nodes,
          connect_node-tries credits buffer size (f + k) (delay (f + k)) (later (f + k))
              (all_from conn f k) (all_from conn f (suc k)) (emplace-last conn f k (f + k) refl),
        )
        (ap
            (λ j.
              connect_nodes credits buffer size (iota j m ++ more) attempts
                (all_from conn f (suc k)))
            {x = suc (f + k)} {y = f + suc k} (omega arith)
          ∙ upper_row f (suc k) m more
          ∙ ap (λ n. connect_nodes credits buffer size more attempts (all_from conn f n))
              {x = suc k + m} {y = k + suc m} (omega arith))

  lower_row :
      (k m high n : ℕ)
      → k + m ≤ high
      → connect_nodes credits buffer size
          (iota k m)
          attempts
          (all_from conn 0 k ++ all_from conn high n)
        ≡ ok (all_from conn 0 (k + m) ++ all_from conn high n, true)
  unfolding iota connect_nodes
  lower_row k zero high n h =
      ap (λ j. ok (all_from conn 0 j ++ all_from conn high n, true)) {x = k} {y = k + 0}
        (omega arith)
  lower_row k (suc m) high n h =
      rw
        (
          connect_nodes,
          connect_node-tries credits buffer size k (delay k) (later k)
              (all_from conn 0 k ++ all_from conn high n)
              (all_from conn 0 (suc k) ++ all_from conn high n)
              (emplace-between conn 0 k high n k (omega arith) (omega arith)),
        )
        (lower_row (suc k) m high n (omega arith)
          ∙ ap (λ j. ok (all_from conn 0 j ++ all_from conn high n, true)) {x = suc k + m}
              {y = k + suc m} (omega arith))

  both_rows :
      (f nodes : ℕ)
      → f ≤ nodes
      → connect_nodes credits buffer size
          (drop f (iota 0 nodes) ++ take f (iota 0 nodes))
          attempts
          []
        ≡ ok (all_from conn 0 nodes, true)
  both_rows f nodes h =
      (λ t.
        connect_nodes credits buffer size (drop-iota 0 nodes f t ++ take-iota 0 nodes f h t)
          attempts [])
      ∙ ap (λ j. connect_nodes credits buffer size (iota j (nodes - f) ++ iota 0 f) attempts [])
          {x = 0 + f} {y = f + 0} (omega arith)
      ∙ upper_row f 0 (nodes - f) (iota 0 f)
      ∙ lower_row 0 f f (0 + (nodes - f)) (omega arith)
      ∙ ap (λ l. ok (l, true))
          (all_from-append conn 0 (0 + f) f (0 + (nodes - f)) nodes (omega arith) (omega arith))

-- If each builder unit takes the connection after some tries in vain, however many, and the
-- registration of the memory succeeds, then `connect` ends: the unit has one connection to each
-- node, in the order of the nodes, with its credits and the memory registered, and nothing pending;
-- no assertion fails.
pub connect-ready :
    (credits buffer size id nodes : ℕ) (delay : ℕ → ℕ) (later : ℕ → List Attempt)
    → id < nodes
    → connect credits buffer size id nodes
        (λ node. tries (delay node) (connected true) (later node))
      ≡ ok (all_from (ready credits buffer size) 0 nodes, true)
unfolding connect create_sequence
connect-ready credits buffer size id nodes delay later h =
    let f = if id + 1 == nodes then 0 else id + 1 in
    let fits : f ≤ nodes = ground arith in
    rw (le→leb f nodes fits) (both_rows credits buffer size delay later f nodes fits)

module _ (credits buffer size id : ℕ) where
  connect_node-present :
      (k : ℕ) (registered : Bool) (later : List Attempt) (conns : Connections)
      → ((d : Socket) → emplace id d conns ≡ none)
      → connect_node credits buffer size id (tries k (connected registered) later) conns
        ≡ err assert_failed
  unfolding connect_node
  connect_node-present zero registered later conns g = rw (connect_node, g)
  connect_node-present (suc k) registered later conns g =
      connect_node-present k registered later conns g

  -- If a builder unit takes the connection but the registration of the memory fails, the next
  -- connection that it takes fails the assertion that there is none, however many tries lie before
  -- and between.
  pub connect_node-again :
      (n k : ℕ) (registered : Bool) (later : List Attempt) (conns conns' : Connections)
      → emplace id (create credits) conns ≡ some conns'
      → connect_node credits buffer size id
          (tries n (connected false) (tries k (connected registered) later))
          conns
        ≡ err assert_failed
  unfolding connect_node create register_memory
  connect_node-again zero k registered later conns conns' e =
      rw (connect_node, e)
        (connect_node-present k registered later conns'
          (λ d. emplace-twice id (create credits) d conns conns' e))
  connect_node-again (suc n) k registered later conns conns' e =
      connect_node-again n k registered later conns conns' e
