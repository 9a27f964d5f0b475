-- ===== src/ReadoutUnit/Polls.antt =====
-- The polls of a round of `run`, and the release of the multievents that were sent.
use mathlib.Core.List.{Perm, append_assoc, perm_append_comm}
use mathlib.Core.List.Perm
use mathlib.Core.Option.{some-injective}
use lseb.Prelude.{
  ℕ, zero, suc, ◌≡◌, ◌≢◌, refl, sym, ap, ◌∙◌, ◌⊎◌, eq→==, ne→==_false, map, Bool, List, [], ◌∷◌,
  ◌++◌, length, length-map, get_elem?, set, some, ok, inl, inr, if◌then◌else◌, ◌==◌,
}
use lseb.DataFormat.{Iovec}
use lseb.PendingMap.Laws.{keys, IsSorted}
use lseb.Socket.{Socket, Region, Poll, poll_completed_send, available_send}
use lseb.Socket.Polling.{collect-Collected}
use lseb.BuilderUnit.Owned.{bases}
use lseb.BuilderUnit.Posts.{Returns, returns, collect-ok}
use lseb.ReadoutUnit.{poll_connections}

-- The addresses that are pending on the connections.
abbrev pub sent : List Socket → List ℕ
sent [] = []
sent (conn ∷ conns) = keys conn.pending_send ++ sent conns

abbrev pub InOrder : List Socket → Type 0
InOrder [] = Unit {0}
InOrder (conn ∷ conns) = IsSorted conn.pending_send × InOrder conns

abbrev pub Absent : ℕ → List ℕ → Type 0
Absent id [] = Unit {0}
Absent id (j ∷ ids) = (id ≢ j) × Absent id ids

-- Node `id` is at exactly one place.
abbrev pub Once : ℕ → List ℕ → Type 0
Once id [] = ⊥
Once id (j ∷ ids) = ((id ≡ j) × Absent id ids) ⊎ ((id ≢ j) × Once id ids)

-- The nodes are distinct, each has a connection, and the library answers to its poll with pieces that are pending on
-- it, each once.
abbrev pub Polled : List Socket → (ℕ → Poll) → List ℕ → Type 0
Polled conns polls [] = Unit {0}
Polled conns polls (id ∷ ids) =
    ((conn : Socket) × (get_elem? conns id ≡ some conn) × Returns conn.pending_send (polls id))
    × Absent id ids
    × Polled conns polls ids

get_elem?-set_other :
    (conns : List Socket) (i j : ℕ) (conn : Socket)
    → i ≢ j
    → get_elem? (set conns i conn) j ≡ get_elem? conns j
get_elem?-set_other [] i j conn h = refl
get_elem?-set_other (c ∷ conns) zero zero conn h = absurd (h refl)
get_elem?-set_other (c ∷ conns) zero (suc j) conn h = refl
get_elem?-set_other (c ∷ conns) (suc i) zero conn h = refl
get_elem?-set_other (c ∷ conns) (suc i) (suc j) conn h =
    get_elem?-set_other conns i j conn (λ e. h (ap suc e))

get_elem?-set_self :
    (conns : List Socket) (id : ℕ) (conn conn' : Socket)
    → get_elem? conns id ≡ some conn
    → get_elem? (set conns id conn') id ≡ some conn'
get_elem?-set_self [] id conn conn' e = cc
get_elem?-set_self (c ∷ conns) zero conn conn' e = refl
get_elem?-set_self (c ∷ conns) (suc id) conn conn' e = get_elem?-set_self conns id conn conn' e

Polled-set :
    (conns : List Socket) (polls : ℕ → Poll) (id : ℕ) (conn : Socket) (ids : List ℕ)
    → Absent id ids
    → Polled conns polls ids
    → Polled (set conns id conn) polls ids
Polled-set conns polls id conn [] a p = tt
Polled-set conns polls id conn (j ∷ ids) a p =
    let (c, e, r) = p.0 in
    (
      (c, get_elem?-set_other conns id j conn a.0 ∙ e, r),
      p.1,
      Polled-set conns polls id conn ids a.1 p.2,
    )

to_front : (a b c : List ℕ) → Perm (a ++ (b ++ c)) (b ++ (a ++ c))
to_front a b c =
    rw (← append_assoc a b c, ← append_assoc b a c) (Perm.append_right c (perm_append_comm a b))

pub sent-set :
    (conns : List Socket) (id : ℕ) (conn conn' : Socket) (new : List ℕ)
    → get_elem? conns id ≡ some conn
    → Perm (keys conn.pending_send) (new ++ keys conn'.pending_send)
    → IsSorted conn'.pending_send
    → InOrder conns
    → Perm (sent conns) (new ++ sent (set conns id conn')) × InOrder (set conns id conn')
sent-set [] id conn conn' new e p s o = cc
sent-set (c ∷ conns) zero conn conn' new e p s o =
    let f = some-injective _ _ e in
    (
      rw f (
          Perm.trans (Perm.append_right (sent conns) p)
            (rw (append_assoc new (keys conn'.pending_send) (sent conns)) (Perm.refl _))),
      (s, o.1),
    )
sent-set (c ∷ conns) (suc id) conn conn' new e p s o =
    let (q, i) = sent-set conns id conn conn' new e p s o.1 in
    (
      Perm.trans (Perm.append_left (keys c.pending_send) q)
          (to_front (keys c.pending_send) new (sent (set conns id conn'))),
      (o.0, i),
    )

-- The registered regions of each connection.
abbrev pub regions : List Socket → List (List Region)
regions = map (λ conn. conn.mrs)

pub length-regions :
    (conns conns' : List Socket) → regions conns ≡ regions conns' → length conns ≡ length conns'
length-regions conns conns' e =
    sym (length-map (λ c. c.mrs) conns) ∙ ap length e ∙ length-map (λ c. c.mrs) conns'

pub regions-set :
    (conns : List Socket) (id : ℕ) (conn conn' : Socket)
    → get_elem? conns id ≡ some conn
    → conn'.mrs ≡ conn.mrs
    → regions (set conns id conn') ≡ regions conns
regions-set [] id conn conn' e h = cc
regions-set (c ∷ conns) zero conn conn' e h =
    ap (λ r. r ∷ regions conns) (h ∙ ap (λ s. s.mrs) (sym (some-injective _ _ e)))
regions-set (c ∷ conns) (suc id) conn conn' e h =
    ap (λ l. c.mrs ∷ l) (regions-set conns id conn conn' e h)

-- What the polls know of the connection of `seq_id`: nothing new if its node is not polled, and
-- whether it has a credit then if the node is polled.
pub record Known (seq_id : ℕ) (ids : List ℕ) (conns conns' : List Socket) (avail avail' : Bool)
    : Type 0 where
  pub unseen :
      Absent seq_id ids → (avail' ≡ avail) × (get_elem? conns' seq_id ≡ get_elem? conns seq_id)
  pub seen :
      Once seq_id ids
      → (conn : Socket) × (get_elem? conns' seq_id ≡ some conn) × (avail' ≡ available_send conn)

Known-poll :
    (ids : List ℕ) (seq_id id : ℕ) (conns : List Socket) (conn conn' : Socket) (avail : Bool)
    (conns' : List Socket) (last : Bool)
    → get_elem? conns id ≡ some conn
    → Known seq_id ids
        (set conns id conn')
        conns'
        (if seq_id == id then available_send conn' else avail)
        last
    → Known seq_id (id ∷ ids) conns conns' avail last
Known-poll ids seq_id id conns conn conn' avail conns' last e k = record {
  unseen = λ a.
      let (f, g) = k.unseen a.1 in
      (
        f ∙ rw (ne→==_false seq_id id a.0),
        g ∙ get_elem?-set_other conns id seq_id conn' (λ s. a.0 (sym s)),
      );
  seen = λ o. elim o [
    | inl (same, a) ↦
        let (f, g) = k.unseen a in
        (
          conn',
          g ∙ ap (get_elem? (set conns id conn')) same ∙ get_elem?-set_self conns id conn conn' e,
          f ∙ rw (eq→== seq_id id same),
        )
    | inr (other, later) ↦ k.seen later
  ];
}

pub at_place :
    (conns : List Socket) (id : ℕ) (conn : Socket)
    → InOrder conns
    → get_elem? conns id ≡ some conn
    → IsSorted conn.pending_send
at_place [] id conn o e = cc
at_place (c ∷ conns) zero conn o e = rw (← some-injective _ _ e) o.0
at_place (c ∷ conns) (suc id) conn o e = at_place conns id conn o.1 e

poll-sent :
    (conn : Socket) (poll : Poll)
    → IsSorted conn.pending_send
    → Returns conn.pending_send poll
    → (conn' : Socket) × (iovs : List Iovec) × (poll_completed_send conn poll ≡ (conn', ok iovs))
      × Perm (keys conn.pending_send) (bases iovs ++ keys conn'.pending_send)
      × IsSorted conn'.pending_send
      × (conn'.mrs ≡ conn.mrs)
unfolding poll_completed_send
poll-sent conn poll s (returns wcs others p ok_all) =
    let (m, iovs, e) = collect-ok wcs others conn.pending_send p ok_all in
    let c = rw e at (collect-Collected wcs conn.pending_send s) in
    elim c.gives [
      | inl (r, iovs', f, b, k) ↦ (
        record conn { pending_send = m },
        iovs',
        rw e (ap (λ t. (record conn { pending_send = m }, t)) f),
        rw b c.taken,
        c.sorted,
        refl,
      )
      | inr (x, f, why) ↦ cc
    ]

-- What the polls give is what is pending no longer. They leave the regions of the memory, and know whether the node
-- has a credit.
pub poll_connections-sent :
    (ids : List ℕ) (seq_id : ℕ) (conns : List Socket) (polls : ℕ → Poll) (avail : Bool)
    → InOrder conns
    → Polled conns polls ids
    → (conns' : List Socket) × (wr : List ℕ) × (avail' : Bool) × (poll_connections ids seq_id conns
          polls avail
        ≡ ok (conns', (wr, avail')))
      × Perm (sent conns) (wr ++ sent conns')
      × InOrder conns'
      × (regions conns' ≡ regions conns)
      × Known seq_id ids conns conns' avail avail'
unfolding poll_connections
poll_connections-sent [] seq_id conns polls avail o p = (
  conns,
  [],
  avail,
  refl,
  Perm.refl _,
  o,
  refl,
  record { unseen = λ a. (refl, refl); seen = λ o. absurd o },
)
poll_connections-sent (id ∷ ids) seq_id conns polls avail o p =
    let (conn, e, r) = p.0 in
    let (conn', iovs, f, taken, s, mrs) =
      poll-sent conn (polls id) (at_place conns id conn o e) r in
    let (all, o') = sent-set conns id conn conn' (bases iovs) e taken s o in
    let avail' = if seq_id == id then available_send conn' else avail in
    let (conns', wr, last, g, rest, o'', kept, known) =
      poll_connections-sent ids seq_id (set conns id conn') polls avail' o'
        (Polled-set conns polls id conn' ids p.1 p.2) in
    (
      conns',
      bases iovs ++ wr,
      last,
      rw (poll_connections, e, f, g),
      Perm.trans all (
          Perm.trans (Perm.append_left (bases iovs) rest)
            (rw (append_assoc (bases iovs) wr (sent conns')) (Perm.refl _))),
      o'',
      kept ∙ regions-set conns id conn conn' e mrs,
      Known-poll ids seq_id id conns conn conn' avail conns' last e known,
    )
