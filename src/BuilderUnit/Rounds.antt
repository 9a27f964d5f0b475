-- ===== src/BuilderUnit/Rounds.antt =====
-- The builder unit from its connections on: the rounds of `run` one after the other.
use mathlib.Core.Path.{subst}
use lseb.Prelude.{
  ℕ, zero, suc, ◌+◌, ◌%◌, ◌≤◌, ◌<◌, ◌≡◌, refl, sym, ap, ◌∙◌, arith, true, List, [], ◌∷◌, length, ok,
  err, ok-injective, inl, inr, ℕ_discrete,
}
use lseb.DataFormat.{EventHeader, Memory}
use lseb.Socket.{Poll}
use lseb.BuilderUnit.{BuilderUnit, Link, connect_links, connect_all, run_once}
use lseb.BuilderUnit.Steps.{Room, connect-Owned}
use lseb.BuilderUnit.Run.{AllOwned, AllOwned-links, AllReturn, Round, run_once-Round}

-- The sizes of the first `n` nodes' memory fit their types.
abbrev pub Rooms : BuilderUnit → ℕ → Type 0
Rooms bu zero = Unit {0}
Rooms bu (suc n) = Room bu n × Rooms bu n

Rooms-at : (bu : BuilderUnit) (n i : ℕ) → Rooms bu n → i < n → Room bu i
Rooms-at bu zero i r h = absurd (omega arith)
Rooms-at bu (suc n) i r h = elim (ℕ_discrete i n) [
  | yes same ↦ rw same r.0
  | no other ↦ Rooms-at bu n i r.1 (omega arith)
]

-- No link has received a piece.
abbrev pub Fresh : List Link → Type 0
Fresh [] = Unit {0}
Fresh (link ∷ links) = (link.iov_vect ≡ []) × Fresh links

-- The builder unit that `connect` leaves.
abbrev pub connected : BuilderUnit → ℕ → (ℕ → ℕ) → BuilderUnit
connected bu nodes ret = elim (connect_all bu nodes (λ node. true) ret) [
  | ok bu' ↦ bu'
  | err e ↦ bu
]

module _ (bu : BuilderUnit) (ret : ℕ → ℕ) (posts : (p : ℕ) → ret p ≡ 0) where
  connect_links-Owned :
      (i n total : ℕ)
      → Rooms bu total
      → i + n ≤ total
      → (links : List Link) × (connect_links bu i n (λ node. true) ret ≡ ok links)
        × (length links ≡ n)
        × Fresh links
        × AllOwned bu i links
  unfolding connect_links
  connect_links-Owned i zero total r h = ([], refl, refl, tt, tt)
  connect_links-Owned i (suc n) total r h =
      let room = Rooms-at bu total i r (omega arith) in
      let (link, e, empty, o) = connect-Owned bu i room ret posts in
      let (links, f, same, fresh, os) = connect_links-Owned (suc i) n total r (omega arith) in
      (link ∷ links, rw (e, f), ap suc same, (empty, fresh), ((room, o), os))

-- A builder unit between two rounds: the memory of each of its nodes is posted or received, and aligned.
pub record Builds (nodes : ℕ) (bu : BuilderUnit) : Type 0 where
  pub owned : AllOwned bu 0 bu.links
  pub nodes_at : length bu.links ≡ nodes
  pub data_aligned : bu.data_ptr % 8 ≡ 0
  pub size_aligned : bu.max_fragment_size % 8 ≡ 0

-- Rounds that return. `headers` is what stands in the memory at each round; the library answers with pieces that are
-- posted, and takes the posts.
pub data Rounds (first : BuilderUnit) : BuilderUnit → Type 0 where
  begin : Rounds first first
  next :
      (bu bu' : BuilderUnit) (headers : Memory EventHeader) (polls : ℕ → Poll) (ret : ℕ → ℕ)
      → Rounds first bu
      → AllReturn 0 bu.links polls
      → ((p : ℕ) → ret p ≡ 0)
      → run_once bu headers polls ret ≡ ok bu'
      → Rounds first bu'

module _ {nodes : ℕ} (some_nodes : 0 < nodes) where
  round-Builds :
      (bu bu' : BuilderUnit) (headers : Memory EventHeader) (polls : ℕ → Poll) (ret : ℕ → ℕ)
      → Builds nodes bu
      → AllReturn 0 bu.links polls
      → ((p : ℕ) → ret p ≡ 0)
      → run_once bu headers polls ret ≡ ok bu'
      → Builds nodes bu'
  round-Builds bu bu' headers polls ret b r z e =
      let (_, _, _, _, ends) =
        run_once-Round bu headers polls ret z b.data_aligned b.size_aligned
          (omega (arith, b.nodes_at, some_nodes)) b.owned r in
      elim ends [
        | inl (bu'', f, _, o, k) ↦ subst (Builds nodes) (ok-injective (sym f ∙ e)) (record {
          owned = o;
          nodes_at = k.nodes ∙ b.nodes_at;
          data_aligned = ap (λ p. p % 8) k.data_at ∙ b.data_aligned;
          size_aligned = ap (λ p. p % 8) k.size_at ∙ b.size_aligned;
        })
        | inr (f, _, _) ↦ cc
      ]

  Rounds-Builds : {first bu : BuilderUnit} → Builds nodes first → Rounds first bu → Builds nodes bu
  Rounds-Builds b begin = b
  Rounds-Builds b (next bu bu' headers polls ret r a z e) =
      round-Builds bu bu' headers polls ret (Rounds-Builds b r) a z e

  -- A builder unit with a node at least, and with aligned memory whose sizes fit their types: when
  -- all registrations succeed and all posts are taken, `connect` ends with a link for each node, all
  -- of its memory posted and nothing received. After any number of rounds of `run` that return from
  -- there on, a round reads exactly the pieces that the polls answer with, and ends with each piece
  -- of each node's memory posted or received and the same number of pieces taken out of each node's,
  -- or with the exception for data that do not match, and then no event is the first one of all
  -- nodes: as long as the polls answer with pieces that are posted, each once, and the posts are
  -- taken, no assertion fails.
  pub run_once-ends :
      (bu bu' : BuilderUnit) (ret : ℕ → ℕ) (headers : Memory EventHeader) (polls : ℕ → Poll)
      (ret' : ℕ → ℕ)
      → Rooms bu nodes
      → bu.data_ptr % 8 ≡ 0
      → bu.max_fragment_size % 8 ≡ 0
      → ((p : ℕ) → ret p ≡ 0)
      → Rounds (connected bu nodes ret) bu'
      → AllReturn 0 bu'.links polls
      → ((p : ℕ) → ret' p ≡ 0)
      → let first = connected bu nodes ret in
        (connect_all bu nodes (λ node. true) ret ≡ ok first)
        × (length first.links ≡ nodes)
        × Fresh first.links
        × AllOwned first 0 first.links
        × Round bu' headers polls (run_once bu' headers polls ret')
  unfolding connect_all
  run_once-ends bu bu' ret headers polls ret' rooms d s z r a z' =
      let (links, f, same, fresh, o) =
        connect_links-Owned bu ret z 0 nodes nodes rooms (omega arith) in
      let done : connect_all bu nodes (λ node. true) ret ≡ ok (record bu { links = links }) =
        rw f in
      let here : connected bu nodes ret ≡ record bu { links = links } =
        ap (λ t. elim t [ ok bu' ↦ bu' | err e ↦ bu ]) done in
      let owned = AllOwned-links bu 0 links links o in
      let b =
        Rounds-Builds
          (record { owned = owned; nodes_at = same; data_aligned = d; size_aligned = s })
          (subst (λ first. Rounds first bu') here r) in
      (
        done ∙ ap ok (sym here),
        ap (λ u. length u.links) here ∙ same,
        subst (λ u. Fresh u.links) (sym here) fresh,
        subst (λ u. AllOwned u 0 u.links) (sym here) owned,
        run_once-Round bu' headers polls ret' z' b.data_aligned b.size_aligned
            (omega (arith, b.nodes_at, some_nodes)) b.owned a,
      )
