-- ===== src/BuilderUnit/Run.antt =====
-- A round of the builder unit: it keeps the memory of all nodes and stops only at data that do not match.
use mathlib.Core.List.{Mem, mem-cons_self, mem-append_right}
use mathlib.Core.List.Perm
use mathlib.Core.Path.{subst}
use native.Mathlib.Nat.{mul_comm, mul_assoc}
use lseb.Prelude.{
  ℕ, zero, suc, ◌*◌, ◌/◌, ◌%◌, ◌≤◌, ◌<◌, ◌≡◌, refl, sym, ap, ◌∙◌, arith, List, [], ◌∷◌, ◌++◌,
  length, drop, Result, ok, err, thrown, Exception, ◌⊎◌, inl, inr, ne→==_false, ltb, if◌then◌else◌,
  ◌>>=◌,
}
use lseb.DataFormat.{EventHeader, Memory, Iovec}
use lseb.PendingMap.Laws.{keys}
use lseb.Socket.{Poll}
use lseb.BuilderUnit.{BuilderUnit, Link, read_links, release_links, build, run_once}
use lseb.BuilderUnit.Owned.{Owned, bases, address_aligned}
use lseb.Socket.Polling.{ArePending}
use lseb.BuilderUnit.Posts.{Returns, answered}
use lseb.BuilderUnit.Steps.{area, Room, read_data-Owned, release_data-Owned}
use lseb.BuilderUnit.Checking.{All, HasFront, Starts, check_data-Starts}

-- Each node's memory is posted or in the builder unit's hands; `i` is the number of the first node.
abbrev pub AllOwned : BuilderUnit → ℕ → List Link → Type 0
AllOwned bu i [] = Unit {0}
AllOwned bu i (link ∷ links) = (Room bu i × Owned (area bu i) link) × AllOwned bu (suc i) links

-- What the library answers to the polls of a round.
abbrev pub AllReturn : ℕ → List Link → (ℕ → Poll) → Type 0
AllReturn i [] polls = Unit {0}
AllReturn i (link ∷ links) polls =
    Returns link.conn.pending_recv (polls i) × AllReturn (suc i) links polls

-- A round keeps the number of the nodes and the place and the size of their memory.
pub record Keeps (bu bu' : BuilderUnit) : Type 0 where
  pub data_at : bu'.data_ptr ≡ bu.data_ptr
  pub size_at : bu'.max_fragment_size ≡ bu.max_fragment_size
  pub nodes : length bu'.links ≡ length bu.links

-- The pieces that the polls answer with are put behind those that each node's link had received.
abbrev pub Arrived : ℕ → List Link → (ℕ → Poll) → List Link → Type 0
Arrived i [] polls [] = Unit {0}
Arrived i [] polls (link' ∷ links') = ⊥
Arrived i (link ∷ links) polls [] = ⊥
Arrived i (link ∷ links) polls (link' ∷ links') =
    ((iovs : List Iovec) × (link'.iov_vect ≡ link.iov_vect ++ iovs)
      × (bases iovs ≡ answered (polls i))
      × ArePending link.conn.pending_recv iovs)
    × Arrived (suc i) links polls links'

-- The oldest `n` pieces of each node are taken out.
abbrev pub Dropped : ℕ → List Link → List Link → Type 0
Dropped n [] [] = Unit {0}
Dropped n [] (link' ∷ links') = ⊥
Dropped n (link ∷ links) [] = ⊥
Dropped n (link ∷ links) (link' ∷ links') =
    (link'.iov_vect ≡ drop n link.iov_vect) × Dropped n links links'

Dropped-none : (links : List Link) → Dropped 0 links links
Dropped-none [] = tt
Dropped-none (link ∷ links) = (refl, Dropped-none links)

-- Each node has received `n` pieces.
abbrev AtLeast : ℕ → List Link → Type 0
AtLeast n [] = Unit {0}
AtLeast n (link ∷ links) = (n ≤ length link.iov_vect) × AtLeast n links

some_front :
    (iovs : List Iovec) (n : ℕ)
    → suc n ≤ length iovs
    → (v : Iovec) × (vs : List Iovec) × (iovs ≡ v ∷ vs)
some_front [] n h = absurd (omega arith)
some_front (v ∷ vs) n h = (v, vs, refl)

mul-eighth : (x y : ℕ) → x % 8 ≡ 0 → x * y % 8 ≡ 0
mul-eighth x y h = omega (arith, eighths)
  where
    eighths : x * y ≡ 8 * (x / 8 * y)
    eighths = ap (λ t. t * y) {x = x} {y = 8 * (x / 8)} (omega arith) ∙ mul_assoc 8 (x / 8) y

Room-links :
    (bu : BuilderUnit) (i : ℕ) (links : List Link)
    → Room bu i
    → Room (record bu { links = links }) i
Room-links bu i links r = record {
  some_bytes = r.some_bytes;
  some_credits = r.some_credits;
  chunk_fits = r.chunk_fits;
  area_fits = r.area_fits;
  before_fits = r.before_fits;
}

pub AllOwned-links :
    (bu : BuilderUnit) (i : ℕ) (links links' : List Link)
    → AllOwned bu i links
    → AllOwned (record bu { links = links' }) i links
AllOwned-links bu i [] links' o = tt
AllOwned-links bu i (link ∷ links) links' ((room, o), os) =
    ((Room-links bu i links' room, o), AllOwned-links bu (suc i) links links' os)

module _ (bu : BuilderUnit) where
  read_links-Owned :
      (i : ℕ) (links : List Link) (polls : ℕ → Poll) (min_wrs : ℕ)
      → AllOwned bu i links
      → AllReturn i links polls
      → (links' : List Link) × (m : ℕ) × (read_links i links polls min_wrs ≡ ok (links', m))
        × (length links' ≡ length links)
        × (m ≤ min_wrs)
        × AtLeast m links'
        × Arrived i links polls links'
        × AllOwned bu i links'
  unfolding read_links
  read_links-Owned i [] polls min_wrs o r = ([], min_wrs, refl, refl, omega arith, tt, tt, tt)
  read_links-Owned i (link ∷ links) polls min_wrs ((room, o), os) (r, rs) =
      let (link', iovs, e, behind, b, k, o') = read_data-Owned link o (polls i) r in
      let least = if ltb min_wrs (length link'.iov_vect) then min_wrs else length link'.iov_vect in
      let below : (least ≤ min_wrs) × (least ≤ length link'.iov_vect) = ground arith in
      let (links', m, f, n, le, al, came, os') = read_links-Owned (suc i) links polls least os rs in
      (
        link' ∷ links',
        m,
        rw (e, f),
        ap suc n,
        omega (arith, below, le),
        (omega (arith, below, le), al),
        ((iovs, behind, b, k), came),
        ((room, o'), os'),
      )

  release_links-Owned :
      (i : ℕ) (links : List Link) (n : ℕ) (ret : ℕ → ℕ)
      → AllOwned bu i links
      → AtLeast n links
      → ((p : ℕ) → ret p ≡ 0)
      → (links' : List Link) × (release_links bu links n ret ≡ ok links')
        × (length links' ≡ length links)
        × Dropped n links links'
        × AllOwned bu i links'
  unfolding release_links
  release_links-Owned i [] n ret o l z = ([], refl, refl, tt, tt)
  release_links-Owned i (link ∷ links) n ret ((room, o), os) (l, ls) z =
      let (link', e, less, o') = release_data-Owned bu i room link n ret o l z in
      let (links', f, same, dropped, os') = release_links-Owned (suc i) links n ret os ls z in
      (link' ∷ links', rw (e, f), ap suc same, (less, dropped), ((room, o'), os'))

  -- The pieces are aligned, so a header may stand at their start.
  front-aligned :
      (i : ℕ) (link : Link) (n : ℕ)
      → (bu.data_ptr % 8 ≡ 0)
      → (bu.max_fragment_size % 8 ≡ 0)
      → Owned (area bu i) link
      → suc n ≤ length link.iov_vect
      → HasFront link
  front-aligned i link n h k o l =
      let (iov, iovs, e) = some_front link.iov_vect n l in
      let chunk_aligned : (area bu i).chunk % 8 ≡ 0 =
        mul-eighth (bu.max_fragment_size) bu.bulk_size k in
      let before_aligned : i * (area bu i).chunk * bu.credits % 8 ≡ 0 =
        mul-eighth (i * (area bu i).chunk) bu.credits (
          ap (λ m. m % 8) (mul_comm i (area bu i).chunk)
          ∙ mul-eighth (area bu i).chunk i chunk_aligned) in
      let held : Mem iov.base (bases link.iov_vect) = rw e mem-cons_self in
      (
        iov,
        iovs,
        e,
        address_aligned (area bu i).base (area bu i).chunk 0 bu.credits iov.base
            (omega (arith, h, before_aligned)) chunk_aligned
            ((Perm.mem_iff o.shared).0 (mem-append_right (keys link.conn.pending_recv) held)),
      )

  links_aligned :
      (i : ℕ) (links : List Link) (n : ℕ)
      → (bu.data_ptr % 8 ≡ 0)
      → (bu.max_fragment_size % 8 ≡ 0)
      → AllOwned bu i links
      → AtLeast (suc n) links
      → All HasFront links
  links_aligned i [] n h k o l = tt
  links_aligned i (link ∷ links) n h k ((_, o), os) (l, ls) =
      (front-aligned i link n h k o l, links_aligned (suc i) links n h k os ls)

  -- What a round ends in. It has read what the polls answer with; then it is the builder unit with all memory in
  -- place and `m` pieces of each node taken out, or the exception, and then the first pieces do not start with
  -- one event.
  abbrev pub Round : Memory EventHeader → (ℕ → Poll) → Result BuilderUnit → Type 0
  Round headers polls r =
      (links : List Link) × (m : ℕ) × (read_links 0 bu.links polls bu.credits ≡ ok (links, m))
      × Arrived 0 bu.links polls links
      × (((bu' : BuilderUnit) × (r ≡ ok bu')
            × Dropped m links bu'.links
            × AllOwned bu' 0 bu'.links
            × Keeps bu bu')
          ⊎ ((r ≡ err (thrown Exception.data_mismatch))
              × (0 < m)
              × ((first_evt_id : ℕ) → ¬ All (Starts headers first_evt_id) links)))

  module _ (headers : Memory EventHeader) (polls : ℕ → Poll) (ret : ℕ → ℕ)
      (posts : (p : ℕ) → ret p ≡ 0) (data_aligned : bu.data_ptr % 8 ≡ 0)
      (size_aligned : bu.max_fragment_size % 8 ≡ 0) where
    build-Round :
        (links : List Link) (m : ℕ)
        → read_links 0 bu.links polls bu.credits ≡ ok (links, m)
        → Arrived 0 bu.links polls links
        → 0 < length links
        → length links ≡ length bu.links
        → AtLeast m links
        → AllOwned bu 0 links
        → Round headers polls (build bu headers ret (links, m))
    unfolding build
    build-Round [] m e came n same l o = absurd (omega arith)
    build-Round (link ∷ links) zero e came n same l o = (
      link ∷ links,
      zero,
      e,
      came,
      inl (
        record bu { links = link ∷ links },
        refl,
        Dropped-none (link ∷ links),
        AllOwned-links bu 0 (link ∷ links) (link ∷ links) o,
        record { data_at = refl; size_at = refl; nodes = same },
      ),
    )
    build-Round (link ∷ links) (suc m) e came n same l o = (
      link ∷ links,
      suc m,
      e,
      came,
      elim (check_data-Starts headers link links
          (links_aligned 0 (link ∷ links) m data_aligned size_aligned o l)) [
            | inr (c, s) ↦ inr (rw (ne→==_false (suc m) 0 (omega arith), c), omega arith, s)
            | inl (c, _, s) ↦
                let (links', f, as_many, dropped, o') =
                  release_links-Owned 0 (link ∷ links) (suc m) ret o l posts in
                inl (
                  record bu { links = links' },
                  rw (ne→==_false (suc m) 0 (omega arith), c, f),
                  dropped,
                  AllOwned-links bu 0 links' links' o',
                  record { data_at = refl; size_at = refl; nodes = as_many ∙ same },
                )
          ],
    )

    -- With a node at least, aligned memory and sizes that fit their types: if the polls answer with
    -- pieces that are posted, each once, and all posts are taken, a round of `run` reads exactly
    -- these pieces, and ends with each piece of each node's memory posted or received and the same
    -- number of pieces taken out of each node's, or with the exception for data that do not match,
    -- and then no event is the first one of all nodes. So no assertion fails, and nothing is
    -- undefined.
    pub run_once-Round :
        0 < length bu.links
        → AllOwned bu 0 bu.links
        → AllReturn 0 bu.links polls
        → Round headers polls (run_once bu headers polls ret)
    unfolding run_once
    run_once-Round n o r =
        let (links, m, e, same, _, l, came, o') =
          read_links-Owned 0 bu.links polls bu.credits o r in
        subst (Round headers polls) (sym (ap (λ t. t >>= build bu headers ret) e))
          (build-Round links m e came (omega (arith, same, n)) same l o')
