-- ===== src/ReadoutUnit/Acquires.antt =====
-- `acquire_multievents`: the multievents that a round adds to those that wait.
use mathlib.Core.List.{Perm, append_assoc, append-nil, perm_middle}
use mathlib.Core.List.Perm
use mathlib.Core.Path.{subst}
use lseb.Prelude.{
  ℕ, zero, suc, ◌+◌, ◌≤◌, ◌<◌, ◌≡◌, ◌≢◌, refl, sym, ap, ◌∙◌, arith, Bool, false, List, [], ◌∷◌,
  ◌++◌, length, length-append, get_elem?, Option, none, some, Result, ok, word, inl, inr,
}
use lseb.DataFormat.{EventMetaData, Iovec, Memory}
use lseb.Controller.{Controller}
use lseb.BuilderUnit.Owned.{bases}
use lseb.Accumulator.{Accumulator}
use lseb.Accumulator.Window.{IsTable, extent}
use lseb.Accumulator.Invariant.{state, Runs, Numbered}
use lseb.Accumulator.Acquire.{get_multievent-Acquired}
use lseb.Accumulator.Disjoint.{extent_in}
use lseb.Accumulator.Mark.{Numbered-append}
use lseb.Accumulator.Undone.{undone, undone-append}
use lseb.ReadoutUnit.{acquire_multievents}
use lseb.ReadoutUnit.Polls.{Absent, Once}
use lseb.ReadoutUnit.Waiting.{waiting, with_base}

-- The events that are due at each of `n` calls, the first call's last: the clock does not go back, from the time
-- `first` to the time `last`.
abbrev pub InTime : ℕ → ℕ → (ℕ → ℕ) → ℕ → Type 0
InTime first zero dues last = first ≤ last
InTime first (suc n) dues last = (first ≤ dues n) × (dues n < word) × InTime (dues n) n dues last

InTime-le : (first n : ℕ) (dues : ℕ → ℕ) (last : ℕ) → InTime first n dues last → first ≤ last
InTime-le first zero dues last h = h
InTime-le first (suc n) dues last h = omega (arith, InTime-le (dues n) n dues last h.2)

pub InTime-later :
    (c first n : ℕ) (dues : ℕ → ℕ) (last : ℕ)
    → c ≤ first
    → InTime first n dues last
    → InTime c n dues last
InTime-later c first zero dues last h i = omega arith
InTime-later c first (suc n) dues last h i = (omega arith, i.1, i.2)

-- The pieces lie in the memory of the data.
abbrev pub Within : ℕ → ℕ → List Iovec → Type 0
Within dlo dhi [] = Unit {0}
Within dlo dhi (iov ∷ iovs) = (dlo ≤ iov.base) × (iov.base + iov.len ≤ dhi) × Within dlo dhi iovs

pub Within-append :
    (dlo dhi : ℕ) (iovs new : List Iovec)
    → Within dlo dhi iovs
    → Within dlo dhi new
    → Within dlo dhi (iovs ++ new)
Within-append dlo dhi [] new w v = v
Within-append dlo dhi (iov ∷ iovs) new w v = (w.0, w.1, Within-append dlo dhi iovs new w.2 v)

get_elem?-before :
    (iovs : List Iovec) (iov : Iovec) (j : ℕ)
    → length iovs ≢ j
    → get_elem? (iovs ++ iov ∷ []) j ≡ get_elem? iovs j
get_elem?-before [] iov zero h = absurd (h refl)
get_elem?-before [] iov (suc j) h = refl
get_elem?-before (x ∷ iovs) iov zero h = refl
get_elem?-before (x ∷ iovs) iov (suc j) h = get_elem?-before iovs iov j (λ e. h (ap suc e))

get_elem?-last :
    (iovs : List Iovec) (iov : Iovec) → get_elem? (iovs ++ iov ∷ []) (length iovs) ≡ some iov
get_elem?-last [] iov = refl
get_elem?-last (x ∷ iovs) iov = get_elem?-last iovs iov

get_elem?-end : (iovs : List Iovec) → get_elem? iovs (length iovs) ≡ none
get_elem?-end [] = refl
get_elem?-end (x ∷ iovs) = get_elem?-end iovs

waiting-before :
    (ids : List ℕ) (iovs : List Iovec) (iov : Iovec)
    → Absent (length iovs) ids
    → waiting ids (iovs ++ iov ∷ []) ≡ waiting ids iovs
waiting-before [] iovs iov a = refl
waiting-before (j ∷ ids) iovs iov a =
    λ i. with_base (get_elem?-before iovs iov j a.0 i) (waiting-before ids iovs iov a.1 i)

-- A new piece waits for its node.
waiting-last :
    (ids : List ℕ) (iovs : List Iovec) (iov : Iovec)
    → Once (length iovs) ids
    → Perm (waiting ids (iovs ++ iov ∷ [])) (iov.base ∷ waiting ids iovs)
waiting-last [] iovs iov o = absurd o
waiting-last (j ∷ ids) iovs iov (inl (same, a)) =
    rw (← same, get_elem?-last iovs iov, get_elem?-end iovs, waiting-before ids iovs iov a)
      (Perm.refl _)
waiting-last (j ∷ ids) iovs iov (inr (other, o)) =
    rw (get_elem?-before iovs iov j other) (skip (get_elem? iovs j) (waiting-last ids iovs iov o))
  where
    skip :
        {a b : List ℕ} (piece : Option Iovec)
        → Perm a (iov.base ∷ b)
        → Perm (with_base piece a) (iov.base ∷ with_base piece b)
    skip none p = p
    skip (some v) p = Perm.trans (Perm.cons v.base p) (Perm.swap iov.base v.base _)

pub waiting-append :
    (ids : List ℕ) (iovs new : List Iovec)
    → ((id : ℕ) → length iovs ≤ id → id < length iovs + length new → Once id ids)
    → Perm (waiting ids (iovs ++ new)) (waiting ids iovs ++ bases new)
waiting-append ids iovs [] turn = rw (append-nil iovs, append-nil (waiting ids iovs)) (Perm.refl _)
waiting-append ids iovs (iov ∷ new) turn =
    let one = waiting-last ids iovs iov (turn (length iovs) (omega arith) (omega arith)) in
    let size = length-append iovs (iov ∷ []) in
    let rest =
      waiting-append ids (iovs ++ iov ∷ []) new
        (λ id h k. turn id (omega (arith, h, size)) (omega (arith, k, size))) in
    subst (λ l. Perm (waiting ids l) (waiting ids iovs ++ iov.base ∷ bases new))
      (append_assoc iovs (iov ∷ []) new)
      (Perm.trans rest (
        Perm.trans (Perm.append_right (bases new) one)
          (Perm.symm (perm_middle (waiting ids iovs) (bases new)))))

-- Multievents that are out and did not come back.
abbrev pub fresh : List Iovec → List (ℕ × Bool)
fresh [] = []
fresh (iov ∷ new) = (iov.base, false) ∷ fresh new

pub length-fresh : (new : List Iovec) → length (fresh new) ≡ length new
length-fresh [] = refl
length-fresh (iov ∷ new) = ap suc (length-fresh new)

-- The pieces are the multievents from number `j` on.
abbrev pub Pieces : Memory EventMetaData → ℕ → ℕ → ℕ → ℕ → ℕ → List Iovec → Type 0
Pieces metadata lo dlo k count j [] = Unit {0}
Pieces metadata lo dlo k count j (iov ∷ iovs) =
    (iov ≡ extent metadata lo dlo k count j) × Pieces metadata lo dlo k count (suc j) iovs

pub Pieces-append :
    (metadata : Memory EventMetaData) (lo dlo k count i j : ℕ) (iovs new : List Iovec)
    → i + length iovs ≡ j
    → Pieces metadata lo dlo k count i iovs
    → Pieces metadata lo dlo k count j new
    → Pieces metadata lo dlo k count i (iovs ++ new)
Pieces-append metadata lo dlo k count i j [] new e p p' =
    let same : j ≡ i = omega (arith, e) in subst (λ m. Pieces metadata lo dlo k count m new) same p'
Pieces-append metadata lo dlo k count i j (iov ∷ iovs) new e p p' =
    (p.0, Pieces-append metadata lo dlo k count (suc i) j iovs new (omega (arith, e)) p.1 p')

-- What `acquire_multievents` comes to: the multievents of `new` are handed out, at most `n`. They lie in the data's
-- memory, are put behind those of `iovs`, and are among those that are out.
pub record Took (metadata : Memory EventMetaData) (lo hi dlo dhi k count base q : ℕ)
    (out : List (ℕ × Bool)) (n : ℕ) (iovs : List Iovec) (last : ℕ)
    (r : Result (Accumulator × List Iovec)) : Type 0 where
  pub controller : Controller
  pub g : ℕ
  pub new : List Iovec
  pub gives : r ≡ ok (state lo hi dlo dhi k controller q g (out ++ fresh new), iovs ++ new)
  pub runs : Runs lo hi dlo dhi k base controller q g (out ++ fresh new)
  pub numbered : Numbered metadata lo dlo k count q (out ++ fresh new)
  pub in_time : controller.generated_events ≤ last
  pub few : length new ≤ n
  pub within : Within dlo dhi new
  pub pieces : Pieces metadata lo dlo k count (q + length out) new
  pub back_later : undone (out ++ fresh new) ≡ undone out ++ bases new

module _ {metadata : Memory EventMetaData} {lo hi dlo dhi k count : ℕ}
    (t : IsTable metadata lo hi dlo dhi k count) (base q : ℕ) where
  nothing :
      (c : Controller) (g : ℕ) (out : List (ℕ × Bool)) (n : ℕ) (iovs : List Iovec) (last : ℕ)
      (r : Result (Accumulator × List Iovec))
      → Runs lo hi dlo dhi k base c q g out
      → Numbered metadata lo dlo k count q out
      → c.generated_events ≤ last
      → r ≡ ok (state lo hi dlo dhi k c q g out, iovs)
      → Took metadata lo hi dlo dhi k count base q out n iovs last r
  nothing c g out n iovs last r runs v h e =
      let same : out ≡ out ++ [] = sym (append-nil out) in
      record {
        controller = c;
        g = g;
        new = [];
        gives = e ∙ (λ i. ok (state lo hi dlo dhi k c q g (same i), sym (append-nil iovs) i));
        runs = subst (Runs lo hi dlo dhi k base c q g) same runs;
        numbered = subst (Numbered metadata lo dlo k count q) same v;
        in_time = h;
        few = omega arith;
        within = tt;
        pieces = tt;
        back_later = ap undone (sym same) ∙ sym (append-nil (undone out));
      }

  one_more :
      (out : List (ℕ × Bool)) (n : ℕ) (iovs : List Iovec) (last : ℕ) (iov : Iovec)
      (r : Result (Accumulator × List Iovec))
      → iov ≡ extent metadata lo dlo k count (q + length out)
      → dlo ≤ iov.base
      → iov.base + iov.len ≤ dhi
      → Took metadata lo hi dlo dhi k count base q
          (out ++ (iov.base, false) ∷ [])
          n
          (iovs ++ iov ∷ [])
          last
          r
      → Took metadata lo hi dlo dhi k count base q out (suc n) iovs last r
  one_more out n iovs last iov r number low high s =
      let outs = append_assoc out ((iov.base, false) ∷ []) (fresh s.new) in
      record {
        controller = s.controller;
        g = s.g;
        new = iov ∷ s.new;
        gives = s.gives ∙ (λ i. ok (
          state lo hi dlo dhi k s.controller q s.g (outs i),
          append_assoc iovs (iov ∷ []) s.new i,
        ));
        runs = subst (Runs lo hi dlo dhi k base s.controller q s.g) outs s.runs;
        numbered = subst (Numbered metadata lo dlo k count q) outs s.numbered;
        in_time = s.in_time;
        few = omega (arith, s.few);
        within = (low, high, s.within);
        pieces = (
          number,
          subst (λ j. Pieces metadata lo dlo k count j s.new)
              {x = q + length (out ++ (iov.base, false) ∷ [])} {y = suc (q + length out)}
              (omega (arith, length-append out ((iov.base, false) ∷ []))) s.pieces,
        );
        back_later =
            ap undone (sym outs)
            ∙ s.back_later
            ∙ ap (λ l. l ++ bases s.new) (undone-append out iov.base)
            ∙ append_assoc (undone out) (iov.base ∷ []) (bases s.new);
      }

  -- If the clock does not go back, `acquire_multievents` fails no assertion. It hands out at most as
  -- many multievents as it is called for, which are put behind those that wait and lie in the data's
  -- memory, and the accumulator is again in a state of the invariant.
  pub acquire_multievents-Took :
      (c : Controller) (g : ℕ) (out : List (ℕ × Bool)) (n : ℕ) (iovs : List Iovec) (dues : ℕ → ℕ)
      (last : ℕ)
      → Runs lo hi dlo dhi k base c q g out
      → Numbered metadata lo dlo k count q out
      → InTime c.generated_events n dues last
      → Took metadata lo hi dlo dhi k count base q out n iovs last
          (acquire_multievents metadata n (state lo hi dlo dhi k c q g out) iovs dues)
  unfolding acquire_multievents
  acquire_multievents-Took c g out zero iovs dues last runs v i =
      nothing c g out 0 iovs last _ runs v i refl
  acquire_multievents-Took c g out (suc n) iovs dues last runs v i =
      let (c', g', in_time, cases) = get_multievent-Acquired t c q g out runs (dues n) i.0 i.1 in
      elim cases [
        | inl (e, _, _, runs') ↦
            nothing c' g' out (suc n) iovs last _ runs' v
              (omega (arith, in_time, InTime-le (dues n) n dues last i.2))
              (rw (acquire_multievents, e))
        | inr (e, _, runs') ↦
            let piece = extent_in t (q + length out) in
            rw (acquire_multievents, e)
              (one_more out n iovs last (extent metadata lo dlo k count (q + length out)) _ refl
                piece.0 piece.2
                (acquire_multievents-Took c' g'
                  (out ++ ((extent metadata lo dlo k count (q + length out)).base, false) ∷ []) n
                  (iovs ++ extent metadata lo dlo k count (q + length out) ∷ []) dues last runs'
                  (Numbered-append t q out false v)
                  (InTime-later c'.generated_events (dues n) n dues last in_time i.2)))
      ]
