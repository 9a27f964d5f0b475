-- ===== src/Accumulator/History.antt =====
-- All that the accumulator's operations can lead to.
use mathlib.Core.List.{nil≢cons, head-eq_of_cons-eq, tail-eq_of_cons-eq}
use mathlib.Core.Path.{subst}
use lseb.Prelude.{
  ℕ, zero, suc, ◌+◌, ◌≤◌, ◌<◌, ◌≡◌, sym, ap, ◌∙◌, arith, Bool, false, List, [], ◌∷◌, ◌++◌, length,
  drop, map, Option, ok, word, >>=-eq-ok, ok-injective, inl, inr,
}
use lseb.DataFormat.{EventMetaData, Iovec, Memory}
use lseb.Controller.{Controller}
use lseb.Accumulator.{Accumulator, get_multievent, release_multievents, mark_all, released_prefix}
use lseb.Accumulator.Window.{IsTable, extent}
use lseb.Accumulator.Invariant.{state, Runs, Numbered}
use lseb.Accumulator.Acquire.{get_multievent-Acquired}
use lseb.Accumulator.Release.{
  release_multievents-released_prefix, addresses-mark_all, released_prefix-le,
}
use lseb.Accumulator.Mark.{Numbered-append}

-- A call that returns, from one state to the next. The clock never asks for fewer events than there are.
pub data Step (metadata : Memory EventMetaData) (a a' : Accumulator) : Type 0 where
  gets :
      (due : ℕ) (p : Option Iovec)
      → a.controller.generated_events ≤ due
      → due < word
      → get_multievent metadata a due ≡ ok (a', p)
      → Step metadata a a'
  releases : (vect : List ℕ) → release_multievents a vect ≡ ok a' → Step metadata a a'

pub data Steps (metadata : Memory EventMetaData) : Accumulator → Accumulator → Type 0 where
  start : (a : Accumulator) → Steps metadata a a
  next :
      (a a' a'' : Accumulator) → Steps metadata a a' → Step metadata a' a'' → Steps metadata a a''

-- The multievents that are out are the ones that follow the `q` released ones, each at its address, and the
-- generator holds their events and `g` more.
pub record Consistent (metadata : Memory EventMetaData) (lo hi dlo dhi k count base : ℕ)
    (a : Accumulator) : Type 0 where
  pub controller : Controller
  pub q : ℕ
  pub g : ℕ
  pub out : List (ℕ × Bool)
  pub is_state : a ≡ state lo hi dlo dhi k controller q g out
  pub runs : Runs lo hi dlo dhi k base controller q g out
  pub numbered : Numbered metadata lo dlo k count q out

module _ (metadata : Memory EventMetaData) (lo dlo k count : ℕ) where
  -- The numbers depend on the addresses only.
  pub Numbered-addresses :
      (q : ℕ) (out out' : List (ℕ × Bool))
      → map (λ e. e.0) out ≡ map (λ e. e.0) out'
      → Numbered metadata lo dlo k count q out
      → Numbered metadata lo dlo k count q out'
  Numbered-addresses q [] [] e v = tt
  Numbered-addresses q [] (x ∷ out') e v = absurd (nil≢cons e)
  Numbered-addresses q (x ∷ out) [] e v = absurd (nil≢cons (sym e))
  Numbered-addresses q ((p, d) ∷ out) ((p', d') ∷ out') e v = (
    sym (head-eq_of_cons-eq e) ∙ v.0,
    Numbered-addresses (suc q) out out' (tail-eq_of_cons-eq e) v.1,
  )

  pub Numbered-drop :
      (n q : ℕ) (out : List (ℕ × Bool))
      → n ≤ length out
      → Numbered metadata lo dlo k count q out
      → Numbered metadata lo dlo k count (q + n) (drop n out)
  Numbered-drop zero q out h v = subst (λ m. Numbered metadata lo dlo k count m out) (omega arith) v
  Numbered-drop (suc n) q [] h v = absurd (omega arith)
  Numbered-drop (suc n) q ((p, d) ∷ out) h v =
      subst (λ m. Numbered metadata lo dlo k count m (drop n out)) {x = suc q + n} {y = q + suc n}
        (omega arith) (Numbered-drop n (suc q) out (omega arith) v.1)

module _ {metadata : Memory EventMetaData} {lo hi dlo dhi k count base : ℕ}
    (t : IsTable metadata lo hi dlo dhi k count) where
  call-Consistent :
      (c : Controller) (q g : ℕ) (out : List (ℕ × Bool)) {a' : Accumulator}
      → Runs lo hi dlo dhi k base c q g out
      → Numbered metadata lo dlo k count q out
      → Step metadata (state lo hi dlo dhi k c q g out) a'
      → Consistent metadata lo hi dlo dhi k count base a'
  unfolding release_multievents
  call-Consistent c q g out {a'} runs v (gets due p later in_word e) =
      let (c', g', _, cases) = get_multievent-Acquired t c q g out runs due later in_word in
      elim cases [
        | inl (f, _, _, r) ↦ record {
          controller = c';
          q = q;
          g = g';
          out = out;
          is_state = ap (λ m. m.0) (ok-injective (sym e ∙ f));
          runs = r;
          numbered = v;
        }
        | inr (f, _, r) ↦ record {
          controller = c';
          q = q;
          g = g';
          out = out ++ ((extent metadata lo dlo k count (q + length out)).base, false) ∷ [];
          is_state = ap (λ m. m.0) (ok-injective (sym e ∙ f));
          runs = r;
          numbered = Numbered-append t q out false v;
        }
      ]
  call-Consistent c q g out {a'} runs v (releases vect e) =
      let (marked, f, _) = >>=-eq-ok (mark_all vect out) _ e in
      let n = released_prefix marked in
      let (c', h, runs', _) = release_multievents-released_prefix t c q g out vect runs marked f in
      record {
        controller = c';
        q = q + n;
        g = g;
        out = drop n marked;
        is_state = ok-injective (sym e ∙ h);
        runs = runs';
        numbered = Numbered-drop metadata lo dlo k count n q marked (released_prefix-le marked) (
            Numbered-addresses metadata lo dlo k count q out marked
              (sym (addresses-mark_all vect out marked f)) v);
      }

  -- From a consistent state every sequence of calls of `get_multievent`, with no fewer events due
  -- than were made, and `release_multievents` that return leads to a consistent state, in whatever
  -- order the multievents come back.
  pub Steps-Consistent :
      {a a' : Accumulator}
      → Consistent metadata lo hi dlo dhi k count base a
      → Steps metadata a a'
      → Consistent metadata lo hi dlo dhi k count base a'
  Steps-Consistent v (start a) = v
  Steps-Consistent v (next a a' a'' s one) =
      let w = Steps-Consistent v s in
      call-Consistent w.controller w.q w.g w.out w.runs w.numbered
        (subst (λ m. Step metadata m a'') w.is_state one)
