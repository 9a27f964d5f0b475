-- ===== src/ReadoutUnit/Waiting.antt =====
-- The pieces that wait for their node, and the step to the next node of the cycle.
use mathlib.Core.List.{
  Perm, Mem, Nodup, Nodup-cons, mem-append_left, mem-append_right, mem-cons_self, perm_middle,
  tail-eq_of_cons-eq,
}
use mathlib.Core.List.Perm
use mathlib.Core.Path.{subst}
use mathlib.Core.Option.{some-injective}
use lseb.Prelude.{
  ℕ, zero, suc, ◌+◌, ◌≡◌, refl, sym, ap, ◌∙◌, arith, List, [], ◌∷◌, ◌++◌, length, drop, get_elem?,
  set, length-set, Option, none, some, ok, inl, inr, Option-cases, eq→==, ne→==_false,
}
use lseb.DataFormat.{Iovec}
use lseb.PendingMap.{PendingMap, find}
use lseb.PendingMap.Laws.{keys, keys-erase, IsSorted}
use lseb.Socket.{Socket}
use lseb.ReadoutUnit.{ReadoutUnit, next_in_sequence}
use lseb.ReadoutUnit.Polls.{sent, InOrder}

abbrev pub with_base : Option Iovec → List ℕ → List ℕ
with_base none addrs = addrs
with_base (some iov) addrs = iov.base ∷ addrs

-- The pieces for the nodes of `ids`, by their addresses, as far as they are acquired.
abbrev pub waiting : List ℕ → List Iovec → List ℕ
waiting [] iovs = []
waiting (id ∷ ids) iovs = with_base (get_elem? iovs id) (waiting ids iovs)

not_found : (k : ℕ) (m : PendingMap) → ¬ Mem k (keys m) → find k m ≡ none
not_found k m n = elim (Option-cases (find k m)) [
  | inl e ↦ e
  | inr (v, e) ↦ absurd (n ((Perm.mem_iff (Perm.symm (keys-erase k v m e))).0 mem-cons_self))
]

key_sent :
    (conns : List Socket) (id p : ℕ) (conn : Socket)
    → get_elem? conns id ≡ some conn
    → Mem p (keys conn.pending_send)
    → Mem p (sent conns)
key_sent [] id p conn e m = cc
key_sent (c ∷ conns) zero p conn e m =
    mem-append_left (sent conns)
      (subst (λ s. Mem p (keys s.pending_send)) (sym (some-injective _ _ e)) m)
key_sent (c ∷ conns) (suc id) p conn e m =
    mem-append_right (keys c.pending_send) (key_sent conns id p conn e m)

pub drop-next :
    {A : Type 0} (n : ℕ) (xs rest : List A) (x : A)
    → drop n xs ≡ x ∷ rest
    → (drop (suc n) xs ≡ rest) × (length xs ≡ n + suc (length rest))
drop-next zero [] rest x e = cc
drop-next zero (y ∷ xs) rest x e =
    (tail-eq_of_cons-eq e, omega (arith, ap length (tail-eq_of_cons-eq e)))
drop-next (suc n) [] rest x e = cc
drop-next (suc n) (y ∷ xs) rest x e = let (f, g) = drop-next n xs rest x e in (f, omega (arith, g))

pub sent-grow :
    (conns : List Socket) (id p : ℕ) (conn conn' : Socket)
    → get_elem? conns id ≡ some conn
    → Perm (keys conn'.pending_send) (p ∷ keys conn.pending_send)
    → IsSorted conn'.pending_send
    → InOrder conns
    → Perm (sent (set conns id conn')) (p ∷ sent conns) × InOrder (set conns id conn')
sent-grow [] id p conn conn' e h s o = cc
sent-grow (c ∷ conns) zero p conn conn' e h s o =
    let f = some-injective _ _ e in (rw f (Perm.append_right (sent conns) h), (s, o.1))
sent-grow (c ∷ conns) (suc id) p conn conn' e h s o =
    let (q, i) = sent-grow conns id p conn conn' e h s o.1 in
    (
      Perm.trans (Perm.append_left (keys c.pending_send) q)
          (perm_middle (keys c.pending_send) (sent conns)),
      (o.0, i),
    )

-- A piece that waits is not pending.
pub not_pending :
    (conns : List Socket) (id p : ℕ) (conn : Socket) (all later : List ℕ)
    → get_elem? conns id ≡ some conn
    → Nodup all
    → Perm all (sent conns ++ p ∷ later)
    → find p conn.pending_send ≡ none
not_pending conns id p conn all later e n h = not_found p conn.pending_send (λ m.
    (Nodup-cons.0 (Perm.nodup (Perm.trans h (perm_middle (sent conns) later)) n)).0
      (mem-append_left later (key_sent conns id p conn e m)))

-- The end of a cycle is reached with a piece for each connection.
abbrev pub Whole : List ℕ → List Iovec → List Socket → Type 0
Whole [] iovs conns = length iovs ≡ length conns
Whole (id ∷ ids) iovs conns = Unit {0}

pub Whole-set :
    (later : List ℕ) (iovs : List Iovec) (conns : List Socket) (id : ℕ) (conn : Socket)
    → Whole later iovs conns
    → Whole later iovs (set conns id conn)
Whole-set [] iovs conns id conn w = w ∙ sym (length-set conns id conn)
Whole-set (j ∷ later) iovs conns id conn w = tt

pub waiting-none : (ids : List ℕ) → waiting ids [] ≡ []
waiting-none [] = refl
waiting-none (zero ∷ ids) = waiting-none ids
waiting-none (suc id ∷ ids) = waiting-none ids

-- The node's turn is over: the next one of `later` has its turn, or the first one again.
abbrev pub stepped : ReadoutUnit → List ℕ → ReadoutUnit
stepped ru [] = record ru { seq_it = 0; iov_to_send = [] }
stepped ru (id ∷ later) = record ru { seq_it = ru.seq_it + 1 }

pub next-waiting :
    (ru : ReadoutUnit) (seq_id : ℕ) (later : List ℕ)
    → drop ru.seq_it ru.id_sequence ≡ seq_id ∷ later
    → Whole later ru.iov_to_send ru.connection_ids
    → (next_in_sequence ru ≡ ok (stepped ru later))
      × (waiting (drop (stepped ru later).seq_it ru.id_sequence) (stepped ru later).iov_to_send
          ≡ waiting later ru.iov_to_send)
unfolding next_in_sequence
next-waiting ru seq_id [] e w =
    let (f, g) = drop-next ru.seq_it ru.id_sequence [] seq_id e in
    (
      rw (
        eq→== (ru.seq_it + 1) (length ru.id_sequence) (omega (arith, g)),
        eq→== (length ru.iov_to_send) (length ru.connection_ids) w,
      ),
      waiting-none ru.id_sequence,
    )
next-waiting ru seq_id (id ∷ later) e w =
    let (f, g) = drop-next ru.seq_it ru.id_sequence (id ∷ later) seq_id e in
    let step : ru.seq_it + 1 ≡ suc ru.seq_it = omega arith in
    (
      rw (ne→==_false (ru.seq_it + 1) (length ru.id_sequence) (omega (arith, g))),
      ap (λ n. waiting (drop n ru.id_sequence) ru.iov_to_send) step
          ∙ ap (λ ids. waiting ids ru.iov_to_send) f,
    )
