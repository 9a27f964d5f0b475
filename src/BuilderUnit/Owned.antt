-- ===== src/BuilderUnit/Owned.antt =====
-- Each piece of a node's memory is either posted or in the builder unit's hands.
use mathlib.Core.List.{
  Perm, Nodup, Nodup-cons, Nodup-nil, Mem, mem-cons, not-mem-nil, mem-append_left, perm_middle,
  mem-cons_self,
}
use mathlib.Core.List.Perm
use mathlib.Core.Logic.Or
use native.Mathlib.Nat.{mul-suc, mul-le-mul_left, mul_assoc}
use native.Mathlib.Bridge.{le_prop}
use lseb.Prelude.{
  ℕ, zero, suc, ◌+◌, ◌*◌, ◌/◌, ◌%◌, ◌≤◌, ◌<◌, ◌≡◌, refl, ap, ◌∙◌, arith, List, [], ◌∷◌, ◌++◌,
  length, map, none,
}
use lseb.DataFormat.{Iovec}
use lseb.PendingMap.{find}
use lseb.PendingMap.Laws.{keys, IsSorted, find-not-Mem}
use lseb.Socket.{Socket}
use lseb.BuilderUnit.{Link}

abbrev pub bases : List Iovec → List ℕ
bases = map (λ v. v.base)

-- The addresses of the `n` pieces of `chunk` bytes from number `j` on.
abbrev pub addresses : ℕ → ℕ → ℕ → ℕ → List ℕ
addresses base chunk j zero = []
addresses base chunk j (suc n) = (base + chunk * j) ∷ addresses base chunk (suc j) n

pub length-addresses : (base chunk j n : ℕ) → length (addresses base chunk j n) ≡ n
length-addresses base chunk j zero = refl
length-addresses base chunk j (suc n) = ap suc (length-addresses base chunk (suc j) n)

-- A node's memory: `credits` pieces of `chunk` bytes, each aligned, from `base` on.
pub record Area : Type 0 where
  pub base : ℕ
  pub chunk : ℕ
  pub credits : ℕ

abbrev pub all_addresses : Area → List ℕ
all_addresses a = addresses a.base a.chunk 0 a.credits

-- The pieces with the addresses of `rest` are not posted, and all others of the area are.
pub record Owing (a : Area) (conn : Socket) (rest : List ℕ) : Type 0 where
  pub sorted : IsSorted conn.pending_recv
  pub shared : Perm (keys conn.pending_recv ++ rest) (all_addresses a)
  pub counted : length conn.pending_recv + length rest ≡ a.credits
  pub credits_at : conn.credits ≡ a.credits
  pub region : conn.mrs ≡ record { addr = a.base; length = a.chunk * a.credits } ∷ []

-- What is not posted is what the builder unit has received.
abbrev pub Owned : Area → Link → Type 0
Owned a link = Owing a link.conn (bases link.iov_vect)

abbrev InArea : ℕ → ℕ → ℕ → ℕ → ℕ → Type 0
InArea base chunk j n p = (base + chunk * j ≤ p) × (p + chunk ≤ base + chunk * (j + n))

pub address_in : (base chunk j n p : ℕ) → Mem p (addresses base chunk j n) → InArea base chunk j n p
address_in base chunk j zero p m = absurd (not-mem-nil m)
address_in base chunk j (suc n) p m =
    Or.elim (hlevel (le_prop)) (mem-cons.0 m) (λ e. omega (arith, e, mul-suc chunk j, fits))
      (λ later. omega (
        arith,
        address_in base chunk (suc j) n p later,
        mul-suc chunk j,
        ap (λ t. chunk * t) {x = suc j + n} {y = j + suc n} (omega arith),
      ))
  where
    fits : chunk * suc j ≤ chunk * (j + suc n)
    fits = mul-le-mul_left chunk (omega arith)

addresses-Nodup : (base chunk j n : ℕ) → 0 < chunk → Nodup (addresses base chunk j n)
addresses-Nodup base chunk j zero h = Nodup-nil
addresses-Nodup base chunk j (suc n) h = Nodup-cons.1 (
  λ m.
      absurd (omega (arith, address_in base chunk (suc j) n (base + chunk * j) m, mul-suc chunk j)),
  addresses-Nodup base chunk (suc j) n h,
)

pub address_aligned :
    (base chunk j n p : ℕ)
    → base % 8 ≡ 0
    → chunk % 8 ≡ 0
    → Mem p (addresses base chunk j n)
    → p % 8 ≡ 0
address_aligned base chunk j zero p h k m = absurd (not-mem-nil m)
address_aligned base chunk j (suc n) p h k m =
    Or.elim (hlevel) (mem-cons.0 m) (λ e. omega (arith, e, eighths))
      (address_aligned base chunk (suc j) n p h k)
  where
    eighths : chunk * j ≡ 8 * (chunk / 8 * j)
    eighths =
        ap (λ t. t * j) {x = chunk} {y = 8 * (chunk / 8)} (omega arith) ∙ mul_assoc 8 (chunk / 8) j

module _ {a : Area} {conn : Socket} {p : ℕ} {rest : List ℕ} (some_bytes : 0 < a.chunk)
    (o : Owing a conn (p ∷ rest)) where
  front : Perm (p ∷ (keys conn.pending_recv ++ rest)) (all_addresses a)
  front = Perm.trans (Perm.symm (perm_middle (keys conn.pending_recv) rest)) o.shared

  -- A piece that is not posted is no key of the posted ones, and lies in the area.
  pub not_posted : find p conn.pending_recv ≡ none
  not_posted = find-not-Mem p conn.pending_recv (λ m.
      (Nodup-cons.0
          (Perm.nodup (Perm.symm front) (addresses-Nodup a.base a.chunk 0 a.credits some_bytes))).0
        (mem-append_left rest m))

  pub held : (a.base ≤ p) × (p + a.chunk ≤ a.base + a.chunk * a.credits)
  held =
      omega (arith, address_in a.base a.chunk 0 a.credits p ((Perm.mem_iff front).0 mem-cons_self))
