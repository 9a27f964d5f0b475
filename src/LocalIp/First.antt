-- ===== src/LocalIp/First.antt =====
-- The address of an interface is the first one of its name that is of IPv4 or IPv6.
use lseb.Prelude.{
  ℕ, ◌≡◌, ◌≢◌, refl, sym, ap, ◌∙◌, Result, ok, err, aborted, ◌⊎◌, inl, inr, List, [], ◌∷◌, ◌++◌,
  some, none, Option, Bool-cases,
}
use lseb.Hydra.Decimal.{Text}
use lseb.Endpoints.{same_text}
use lseb.Endpoints.Nodes.{same_text-eq, same_text_refl}
use lseb.LocalIp.{
  Family, inet, inet6, other_family, SockAddr, IfAddr, Resolver, search, get_local_ip,
  iface_or_default, main_ip,
}

-- The interface has the name, and the address is one of IPv4 or IPv6.
pub record Usable (iface : Text) (ifa : IfAddr) (addr : SockAddr) : Type 0 where
  pub name_at : ifa.ifa_name ≡ iface
  pub address_at : ifa.ifa_addr ≡ some addr
  pub is_ip : addr.sa_family ≢ other_family

abbrev pub Unusable : Text → List IfAddr → Type 0
Unusable iface [] = Unit {0}
Unusable iface (ifa ∷ ifas) = ((addr : SockAddr) → ¬ Usable iface ifa addr) × Unusable iface ifas

-- The answer for the interface's name, out of the list of all.
abbrev pub First : Resolver → Text → List IfAddr → Result Text → Type 0
First r iface ifas answer =
    ((before : List IfAddr) × (ifa : IfAddr) × (after : List IfAddr) × (addr : SockAddr) × (ifas
        ≡ before ++ ifa ∷ after)
      × Unusable iface before
      × Usable iface ifa addr
      × (answer ≡ ok (r.inet_ntop addr.sa_family addr.address)))
    ⊎ (Unusable iface ifas × (answer ≡ err aborted))

abbrev interface : Text → Option SockAddr → IfAddr
interface name addr = record { ifa_name = name; ifa_addr = addr }

module _ (r : Resolver) (iface : Text) where
  First-skip :
      (ifa : IfAddr) (ifas : List IfAddr) (answer : Result Text)
      → ((addr : SockAddr) → ¬ Usable iface ifa addr)
      → First r iface ifas answer
      → First r iface (ifa ∷ ifas) answer
  First-skip ifa ifas answer n (inl (before, found, after, addr, e, us, u, f)) =
      inl (ifa ∷ before, found, after, addr, ap (λ l. ifa ∷ l) e, (n, us), u, f)
  First-skip ifa ifas answer n (inr (us, f)) = inr ((n, us), f)

  -- An interface of the name, by the family of its address.
  named-First :
      (family : Family) (address : List ℕ) (ifas : List IfAddr)
      → First r iface ifas (search r iface ifas)
      → First r iface
          (interface iface (some (record { sa_family = family; address = address })) ∷ ifas)
          (search r iface
            (interface iface (some (record { sa_family = family; address = address })) ∷ ifas))
  unfolding search
  named-First inet address ifas f = rw (same_text_refl iface) (
      inl (
        [],
        interface iface (some (record { sa_family = inet; address = address })),
        ifas,
        record { sa_family = inet; address = address },
        refl,
        tt,
        record { name_at = refl; address_at = refl; is_ip = λ e. cc },
        refl,
      ))
  named-First inet6 address ifas f = rw (same_text_refl iface) (
      inl (
        [],
        interface iface (some (record { sa_family = inet6; address = address })),
        ifas,
        record { sa_family = inet6; address = address },
        refl,
        tt,
        record { name_at = refl; address_at = refl; is_ip = λ e. cc },
        refl,
      ))
  named-First other_family address ifas f = rw (same_text_refl iface) (
      First-skip (interface iface (some (record { sa_family = other_family; address = address })))
        ifas _ (λ addr u. u.is_ip (cc u.address_at)) f)

  interface-First :
      (name : Text) (addr : Option SockAddr) (ifas : List IfAddr)
      → First r iface ifas (search r iface ifas)
      → First r iface (interface name addr ∷ ifas) (search r iface (interface name addr ∷ ifas))
  unfolding search
  interface-First name none ifas f = First-skip _ ifas _ (λ addr u. cc u.address_at) f
  interface-First name (some addr) ifas f = elim (Bool-cases (same_text iface name)) [
    | inl e ↦ rw⁻¹ (same_text-eq iface name e) (named-First addr.sa_family addr.address ifas f)
    | inr e ↦ rw e (
        First-skip (interface name (some addr)) ifas _
          (λ a u. cc (sym e ∙ ap (same_text iface) u.name_at, same_text_refl iface)) f)
  ]

  pub search-First : (ifas : List IfAddr) → First r iface ifas (search r iface ifas)
  unfolding search
  search-First [] = inr (tt, refl)
  search-First (ifa ∷ ifas) = interface-First ifa.ifa_name ifa.ifa_addr ifas (search-First ifas)

-- The address that `main` publishes is that of the first interface which has the name of the
-- configuration, or `ib0` if that is empty, and an address of IPv4 or IPv6; the program aborts
-- exactly if there is none.
pub main_ip-First :
    (r : Resolver) (iface : Text) → First r (iface_or_default iface) r.getifaddrs (main_ip r iface)
unfolding main_ip iface_or_default get_local_ip
main_ip-First r [] = search-First r (b'i' ∷ b'b' ∷ b'0' ∷ []) r.getifaddrs
main_ip-First r (c ∷ iface) = search-First r (c ∷ iface) r.getifaddrs
