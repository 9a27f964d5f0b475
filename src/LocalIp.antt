-- ===== src/LocalIp.antt =====
-- common/local_ip.h, and the choice of the interface in main.cpp: the address that a node publishes. What the C library
-- answers is an argument.
pub mod First
use lseb.Prelude.{
  ℕ, Bool, true, false, Result, ok, err, aborted, undefined, ltb, if◌then◌else◌, List, [], ◌∷◌,
  length, Option, none, some,
}
use lseb.Hydra.Decimal.{Text}
use lseb.Endpoints.{same_text}

pub data Family : Type 0 where
  inet inet6 other_family : Family

pub record SockAddr : Type 0 where
  pub sa_family : Family
  pub address : List ℕ

pub record IfAddr : Type 0 where
  pub ifa_name : Text
  pub ifa_addr : Option SockAddr

-- What the C library answers: `getifaddrs` is the list that it leaves in its argument, and `inet_ntop` the text in a
-- buffer of the size that its header gives for the family.
pub record Resolver : Type 0 where
  pub gethostname : Option Text
  pub gethostbyname : Text → Option (List (List ℕ))
  pub inet_ntoa : List ℕ → Text
  pub getifaddrs : List IfAddr
  pub inet_ntop : Family → List ℕ → Text

-- The interface of the configuration; an empty name stands for `ib0`.
unfoldable pub iface_or_default : Text → Text
iface_or_default [] = b'i' ∷ b'b' ∷ b'0' ∷ []
iface_or_default (c ∷ iface) = c ∷ iface

module _ (r : Resolver) where
  -- The first address of the host, in a buffer of 256 characters. The pointer behind the last address is null.
  unfoldable pub first_address : Option (List (List ℕ)) → Result Text
  first_address none = err aborted
  first_address (some []) = err undefined
  first_address (some (addr ∷ addrs)) =
      let text = r.inet_ntoa addr in if ltb (length text) 256 then ok text else err undefined

  unfoldable pub get_host_ip : Text → Result Text
  get_host_ip hostname = first_address (r.gethostbyname hostname)

  -- The branch for an empty name. The answer of `gethostname` is not looked at, and without one the
  -- buffer is not initialised.
  unfoldable pub own_host_ip : Option Text → Result Text
  own_host_ip none = err undefined
  own_host_ip (some hostname) = get_host_ip hostname

  -- The loop over the interfaces.
  unfoldable pub search : Text → List IfAddr → Result Text
  search iface [] = err aborted
  search iface (ifa ∷ ifas) =
      let rest = search iface ifas in
      elim ifa.ifa_addr [
        | none ↦ rest
        | some addr ↦
            if same_text iface ifa.ifa_name
            then elim addr.sa_family [
              | inet ↦ ok (r.inet_ntop inet addr.address)
              | inet6 ↦ ok (r.inet_ntop inet6 addr.address)
              | other_family ↦ rest
            ]
            else rest
      ]

  unfoldable pub get_local_ip : Text → Result Text
  get_local_ip [] = own_host_ip r.gethostname
  get_local_ip (c ∷ iface) = search (c ∷ iface) r.getifaddrs

  -- The address that `main` publishes.
  unfoldable pub main_ip : Text → Result Text
  main_ip iface = get_local_ip (iface_or_default iface)
