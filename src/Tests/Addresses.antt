-- ===== src/Tests/Addresses.antt =====
-- A host with a loopback interface and two entries for `ib0`, of which the first has no address.
use lseb.Prelude.{◌≡◌, refl, ok, [], ◌∷◌, some, none}
use lseb.LocalIp.{inet, IfAddr, Resolver, search, get_local_ip, iface_or_default, main_ip}
use lseb.LocalIp.First.{First, main_ip-First}

abbrev loopback : IfAddr
loopback = record {
  ifa_name = b'l' ∷ b'o' ∷ [];
  ifa_addr = some (record { sa_family = inet; address = 127 ∷ 0 ∷ 0 ∷ 1 ∷ [] });
}

abbrev no_address : IfAddr
no_address = record { ifa_name = b'i' ∷ b'b' ∷ b'0' ∷ []; ifa_addr = none }

abbrev infiniband : IfAddr
infiniband = record {
  ifa_name = b'i' ∷ b'b' ∷ b'0' ∷ [];
  ifa_addr = some (record { sa_family = inet; address = 10 ∷ 0 ∷ 0 ∷ 7 ∷ [] });
}

-- The library's texts are the bytes of the addresses here.
abbrev resolver : Resolver
resolver = record {
  gethostname = none;
  gethostbyname = λ name. none;
  inet_ntoa = λ addr. addr;
  getifaddrs = loopback ∷ no_address ∷ infiniband ∷ [];
  inet_ntop = λ family addr. addr;
}

-- Without a name in the configuration the address is that of `ib0`.
default_interface : main_ip resolver [] ≡ ok (10 ∷ 0 ∷ 0 ∷ 7 ∷ [])
unfolding main_ip iface_or_default get_local_ip search lseb.Endpoints.same_text
default_interface = refl

main_ip-First_example :
    First resolver
      (iface_or_default [])
      (loopback ∷ no_address ∷ infiniband ∷ [])
      (main_ip resolver [])
main_ip-First_example = main_ip-First resolver []
