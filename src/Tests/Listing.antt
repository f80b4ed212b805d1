-- ===== src/Tests/Listing.antt =====
-- The list of interfaces for three addresses of two interfaces.
use nmdaemon.Group.FromIfaddrs.{Ifaddrs, of_ifaddrs}
use nmdaemon.Address.{ip4_of_sockaddr}
use nmdaemon.Interface.{add_address}
use nmdaemon.Platform.{SockAddr, inet}
use nmdaemon.Prelude.{ℕ, ◌≡◌, refl, some, none, ok, List, map, ◌>>=◌, [], ◌∷◌}
use nmdaemon.RcConf.Read.{text_lt}
use nmdaemon.Sys.IfList.Entries.{add_entries, of_name, collect-add_entries}
use nmdaemon.Sys.IfList.{IfMap, at, put, add_entry, collect}
use nmdaemon.Tests.Fixtures.{bsd, some_ntop4}
use nmdaemon.Text.{Text, codes}

abbrev word : ℕ → SockAddr
word a = record { family = inet; sin_addr = a; sin6_addr = 0 }

abbrev entry : Text → ℕ → Ifaddrs
entry n a = record {
  name = n;
  addr = some (word a);
  flags = 0x41;
  netmask = some (word 0xff);
  broadaddr = none;
  dstaddr = none;
}

abbrev listing : List Ifaddrs
listing =
    entry (codes "em0") 0x0100000a
    ∷ entry (codes "em1") 0x0200000a
    ∷ entry (codes "em0") 0x0200000a
    ∷ []

collect-add_entries_example :
    (m' : IfMap) × (collect bsd listing [] ≡ ok m')
    × ((n : Text) → add_entries bsd (of_name n listing) (at n []) ≡ ok (at n m'))
collect-add_entries_example = collect-add_entries bsd listing [] refl

-- What the loop makes of the three entries has two interfaces.
two_interfaces :
    (collect bsd listing [] >>= λ m. ok (map (λ e. e.0) m)) ≡ ok (codes "em0" ∷ codes "em1" ∷ [])
unfolding collect at put add_entry of_ifaddrs ip4_of_sockaddr some_ntop4 add_address text_lt
two_interfaces = refl
