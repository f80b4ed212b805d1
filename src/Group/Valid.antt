-- ===== src/Group/Valid.antt =====
-- AddressGroup::isValidIp, isValidIp4 and isValidIp6 (src/addressgroup.cpp).
use nmdaemon.Address.{Address, get_family, get_sock_addr}
use nmdaemon.Group.{GroupType, Group}
use nmdaemon.Platform.{Family, inet}
use nmdaemon.Prelude.{ℕ, Bool, true, false, Option, none, some, Result, ok, deref, ◌>>=◌}
use nmdaemon.Tool.Ip4.{is_valid_gw4, is_valid_bcast4}

-- addr_nbo, mask_nbo: 0 for a null pointer.
unfoldable pub nbo : Option Address → ℕ
unfolding get_sock_addr
nbo none = 0
nbo (some a) = (get_sock_addr a).sin_addr

valid_bcast : ℕ → ℕ → Option Address → Bool
unfolding nbo
valid_bcast addr mask none = false
valid_bcast addr mask (some d) = is_valid_bcast4 addr mask (nbo (some d))

unfoldable pub valid_gw : ℕ → ℕ → Option Address → Bool
unfolding nbo
valid_gw addr mask none = false
valid_gw addr mask (some d) = is_valid_gw4 addr mask (nbo (some d))

unfoldable pub is_valid_ip4 : GroupType → Group → Bool
unfolding nbo valid_bcast valid_gw
is_valid_ip4 GroupType.bcast g = valid_bcast (nbo g.address) (nbo g.mask) g.extra
is_valid_ip4 GroupType.ppp g = valid_gw (nbo g.address) (nbo g.mask) g.extra
is_valid_ip4 _ g = true

unfoldable pub is_valid_of : Family → Group → Bool
unfolding is_valid_ip4
is_valid_of inet g = is_valid_ip4 g.ip_type g
is_valid_of _ g = true

-- spIpAddress is read with no test.
unfoldable pub is_valid_ip : Group → Result Bool
unfolding is_valid_of get_family
is_valid_ip g = do a ← deref g.address; ok (is_valid_of (get_family a) g)
