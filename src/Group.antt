-- ===== src/Group.antt =====
-- AddressGroup (src/addressgroup.h, src/addressgroup.cpp): an address with its mask, and its
-- broadcast address or gateway. The children hold the constructor from getifaddrs(3), the JSON
-- and text forms, the validity test, and their laws.
pub mod FromIfaddrs
pub mod Print
pub mod Valid
pub mod Flags
use nmdaemon.Address.{Address}
use nmdaemon.Prelude.{ℕ, Bool, true, false, Option, none, some, String}

pub data GroupType : Type 0 where
  bcast ppp link loopback route unknown : GroupType

-- magic_enum::enum_name
unfoldable pub type_name : GroupType → String
type_name bcast = "BCAST"
type_name ppp = "PPP"
type_name link = "LINK"
type_name loopback = "LOOPBACK"
type_name route = "ROUTE"
type_name unknown = "UNKNOWN"

-- A null pointer is `none`.
pub record Group : Type 0 where
  pub ip_type : GroupType
  pub address : Option Address
  pub mask : Option Address
  pub extra : Option Address
  pub flags : ℕ
  pub is_up : Bool
  pub is_running : Bool
  pub is_primary : Bool
  pub is_jail : Bool

-- The constructor with the default arguments of the header from `up` on.
abbrev pub make : Option Address → Option Address → Option Address → GroupType → Group
make addr mask extra type = record {
  ip_type = type;
  address = addr;
  mask = mask;
  extra = extra;
  flags = 0;
  is_up = false;
  is_running = false;
  is_primary = false;
  is_jail = false;
}

abbrev pub set_primary : Bool → Group → Group
set_primary b g = record g { is_primary = b }

abbrev pub set_jail : Bool → Group → Group
set_jail b g = record g { is_jail = b }

abbrev pub set_type : GroupType → Group → Group
set_type t g = record g { ip_type = t }
