-- ===== src/Platform.antt =====
-- FreeBSD as the code sees it: socket addresses, the flags of <net/if.h>, and the address
-- functions of the C library, which are not part of the repository.
use nmdaemon.Prelude.{ℕ, Bool, true, false, Option, ◌==◌}
use nmdaemon.Text.{Text}

-- sa_family; `other` is any family that the code does not name.
pub data Family : Type 0 where
  inet inet6 link : Family
  other : ℕ → Family

unfoldable pub family_eq : Family → Family → Bool
family_eq inet inet = true
family_eq inet6 inet6 = true
family_eq link link = true
family_eq (other m) (other n) = m == n
family_eq _ _ = false

-- struct sockaddr_storage: bytes 4 to 7, where a sockaddr_in has its address, and bytes 8 to 23,
-- where a sockaddr_in6 has it, each as one number in network byte order.
pub record SockAddr : Type 0 where
  pub family : Family
  pub sin_addr : ℕ
  pub sin6_addr : ℕ

pub record Platform : Type 0 where
  pub iff_up : ℕ
  pub iff_loopback : ℕ
  pub iff_pointopoint : ℕ
  pub iff_running : ℕ
  -- inet_pton(AF_INET, s, ...) == 1, on the bytes of s in front of its NUL, and inet_ntop(AF_INET, ...) != nullptr
  pub inet_pton4 : Text → Option ℕ
  pub inet_ntop4 : ℕ → Option Text
  pub inet_pton6 : Text → Option ℕ
  pub inet_ntop6 : ℕ → Option Text
  pub link_ntoa : SockAddr → Text
  pub link_addr : Text → SockAddr
