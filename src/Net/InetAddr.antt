-- ===== src/Net/InetAddr.antt =====
-- include/net/InetAddr.h and src/net/InetAddr.cpp: an IPv4 address with its port. The byte orders and the
-- two functions between texts and addresses are the C library's, and a parameter.
pub mod Laws
use user_center.Base.{
  ℕ, Option, none, some, Bool, not, ◌&&◌, ◌++◌, Bytes, codes, to_string, ltb, if◌then◌else◌, ◌==◌,
}

-- htons(3), ntohs(3), htonl(3), inet_pton(3) and inet_ntop(3), for AF_INET. A text that is no address
-- is `none`.
pub record AddressCalls : Type 0 where
  pub htons : ℕ → ℕ
  pub ntohs : ℕ → ℕ
  pub htonl : ℕ → ℕ
  pub inet_pton : Bytes → Option ℕ
  pub inet_ntop : ℕ → Bytes

-- `sin_family`, `sin_port` and `sin_addr.s_addr`; the rest of the struct is zero.
pub record InetAddr : Type 0 where
  pub family : ℕ
  pub port : ℕ
  pub address : ℕ

abbrev pub af_inet : ℕ
af_inet = 2

abbrev pub inaddr_any : ℕ
inaddr_any = 0

-- `operator==` and `operator<`
unfoldable pub same_addr : InetAddr → InetAddr → Bool
same_addr a b = a.address == b.address && a.port == b.port

unfoldable pub less_addr : InetAddr → InetAddr → Bool
less_addr a b = if not (a.address == b.address) then ltb a.address b.address else ltb a.port b.port

module _ (calls : AddressCalls) where
  open calls use {htons, ntohs, htonl, inet_pton, inet_ntop}

  unfoldable pub any_addr : InetAddr
  any_addr = record { family = af_inet; port = 0; address = htonl inaddr_any }

  -- A text that is no address is taken for INADDR_ANY.
  unfoldable pub address_of : Option ℕ → ℕ
  address_of (some a) = a
  address_of none = htonl inaddr_any

  unfoldable pub inet_addr : Bytes → ℕ → InetAddr
  unfolding address_of
  inet_addr ip port = record {
    family = af_inet;
    port = htons port;
    address = address_of (inet_pton ip);
  }

  unfoldable pub to_ip : InetAddr → Bytes
  to_ip a = inet_ntop a.address

  unfoldable pub to_port : InetAddr → ℕ
  to_port a = ntohs a.port

  unfoldable pub to_ip_port : InetAddr → Bytes
  unfolding to_ip to_port
  to_ip_port a = to_ip a ++ codes ":" ++ to_string (to_port a)
