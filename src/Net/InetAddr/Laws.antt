-- ===== src/Net/InetAddr/Laws.antt =====
-- src/net/InetAddr.cpp: the order of the addresses, and an address through its text.
use user_center.Base.{ℕ, ◌<◌, ◌^◌, ◌≡◌, ◌⊎◌, refl, some, Bool, true, false, arith}
use user_center.Net.InetAddr.{
  AddressCalls, InetAddr, af_inet, same_addr, less_addr, inet_addr, to_ip, to_port, address_of,
}

-- What the C library documents of its functions: network order and back, and address to text and back.
pub record AddressLaws (calls : AddressCalls) : Type 0 where
  pub order_law : (p : ℕ) → p < 2 ^ 16 → calls.htons (calls.ntohs p) ≡ p
  pub text_law : (a : ℕ) → a < 2 ^ 32 → calls.inet_pton (calls.inet_ntop a) ≡ some a

-- Exactly one of three tests holds.
abbrev pub OneOf : Bool → Bool → Bool → Type 0
OneOf a b c =
    ((a ≡ true) × (b ≡ false) × (c ≡ false))
    ⊎ (((a ≡ false) × (b ≡ true) × (c ≡ false)) ⊎ ((a ≡ false) × (b ≡ false) × (c ≡ true)))

-- Of two addresses exactly one holds: the first is less, they are equal, or the second is less; and
-- what is less than an address is less than all that it is less than.
pub less_addr-OneOf :
    (a b c : InetAddr)
    → OneOf (less_addr a b) (same_addr a b) (less_addr b a)
      × (less_addr a b ≡ true → less_addr b c ≡ true → less_addr a c ≡ true)
unfolding less_addr same_addr
less_addr-OneOf a b c = (ground arith, λ h k. ground arith)

-- An address that is printed as text and port, and made of them again, is that address, while the C
-- library's functions do what they document.
pub inet_addr-to_ip :
    (calls : AddressCalls) (laws : AddressLaws calls) (a : InetAddr)
    → a.family ≡ af_inet
    → a.port < 2 ^ 16
    → a.address < 2 ^ 32
    → inet_addr calls (to_ip calls a) (to_port calls a) ≡ a
unfolding inet_addr to_ip to_port address_of
inet_addr-to_ip calls laws a f h k =
    rw (laws.order_law a.port h, laws.text_law a.address k, f, address_of) refl
