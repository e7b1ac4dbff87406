-- ===== src/Addresses.antt =====
-- `AddressEntry` and `SocketAddress`: addrent.hh, addrent.cc, sockaddrs.hh and sockaddrs.cc. A byte is
-- a number. The text of a socket address is the list of the numbers that are written, which blanks
-- separate.
pub mod Order
pub mod Set
pub mod Text
pub mod Found
use udptun.Prelude.{
  ℕ, zero, suc, Bool, true, false, List, [], ◌∷◌, ◌++◌, Option, none, some, length, ltb,
  if◌then◌else◌,
}
use udptun.Wire.{Bytes}

pub record AddressEntry : Type 0 where
  pub flags : ℕ
  pub family : ℕ
  pub socktype : ℕ
  pub protocol : ℕ
  pub addr : Bytes

-- Whether `memcmp` of two arrays of one length is negative.
unfoldable pub memcmp_less : Bytes → Bytes → Bool
memcmp_less [] ys = false
memcmp_less (x ∷ xs) [] = false
memcmp_less (x ∷ xs) (y ∷ ys) =
    let rest = memcmp_less xs ys in if ltb x y then true else if ltb y x then false else rest

-- `operator <` of address entries; `addrlen` is the length of the address.
unfoldable pub entry_less : AddressEntry → AddressEntry → Bool
entry_less l r =
    if ltb l.flags r.flags
    then true
    else if ltb r.flags l.flags
    then false
    else if ltb l.family r.family
    then true
    else if ltb r.family l.family
    then false
    else if ltb l.socktype r.socktype
    then true
    else if ltb r.socktype l.socktype
    then false
    else if ltb l.protocol r.protocol
    then true
    else if ltb r.protocol l.protocol
    then false
    else if ltb (length l.addr) (length r.addr)
    then true
    else if ltb (length r.addr) (length l.addr)
    then false
    else memcmp_less l.addr r.addr

-- `std::set<AddressEntry>::emplace`
unfoldable pub emplace_entry : AddressEntry → List AddressEntry → List AddressEntry
emplace_entry a [] = a ∷ []
emplace_entry a (b ∷ set) =
    let rest = emplace_entry a set in
    if entry_less a b then a ∷ b ∷ set else if entry_less b a then b ∷ rest else b ∷ set

-- The loop of `TCPEgress::activate` over the result of `getaddrinfo`.
unfoldable pub entries : List AddressEntry → List AddressEntry → List AddressEntry
entries [] set = set
entries (a ∷ info) set = entries info (emplace_entry a set)

-- `base` is none for a null pointer.
pub record SocketAddress : Type 0 where
  pub len : ℕ
  pub base : Option Bytes

-- `operator <` of socket addresses
unfoldable pub address_less : SocketAddress → SocketAddress → Bool
address_less l r =
    if ltb l.len r.len then true else if ltb r.len l.len then false else elim r.base [
      | none ↦ false
      | some ys ↦ elim l.base [ none ↦ true | some xs ↦ memcmp_less xs ys ]
    ]

-- `operator <<`
unfoldable pub write_address : SocketAddress → List ℕ
write_address a = elim a.base [ none ↦ a.len ∷ [] | some bytes ↦ a.len ∷ bytes ]

-- The numbers that the loop of `operator >>` reads, where there are so many.
unfoldable pub skip_bytes : ℕ → List ℕ → List ℕ
skip_bytes zero text = text
skip_bytes (suc n) [] = []
skip_bytes (suc n) (b ∷ text) = skip_bytes n text

-- `operator >>`: each number that is read is overwritten by what the new array holds, which is given
-- by its length, and the array is left as it is. A length that cannot be read is 0.
unfoldable pub read_address : (ℕ → Bytes) → List ℕ → SocketAddress × List ℕ
read_address fresh [] = (record { len = 0; base = none }, [])
read_address fresh (zero ∷ text) = (record { len = 0; base = none }, text)
read_address fresh (suc n ∷ text) =
    (record { len = suc n; base = some (fresh (suc n)) }, skip_bytes (suc n) text)
