-- ===== src/Addresses/Text.antt =====
-- What is read of a socket address that was written.
use udptun.Prelude.{ℕ, ◌≡◌, refl, ap, List, [], ◌∷◌, ◌++◌, some, length}
use udptun.Addresses.{SocketAddress, write_address, read_address, skip_bytes}
use udptun.Wire.{Bytes}

skip_bytes-length :
    (bytes : Bytes) (rest : List ℕ) → skip_bytes (length bytes) (bytes ++ rest) ≡ rest
unfolding skip_bytes
skip_bytes-length [] rest = refl
skip_bytes-length (b ∷ bytes) rest = skip_bytes-length bytes rest

-- When an address with bytes is written and read again, with anything after it, the numbers of its
-- bytes are read, but the address that is read has what the memory of the new array held, whatever
-- the bytes were.
pub read-write_lost :
    (fresh : ℕ → Bytes) (b : ℕ) (bytes : Bytes) (rest : List ℕ)
    → let a : SocketAddress = record { len = length (b ∷ bytes); base = some (b ∷ bytes) } in
      read_address fresh (write_address a ++ rest)
      ≡ (record { len = length (b ∷ bytes); base = some (fresh (length (b ∷ bytes))) }, rest)
unfolding read_address write_address skip_bytes
read-write_lost fresh b bytes rest =
    ap (λ r. (record { len = length (b ∷ bytes); base = some (fresh (length (b ∷ bytes))) }, r))
      (skip_bytes-length bytes rest)
