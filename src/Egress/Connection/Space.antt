-- ===== src/Egress/Connection/Space.antt =====
-- The receive buffer of a connection always has room.
use udptun.Prelude.{ℕ, ◌<◌, ◌≡◌, [], ◌∷◌, none, arith, length, get_or, zero, suc}
use udptun.Wire.{Bytes, IsBytes, decode_message}
use udptun.Egress.Connection.{buffer_size}

get_or-lt : (i : ℕ) (bs : Bytes) → IsBytes bs → get_or bs i 0 < 256
get_or-lt i [] v = omega arith
get_or-lt zero (b ∷ bs) v = v.0
get_or-lt (suc i) (b ∷ bs) v = get_or-lt i bs v.1

-- A buffer of bytes that holds no whole message is not full.
pub unfinished-lt-buffer_size :
    (buf : Bytes) → IsBytes buf → decode_message buf ≡ none → length buf < buffer_size
unfolding decode_message
unfinished-lt-buffer_size buf v h = ground (arith, get_or-lt 4 buf v, get_or-lt 5 buf v)
