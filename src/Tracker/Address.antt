-- ===== src/Tracker/Address.antt =====
-- Addresses and keys of peers: tracker/types.go (CompactIPPort) and tracker/optimize.go
-- (CompactIPv6Port, ValidateIPNotPrivate, PeerKeyPrime). Bytes are numbers below 256.
use ocelot.Prelude.{
  ℕ, ◌+◌, ◌/◌, ◌%◌, ◌^◌, ◌<◌, ◌≡◌, Bool, true, false, ◌&&◌, ◌||◌, not, Option, none, some, arith,
  if◌then◌else◌, ltb, leb, ◌==◌, nat_eq, list_eq, List, [], ◌∷◌, ◌++◌, length, zero, suc, ◌⊎◌,
}

-- `net.IP`: nil, an IPv4 address (in either of the two lengths that `To4` accepts), or the 16 bytes of
-- any other.
pub data Ip : Type 0 where
  nil_ip : Ip
  v4 : ℕ → ℕ → ℕ → ℕ → Ip
  v6 : List ℕ → Ip

-- byte(n >> 8) and byte(n & 0xFF)
abbrev port_bytes : ℕ → List ℕ
port_bytes port = port / 256 % 256 ∷ port % 256 ∷ []

unfoldable pub compact_ip_port : Ip → ℕ → Option (List ℕ)
compact_ip_port (v4 a b c d) port = some (a ∷ b ∷ c ∷ d ∷ port_bytes port)
compact_ip_port _ port = none

unfoldable pub compact_ipv6_port : Ip → ℕ → Option (List ℕ)
compact_ipv6_port (v6 bytes) port = some (bytes ++ port_bytes port)
compact_ipv6_port _ port = none

unfoldable pub validate_ip_not_private : Ip → Bool
validate_ip_not_private nil_ip = false
validate_ip_not_private (v6 bytes) = true
validate_ip_not_private (v4 a b c d) = not (
    a == 0
    || a == 10
    || a == 127
    || a == 169 && b == 254
    || a == 172 && (leb 16 b && leb b 31)
    || a == 192 && b == 168
    || leb 224 a)

abbrev all_zero : List ℕ → Bool
all_zero [] = true
all_zero (b ∷ bs) = b == 0 && all_zero bs

-- `IP.IsUnspecified`
unfoldable pub is_unspecified : Ip → Bool
is_unspecified nil_ip = false
is_unspecified (v4 a b c d) = a == 0 && (b == 0 && (c == 0 && d == 0))
is_unspecified (v6 bytes) = all_zero bytes

-- `IP.Equal`
unfoldable pub ip_equal : Ip → Ip → Bool
ip_equal nil_ip nil_ip = true
ip_equal (v4 a b c d) (v4 a' b' c' d') = a == a' && (b == b' && (c == c' && d == d'))
ip_equal (v6 xs) (v6 ys) = xs == ys
ip_equal _ _ = false

-- The byte at a position; out of range, where Go panics, 0. The key's only reading is in range.
abbrev byte_at : ℕ → List ℕ → ℕ
byte_at n [] = 0
byte_at zero (b ∷ bs) = b
byte_at (suc n) (b ∷ bs) = byte_at n bs

-- The user's id is a uint32.
unfoldable pub peer_key_prime : List ℕ → ℕ → ℕ → List ℕ
peer_key_prime peer_id user torrent =
    if ltb (length peer_id) 20
    then peer_id
    else byte_at (12 + torrent % 16381 % 8) peer_id
      ∷ user / 2 ^ 24 % 256
      ∷ user / 2 ^ 16 % 256
      ∷ user / 2 ^ 8 % 256
      ∷ user % 256
      ∷ peer_id

-- The peer and the torrent's id are read back from the key: within one torrent, two announces meet
-- the same entry exactly when the same user sends the same peer id.
pub peer_key_prime-injective :
    (p q : List ℕ) (u v torrent : ℕ)
    → length p ≡ 20
    → length q ≡ 20
    → u < 2 ^ 32
    → v < 2 ^ 32
    → peer_key_prime p u torrent ≡ peer_key_prime q v torrent
    → (p ≡ q) × (u ≡ v)
unfolding peer_key_prime
peer_key_prime-injective p q u v torrent hp hq hu hv e = ground arith

abbrev IsByte : ℕ → Type 0
IsByte n = n < 256

-- The six bytes of the compact format determine the address and the port; a peer whose address is
-- not an IPv4 one has none.
pub compact_ip_port-injective :
    (i j : Ip) (p q : ℕ)
    → p < 2 ^ 16
    → q < 2 ^ 16
    → compact_ip_port i p ≡ compact_ip_port j q
    → ((compact_ip_port i p ≡ none) × (compact_ip_port j q ≡ none)) ⊎ ((i ≡ j) × (p ≡ q))
unfolding compact_ip_port
compact_ip_port-injective i j p q hp hq e = ground arith
