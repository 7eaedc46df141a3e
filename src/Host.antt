-- ===== src/Host.antt =====
-- The host's byte order: how `uint16_t` and `uint32_t` lie in memory, and `htons`, `htonl`,
-- `ntohs`, `ntohl`, which the sources of the database, of the server and of the client call.
use lowlevel_academy.Prelude.{
  ℕ, ◌+◌, ◌*◌, ◌/◌, ◌%◌, ◌^◌, ◌<◌, ◌≡◌, refl, List, [], ◌∷◌, ◌++◌, ap₂, arith,
}
pub mod Laws

pub data Endian : Type 0 where
  little big : Endian

-- The bytes of a number in memory, at the lowest address first.
unfoldable pub store16 : Endian → ℕ → List ℕ
store16 little x = (x % 256) ∷ (x / 256 % 256) ∷ []
store16 big x = (x / 256 % 256) ∷ (x % 256) ∷ []

unfoldable pub store32 : Endian → ℕ → List ℕ
store32 little x = (x % 256) ∷ (x / 256 % 256) ∷ (x / 65536 % 256) ∷ (x / 16777216 % 256) ∷ []
store32 big x = (x / 16777216 % 256) ∷ (x / 65536 % 256) ∷ (x / 256 % 256) ∷ (x % 256) ∷ []

-- The number that the first bytes hold. Fewer bytes than it takes hold 0: no caller reads there.
unfoldable pub load16 : Endian → List ℕ → ℕ
load16 little (a ∷ b ∷ _) = a + b * 256
load16 big (a ∷ b ∷ _) = a * 256 + b
load16 _ _ = 0

unfoldable pub load32 : Endian → List ℕ → ℕ
load32 little (a ∷ b ∷ c ∷ d ∷ _) = a + b * 256 + c * 65536 + d * 16777216
load32 big (a ∷ b ∷ c ∷ d ∷ _) = a * 16777216 + b * 65536 + c * 256 + d
load32 _ _ = 0

-- Network order is big-endian: a little-endian host swaps, a big-endian one does nothing.
unfoldable pub htons : Endian → ℕ → ℕ
htons little x = x % 256 * 256 + x / 256 % 256
htons big x = x % 65536

unfoldable pub htonl : Endian → ℕ → ℕ
htonl little x =
    x % 256 * 16777216 + x / 256 % 256 * 65536 + x / 65536 % 256 * 256 + x / 16777216 % 256
htonl big x = x % 4294967296

unfoldable pub ntohs : Endian → ℕ → ℕ
unfolding htons
ntohs e x = htons e x

unfoldable pub ntohl : Endian → ℕ → ℕ
unfolding htonl
ntohl e x = htonl e x
