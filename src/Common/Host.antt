-- ===== src/Common/Host.antt =====
-- What the serialising code takes from the host: the order of the bytes of a `uint16_t` in memory,
-- which the language leaves to the implementation, and `htons` and `ntohs` of `<netdb.h>`.
use arq_benchmark.Base.{ℕ, suc, zero, ◌+◌, ◌*◌, ◌/◌, ◌%◌, ◌^◌, ◌<◌, ◌≡◌, List, [], ◌∷◌, get_or}

-- A byte is a number below 256, and a `uint16_t` a number below 65536.
abbrev pub byte_mod : ℕ
byte_mod = 256

abbrev pub u16_mod : ℕ
u16_mod = 65536

pub data Endian : Type 0 where
  little big : Endian

-- The object representation of a `uint16_t`, lowest address first.
abbrev pub object_bytes : Endian → ℕ → List ℕ
object_bytes little x = x % byte_mod ∷ x / byte_mod ∷ []
object_bytes big x = x / byte_mod ∷ x % byte_mod ∷ []

-- The `uint16_t` whose object representation is two given bytes.
abbrev pub object_value : Endian → ℕ → ℕ → ℕ
object_value little first second = second * byte_mod + first
object_value big first second = first * byte_mod + second

pub record Host : Type 0 where
  pub endian : Endian
  pub htons : ℕ → ℕ
  pub ntohs : ℕ → ℕ

-- The documented behaviour of the two functions: in network byte order, which is that of the bytes
-- in memory, the most significant byte comes first.
pub record IsNetworkOrder (host : Host) : Type 0 where
  pub htons_bytes :
      (x : ℕ)
      → x < u16_mod
      → object_bytes host.endian (host.htons x) ≡ x / byte_mod ∷ x % byte_mod ∷ []
  pub ntohs_value :
      (hi lo : ℕ)
      → hi < byte_mod
      → lo < byte_mod
      → host.ntohs (object_value host.endian hi lo) ≡ hi * byte_mod + lo

-- `memcpy(buffer.data() + pos, src, n)`, where it fits: bytes past the end are not written.
abbrev pub memcpy : ℕ → List ℕ → List ℕ → List ℕ
memcpy pos [] buffer = buffer
memcpy pos (x ∷ src) [] = []
memcpy zero (x ∷ src) (y ∷ buffer) = x ∷ memcpy zero src buffer
memcpy (suc pos) (x ∷ src) (y ∷ buffer) = y ∷ memcpy pos (x ∷ src) buffer

-- `memcpy` of two bytes at `pos` into a `uint16_t`.
abbrev pub load_u16 : Endian → ℕ → List ℕ → ℕ
load_u16 e pos buffer = object_value e (get_or buffer pos 0) (get_or buffer (suc pos) 0)

-- A `size_t` is a number below 2 ^ 64.
abbrev pub size_mod : ℕ
size_mod = 2 ^ 64
