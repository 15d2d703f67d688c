-- ===== src/Network/Ip.antt =====
-- net.IP as the DHCP services read it, and ipToUint of backend/internal/network/leasepool.go.
use helboot.Prelude.{ℕ, ◌^◌, Bool, true, false, Option, none, some, ◌==◌, ℕ_eq}

-- A nil slice, an IPv4 address (of 4 bytes, or mapped into 16), and any other IPv6 address.
pub data Ip : Type 0 where
  absent : Ip
  v4 : ℕ → Ip
  v6 : ℕ → Ip

abbrev pub u32_mod : ℕ
u32_mod = 2 ^ 32

-- The error is for what To4 refuses.
unfoldable pub ip_to_uint : Ip → Option ℕ
ip_to_uint absent = none
ip_to_uint (v4 n) = some n
ip_to_uint (v6 n) = none

-- ip.IsUnspecified()
unfoldable pub is_unspecified : Ip → Bool
is_unspecified absent = false
is_unspecified (v4 n) = n == 0
is_unspecified (v6 n) = n == 0

-- a.Equal(b)
unfoldable pub ip_equal : Ip → Ip → Bool
ip_equal absent absent = true
ip_equal (v4 a) (v4 b) = a == b
ip_equal (v6 a) (v6 b) = a == b
ip_equal _ _ = false
