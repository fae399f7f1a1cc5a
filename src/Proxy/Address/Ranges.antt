-- ===== src/Proxy/Address/Ranges.antt =====
-- The private addresses as ranges of numbers, which the tests on bytes come to.
use verdikt.Base.{ℕ, ◌+◌, ◌*◌, ◌≤◌, ◌≡◌, true, arith, ◌↔◌, ◌⊎◌}
use verdikt.Proxy.Address.{is_private_quad}

-- The number that an IPv4 address is.
abbrev pub address : ℕ → ℕ → ℕ → ℕ → ℕ
address a b c d = a * 16777216 + b * 65536 + c * 256 + d

-- First and last address of a block.
abbrev pub Within : ℕ → ℕ → ℕ → Type 0
Within low high n = (low ≤ n) × (n ≤ high)

-- 0.0.0.0/8, 10.0.0.0/8, 127.0.0.0/8, 169.254.0.0/16, 172.16.0.0/12, 192.168.0.0/16,
-- 100.64.0.0/10 and 255.255.255.255/32.
abbrev pub IsReserved : ℕ → Type 0
IsReserved n =
    Within 0 16777215 n
    ⊎ Within 167772160 184549375 n
    ⊎ Within 2130706432 2147483647 n
    ⊎ Within 2851995648 2852061183 n
    ⊎ Within 2886729728 2887778303 n
    ⊎ Within 3232235520 3232301055 n
    ⊎ Within 1681915904 1686110207 n
    ⊎ (n ≡ 4294967295)

-- Four bytes are a private address exactly when the 32-bit number they write lies in a reserved
-- block.
pub is_private_quad_iff :
    (a b c d : ℕ)
    → a ≤ 255
    → b ≤ 255
    → c ≤ 255
    → d ≤ 255
    → (is_private_quad a b c d ≡ true) ↔ IsReserved (address a b c d)
is_private_quad_iff a b c d ha hb hc hd = ground arith
