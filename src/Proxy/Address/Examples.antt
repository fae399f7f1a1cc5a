-- ===== src/Proxy/Address/Examples.antt =====
-- Runs of the classifier, and the theorems at them.
use verdikt.Base.{every, leb, and-eq-true, leb→le, starts_with, ends_with, ◌&&◌, length}
use verdikt.Proxy.Address.{inside, parse_ipv4}
use verdikt.Proxy.Address.Octets.{AreBytes}
use verdikt.Proxy.Address.Ranges.{address}
use verdikt.Base.{ℕ, ◌≡◌, refl, List, [], ◌∷◌, js, some, true, false, ◌↔◌}
use verdikt.Proxy.Address.{is_private_host, parse_ipv6, is_private_ipv6}
use verdikt.Proxy.Address.Ranges.{IsReserved}
use verdikt.Proxy.Address.Local.{is_private_ipv6_iff, IsLocal, is_private_host-public}

mapped_loopback : is_private_host (js "[::ffff:7f00:1]") ≡ true
unfolding is_private_host
mapped_loopback = refl

metadata : is_private_host (js "169.254.169.254") ≡ true
unfolding is_private_host
metadata = refl

open_host : is_private_host (js "[2001:db8::1]") ≡ false
unfolding is_private_host
open_host = refl

named : is_private_host (js "api.LOCALHOST") ≡ true
unfolding is_private_host
named = refl

abbrev unique_local : List ℕ
unique_local = 253 ∷ 0 ∷ 0 ∷ 0 ∷ 0 ∷ 0 ∷ 0 ∷ 0 ∷ 0 ∷ 0 ∷ 0 ∷ 0 ∷ 0 ∷ 0 ∷ 0 ∷ 1 ∷ []

is_private_ipv6_iff_example : (is_private_ipv6 unique_local ≡ true) ↔ IsLocal unique_local
is_private_ipv6_iff_example = is_private_ipv6_iff unique_local refl (bytes unique_local refl)
  where
    bytes : (b : List ℕ) → every (λ x. leb x 255) b ≡ true → AreBytes b
    bytes [] h = tt
    bytes (x ∷ b) h = let (p, q) = and-eq-true (leb x 255) _ h in (leb→le x 255 p, bytes b q)

public_dns : is_private_host (js "8.8.8.8") ≡ false
unfolding is_private_host
public_dns = refl

is_private_host-public_example :
    ((starts_with (91 ∷ []) (js "8.8.8.8") && ends_with (93 ∷ []) (js "8.8.8.8")) ≡ true
      → (b : List ℕ) × (parse_ipv6 (inside (js "8.8.8.8")) ≡ some b)
        × (length b ≡ 16)
        × ¬ (IsLocal b))
    × ((a b c d : ℕ)
        → (starts_with (91 ∷ []) (js "8.8.8.8") && ends_with (93 ∷ []) (js "8.8.8.8")) ≡ false
        → parse_ipv4 (js "8.8.8.8") ≡ some (a ∷ b ∷ c ∷ d ∷ [])
        → ¬ (IsReserved (address a b c d)))
is_private_host-public_example = is_private_host-public (js "8.8.8.8") public_dns
