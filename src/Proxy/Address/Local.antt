-- ===== src/Proxy/Address/Local.antt =====
-- Which IPv6 addresses are private, and what a host that passes the test is not.
use verdikt.Base.{
  ℕ, zero, suc, ◌+◌, ◌*◌, ◌≤◌, ◌≡◌, refl, Bool, true, false, List, [], ◌∷◌, Option, none, some,
  JsString, arith, ◌↔◌, ◌⊎◌, inl, inr, length, drop, ==_iff, ◌==◌, ◌&&◌, ◌||◌, starts_with,
  ends_with, if◌then◌else◌, and-eq-true,
}
use verdikt.Proxy.Address.{
  is_private_quad, is_private_ipv4, is_private_ipv6, zero_up_to, byte_at, mask_fe, mask_c0,
  private_or_refused, is_private_host, inside, parse_ipv4, parse_ipv6,
}
use verdikt.Proxy.Address.Ranges.{address, Within, IsReserved, is_private_quad_iff}
use verdikt.Proxy.Address.Octets.{AreBytes, parse_ipv4-AreBytes, parse_ipv6-AreBytes}

zero_up_to-suc : (n : ℕ) (b : List ℕ) → zero_up_to (suc n) b ≡ (zero_up_to n b && byte_at n b == 0)
zero_up_to-suc zero [] = refl
zero_up_to-suc (suc n) [] = refl
zero_up_to-suc zero (x ∷ b) = ground arith
zero_up_to-suc (suc n) (x ∷ b) = ground (arith, zero_up_to-suc n b)

AreBytes-at : (n : ℕ) (b : List ℕ) → AreBytes b → byte_at n b ≤ 255
AreBytes-at n [] h = omega arith
AreBytes-at zero (x ∷ b) (h, hs) = h
AreBytes-at (suc n) (x ∷ b) (h, hs) = AreBytes-at n b hs

-- The IPv4 address in the last four bytes.
abbrev pub last_quad : List ℕ → ℕ
last_quad b = address (byte_at 12 b) (byte_at 13 b) (byte_at 14 b) (byte_at 15 b)

last_quad_lem :
    (b : List ℕ)
    → length b ≡ 16
    → is_private_ipv4 (drop 12 b)
      ≡ is_private_quad (byte_at 12 b) (byte_at 13 b) (byte_at 14 b) (byte_at 15 b)
last_quad_lem b h = at 12 b (omega arith)
  where
    at :
        (n : ℕ) (b : List ℕ)
        → length b ≡ n + 4
        → is_private_ipv4 (drop n b)
          ≡ is_private_quad
              (byte_at n b)
              (byte_at (suc n) b)
              (byte_at (suc (suc n)) b)
              (byte_at (suc (suc (suc n))) b)
    at zero (x ∷ y ∷ z ∷ w ∷ b) h = refl
    at zero (x ∷ y ∷ z ∷ []) h = absurd (omega arith)
    at zero (x ∷ y ∷ []) h = absurd (omega arith)
    at zero (x ∷ []) h = absurd (omega arith)
    at zero [] h = absurd (omega arith)
    at (suc n) [] h = absurd (omega arith)
    at (suc n) (x ∷ b) h = at n b (omega arith)

-- ::ffff:0:0/96 and ::/96 with a reserved IPv4 address inside, fc00::/7 and fe80::/10; the first
-- two bytes are read as a number.
abbrev pub IsLocal : List ℕ → Type 0
IsLocal b =
    ((((zero_up_to 10 b ≡ true) × (byte_at 10 b ≡ 255) × (byte_at 11 b ≡ 255))
        ⊎ ((zero_up_to 10 b ≡ true) × (byte_at 10 b ≡ 0) × (byte_at 11 b ≡ 0)))
      × IsReserved (last_quad b))
    ⊎ (Within 64512 65023 (byte_at 0 b * 256 + byte_at 1 b)
        ⊎ Within 65152 65215 (byte_at 0 b * 256 + byte_at 1 b))

-- fc00::/7 and fe80::/10, by masks and by ranges.
masks :
    (x y : ℕ)
    → x ≤ 255
    → y ≤ 255
    → ((mask_fe x == 252 || (x == 254 && mask_c0 y == 128)) ≡ true)
      ↔ (Within 64512 65023 (x * 256 + y) ⊎ Within 65152 65215 (x * 256 + y))
masks x y bx by = ground arith

-- The choice of `isPrivateIPv6` on what its tests found.
choice :
    (a b q m : Bool) {A B R M : Type 0}
    → (a ≡ true) ↔ A
    → (b ≡ true) ↔ B
    → (q ≡ true) ↔ R
    → (m ≡ true) ↔ M
    → (a ≡ true → M → ⊥)
    → (b ≡ true → M → ⊥)
    → ((if a then q else if b then q else m) ≡ true) ↔ (((A ⊎ B) × R) ⊎ M)
choice true b q m f g h k n o = (
  λ e. inl (inl (f.0 refl), h.0 e),
  λ s. elim s [ inl (w, r) ↦ h.1 r | inr t ↦ absurd (n refl t) ],
)
choice false true q m f g h k n o = (
  λ e. inl (inr (g.0 refl), h.0 e),
  λ s. elim s [ inl (w, r) ↦ h.1 r | inr t ↦ absurd (o refl t) ],
)
choice false false q m f g h k n o = (
  λ e. inr (k.0 e),
  λ s. elim s [
    | inl (w, r) ↦ elim w [
      | inl a ↦ absurd (let x = f.1 a in cc)
      | inr b ↦ absurd (let x = g.1 b in cc)
    ]
    | inr t ↦ k.1 t
  ],
)

both_equal :
    (z : Bool) (e f m : ℕ) → ((z && e == m && f == m) ≡ true) ↔ ((z ≡ true) × (e ≡ m) × (f ≡ m))
both_equal true e f m = ground arith
both_equal false e f m = (λ h. cc, λ (h, p, q). cc)

first_zero : (b : List ℕ) → zero_up_to 10 b ≡ true → (byte_at 0 b ≡ 0) × (byte_at 1 b ≡ 0)
first_zero [] h = (refl, refl)
first_zero (x ∷ []) h = (ground arith, refl)
first_zero (x ∷ y ∷ b) h =
    let (p, q) = and-eq-true (x == 0) _ h in
    ((==_iff x 0).0 p, (==_iff y 0).0 (and-eq-true (y == 0) _ q).0)

-- Sixteen bytes are a private address exactly when they lie in a private IPv6 block, or hold an
-- IPv4 address of a reserved block, mapped or compatible.
pub is_private_ipv6_iff :
    (b : List ℕ) → length b ≡ 16 → AreBytes b → (is_private_ipv6 b ≡ true) ↔ IsLocal b
is_private_ipv6_iff b sixteen bytes =
    let quad =
      is_private_quad_iff (byte_at 12 b) (byte_at 13 b) (byte_at 14 b) (byte_at 15 b)
        (AreBytes-at 12 b bytes) (AreBytes-at 13 b bytes) (AreBytes-at 14 b bytes)
        (AreBytes-at 15 b bytes) in
    let zeros = zero_up_to 10 b in
    let out = masks (byte_at 0 b) (byte_at 1 b) (AreBytes-at 0 b bytes) (AreBytes-at 1 b bytes) in
    let apart : zeros ≡ true
        → Within 64512 65023 (byte_at 0 b * 256 + byte_at 1 b)
          ⊎ Within 65152 65215 (byte_at 0 b * 256 + byte_at 1 b)
        → ⊥ =
      (λ z m. let (p, q) = first_zero b z in ground arith) in
    rw (last_quad_lem b sixteen, zero_up_to-suc 11 b, zero_up_to-suc 10 b)
      (choice (zeros && byte_at 10 b == 255 && byte_at 11 b == 255)
        ((zeros && byte_at 10 b == 0) && byte_at 11 b == 0)
        (is_private_quad (byte_at 12 b) (byte_at 13 b) (byte_at 14 b) (byte_at 15 b))
        (mask_fe (byte_at 0 b) == 252 || (byte_at 0 b == 254 && mask_c0 (byte_at 1 b) == 128))
        (both_equal zeros (byte_at 10 b) (byte_at 11 b) 255)
        (both_equal zeros (byte_at 10 b) (byte_at 11 b) 0) quad out
        (λ h. apart ((both_equal zeros (byte_at 10 b) (byte_at 11 b) 255).0 h).0)
        (λ h. apart ((both_equal zeros (byte_at 10 b) (byte_at 11 b) 0).0 h).0))

-- A host that passes the test is no private address: a bracketed one parses as sixteen bytes that
-- lie in no private IPv6 block, and one that parses as four bytes is in no reserved IPv4 block.
pub is_private_host-public :
    (host : JsString)
    → is_private_host host ≡ false
    → ((starts_with (91 ∷ []) host && ends_with (93 ∷ []) host) ≡ true
        → (b : List ℕ) × (parse_ipv6 (inside host) ≡ some b) × (length b ≡ 16) × ¬ (IsLocal b))
      × ((a b c d : ℕ)
          → (starts_with (91 ∷ []) host && ends_with (93 ∷ []) host) ≡ false
          → parse_ipv4 host ≡ some (a ∷ b ∷ c ∷ d ∷ [])
          → ¬ (IsReserved (address a b c d)))
unfolding is_private_host
is_private_host-public host h = (
  λ bracketed. refused (parse_ipv6 (inside host)) refl (rw bracketed at h),
  λ a b c d plain parsed. λ reserved.
      let (ha, (hb, (hc, (hd, _)))) = (parse_ipv4-AreBytes host _ parsed).1 in
      let yes = (is_private_quad_iff a b c d ha hb hc hd).1 reserved in
      let no = rw (plain, parsed) at h in cc,
)
  where
    refused :
        (o : Option (List ℕ))
        → parse_ipv6 (inside host) ≡ o
        → private_or_refused o ≡ false
        → (b : List ℕ) × (o ≡ some b) × (length b ≡ 16) × ¬ (IsLocal b)
    refused none e h = cc
    refused (some b) e h =
        let (sixteen, bytes) = parse_ipv6-AreBytes (inside host) b e in
        (b, refl, sixteen, λ local. let yes = (is_private_ipv6_iff b sixteen bytes).1 local in cc)
