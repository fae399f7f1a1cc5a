-- ===== src/Proxy/Address/Octets.antt =====
-- What the parsers of addresses give: as many bytes as the address has.
use verdikt.Base.{
  ℕ, zero, suc, ◌+◌, ◌-◌, ◌*◌, ◌/◌, ◌%◌, ◌≤◌, ◌<◌, ◌≡◌, refl, true, List, [], ◌∷◌, ◌++◌, Option,
  none, some, JsString, arith, All, length, leb, leb→le, split, replicate, length-append,
  length-replicate, Bool-cases, Option-cases, inl, inr, ◌&&◌, and-eq-true, ==_iff, ◌==◌,
}
use verdikt.Cre.RequestBody.{hex_value}
use verdikt.Proxy.Address.{
  octet_of, quad_of, octets_of, parse_ipv4, hex_digits, group_bytes, has_dot, append_bytes,
  groups_bytes, to_bytes, join_halves, whole, halves_bytes, split_double, parse_ipv6,
}

abbrev pub AreBytes : List ℕ → Type 0
AreBytes = All (λ b. b ≤ 255)

octet_of-bound : (p : JsString) (n : ℕ) → octet_of p ≡ some n → n ≤ 255
octet_of-bound p n h = ground arith

quad_of-AreBytes :
    (p q r s : JsString) (v4 : List ℕ)
    → quad_of (octet_of p) (octet_of q) (octet_of r) (octet_of s) ≡ some v4
    → (length v4 ≡ 4) × AreBytes v4
quad_of-AreBytes p q r s v4 h =
    each (octet_of p) (octet_of q) (octet_of r) (octet_of s) h (octet_of-bound p) (octet_of-bound q)
      (octet_of-bound r) (octet_of-bound s)
  where
    each :
        (a b c d : Option ℕ)
        → quad_of a b c d ≡ some v4
        → ((n : ℕ) → a ≡ some n → n ≤ 255)
        → ((n : ℕ) → b ≡ some n → n ≤ 255)
        → ((n : ℕ) → c ≡ some n → n ≤ 255)
        → ((n : ℕ) → d ≡ some n → n ≤ 255)
        → (length v4 ≡ 4) × AreBytes v4
    each (some a) (some b) (some c) (some d) h f g i j =
        let made : a ∷ b ∷ c ∷ d ∷ [] ≡ v4 = cc in
        rw (← made) (refl, (f a refl, (g b refl, (i c refl, (j d refl, tt)))))
    each none b c d h f g i j = cc
    each (some a) none c d h f g i j = cc
    each (some a) (some b) none d h f g i j = cc
    each (some a) (some b) (some c) none h f g i j = cc

octets_of-AreBytes :
    (parts : List JsString) (v4 : List ℕ)
    → octets_of parts ≡ some v4
    → (length v4 ≡ 4) × AreBytes v4
octets_of-AreBytes (p ∷ q ∷ r ∷ s ∷ []) v4 h = quad_of-AreBytes p q r s v4 h
octets_of-AreBytes [] v4 h = cc
octets_of-AreBytes (p ∷ []) v4 h = cc
octets_of-AreBytes (p ∷ q ∷ []) v4 h = cc
octets_of-AreBytes (p ∷ q ∷ r ∷ []) v4 h = cc
octets_of-AreBytes (p ∷ q ∷ r ∷ s ∷ t ∷ parts) v4 h = cc

pub parse_ipv4-AreBytes :
    (host : JsString) (v4 : List ℕ) → parse_ipv4 host ≡ some v4 → (length v4 ≡ 4) × AreBytes v4
unfolding parse_ipv4
parse_ipv4-AreBytes host v4 h = octets_of-AreBytes (split 46 host) v4 h

hex_value-bound : (c v : ℕ) → hex_value c ≡ some v → v ≤ 15
unfolding hex_value
hex_value-bound c v h = ground arith

-- What `k` digits more can make of a bound.
abbrev grow : ℕ → JsString → ℕ
grow k [] = k
grow k (c ∷ cs) = grow (k * 16) cs

hex_digits-bound : (g : JsString) (k n m : ℕ) → n < k → hex_digits n g ≡ some m → m < grow k g
hex_digits-bound [] k n m small h = ground arith
hex_digits-bound (c ∷ cs) k n m small h = elim (Option-cases (hex_value c)) [
  | inl e ↦ let h' = rw (e, hex_digits) at h in cc
  | inr (v, e) ↦
      let le = hex_value-bound c v e in
      hex_digits-bound cs (k * 16) (n * 16 + v) m (omega arith) (rw (e, hex_digits) at h)
]

grow-short : (g : JsString) → leb (length g) 4 ≡ true → grow 1 g ≤ 65536
grow-short [] h = omega arith
grow-short (a ∷ []) h = omega arith
grow-short (a ∷ b ∷ []) h = omega arith
grow-short (a ∷ b ∷ c ∷ []) h = omega arith
grow-short (a ∷ b ∷ c ∷ d ∷ []) h = omega arith
grow-short (a ∷ b ∷ c ∷ d ∷ e ∷ g) h = ground arith

group_bytes-AreBytes : (g : JsString) (bs : List ℕ) → group_bytes g ≡ some bs → AreBytes bs
group_bytes-AreBytes g bs h = elim (Bool-cases (leb 1 (length g) && leb (length g) 4)) [
  | inr e ↦ let h' = rw e at h in cc
  | inl e ↦ elim (Option-cases (hex_digits 0 g)) [
    | inl n ↦ let h' = rw (e, n) at h in cc
    | inr (m, n) ↦
        let short = grow-short g (and-eq-true (leb 1 (length g)) _ e).1 in
        let small = hex_digits-bound g 1 0 m (omega arith) n in
        let made : m / 256 ∷ m % 256 ∷ [] ≡ bs = (let h' = rw (e, n) at h in cc) in
        rw (← made) (omega arith, (omega arith, tt))
  ]
]

AreBytes-append : (a b : List ℕ) → AreBytes a → AreBytes b → AreBytes (a ++ b)
AreBytes-append [] b p q = q
AreBytes-append (x ∷ a) b (px, p) q = (px, AreBytes-append a b p q)

AreBytes-zeros : (n : ℕ) → AreBytes (replicate n 0)
AreBytes-zeros zero = tt
AreBytes-zeros (suc n) = (omega arith, AreBytes-zeros n)

append_bytes-AreBytes :
    (a b : Option (List ℕ)) (bs : List ℕ)
    → append_bytes a b ≡ some bs
    → ((x : List ℕ) → a ≡ some x → AreBytes x)
    → ((x : List ℕ) → b ≡ some x → AreBytes x)
    → AreBytes bs
append_bytes-AreBytes (some a) (some b) bs h f g =
    let made : a ++ b ≡ bs = cc in rw (← made) (AreBytes-append a b (f a refl) (g b refl))
append_bytes-AreBytes none b bs h f g = cc
append_bytes-AreBytes (some a) none bs h f g = cc

groups_bytes-AreBytes : (gs : List JsString) (bs : List ℕ) → groups_bytes gs ≡ some bs → AreBytes bs
unfolding groups_bytes
groups_bytes-AreBytes [] bs h = let made : [] ≡ bs = cc in rw (← made) tt
groups_bytes-AreBytes (g ∷ []) bs h = elim (Bool-cases (has_dot g)) [
  | inl e ↦ (parse_ipv4-AreBytes g bs (rw e at h)).1
  | inr e ↦ group_bytes-AreBytes g bs (rw e at h)
]
groups_bytes-AreBytes (g ∷ k ∷ gs) bs h = elim (Bool-cases (has_dot g)) [
  | inl e ↦ let h' = rw e at h in cc
  | inr e ↦
      append_bytes-AreBytes (group_bytes g) (groups_bytes (k ∷ gs)) bs (rw e at h)
        (group_bytes-AreBytes g) (groups_bytes-AreBytes (k ∷ gs))
]

to_bytes-AreBytes : (s : JsString) (bs : List ℕ) → to_bytes s ≡ some bs → AreBytes bs
to_bytes-AreBytes [] bs h = let made : [] ≡ bs = cc in rw (← made) tt
to_bytes-AreBytes (c ∷ cs) bs h = groups_bytes-AreBytes _ bs h

whole-AreBytes :
    (o : Option (List ℕ)) (bs : List ℕ)
    → whole o ≡ some bs
    → ((x : List ℕ) → o ≡ some x → AreBytes x)
    → (length bs ≡ 16) × AreBytes bs
whole-AreBytes none bs h f = cc
whole-AreBytes (some head) bs h f = elim (Bool-cases (length head == 16)) [
  | inr e ↦ let h' = rw e at h in cc
  | inl e ↦
      let made : head ≡ bs = (let h' = rw e at h in cc) in
      rw (← made) ((==_iff (length head) 16).0 e, f head refl)
]

join_halves-AreBytes :
    (a b : Option (List ℕ)) (bs : List ℕ)
    → join_halves a b ≡ some bs
    → ((x : List ℕ) → a ≡ some x → AreBytes x)
    → ((x : List ℕ) → b ≡ some x → AreBytes x)
    → (length bs ≡ 16) × AreBytes bs
join_halves-AreBytes none b bs h f g = cc
join_halves-AreBytes (some head) none bs h f g = cc
join_halves-AreBytes (some head) (some tail) bs h f g =
    elim (Bool-cases (leb (length head + length tail) 16)) [
      | inr e ↦ let h' = rw e at h in cc
      | inl e ↦
          let fits = leb→le _ _ e in
          let made : head ++ replicate (16 - length head - length tail) 0 ++ tail ≡ bs =
            (let h' = rw e at h in cc) in
          let zeros : List ℕ = replicate (16 - length head - length tail) 0 in
          rw (← made) (
            omega (
              arith,
              length-append (head ++ zeros) tail,
              length-append head zeros,
              length-replicate {A = ℕ} (16 - length head - length tail) 0,
            ),
            AreBytes-append (head ++ zeros) tail
                (AreBytes-append head zeros (f head refl)
                  (AreBytes-zeros (16 - length head - length tail)))
                (g tail refl),
          )
    ]

pub parse_ipv6-AreBytes :
    (host : JsString) (bs : List ℕ) → parse_ipv6 host ≡ some bs → (length bs ≡ 16) × AreBytes bs
unfolding parse_ipv6
parse_ipv6-AreBytes host bs h = of_halves (split_double [] host) h
  where
    of_halves : (hs : List JsString) → halves_bytes hs ≡ some bs → (length bs ≡ 16) × AreBytes bs
    of_halves [] h = cc
    of_halves (head ∷ []) h = whole-AreBytes (to_bytes head) bs h (to_bytes-AreBytes head)
    of_halves (head ∷ tail ∷ []) h =
        join_halves-AreBytes (to_bytes head) (to_bytes tail) bs h (to_bytes-AreBytes head)
          (to_bytes-AreBytes tail)
    of_halves (head ∷ tail ∷ more ∷ hs) h = cc
