-- ===== src/Address/Equality.antt =====
-- src/YMAddress.c: when two addresses are equal, and what the creation of one fixes.
use yammer.Prelude.{
  ℕ, ◌≡◌, ◌≢◌, refl, sym, ap, ◌∙◌, Bool, true, false, ◌&&◌, Option, none, some, List, ◌⊎◌, inl, inr,
  ◌==◌, ==_refl, ==→eq, arith, Bool-cases, subst, if◌then◌else◌,
}
use yammer.Prelude.Bytes.{same_bytes, same_bytes_refl, same_bytes-eq}
use yammer.Address.{
  Sockaddr, Address, AddressType, ipv4, ipv6, af_inet, af_inet6, create, describe, same_sockaddr,
  is_equal, is_equal_including_port, get_domain, get_address_family, get_default_protocol,
}

-- The families that the library supports.
abbrev pub IsSupported : ℕ → Type 0
IsSupported family = (family ≡ af_inet) ⊎ (family ≡ af_inet6)

same_sockaddr_refl : (a : Sockaddr) → same_sockaddr a a ≡ true
same_sockaddr_refl a =
    rw (==_refl a.family, ==_refl a.port, same_bytes_refl a.address, same_bytes_refl a.others)

and-true : (a b : Bool) → (a && b) ≡ true → (a ≡ true) × (b ≡ true)
and-true true true h = (refl, refl)
and-true true false h = cc
and-true false b h = cc

same_sockaddr-eq : (a b : Sockaddr) → same_sockaddr a b ≡ true → a ≡ b
same_sockaddr-eq a b h =
    let (f, h1) = and-true (a.family == b.family) _ h in
    let (p, h2) = and-true (a.port == b.port) _ h1 in
    let (x, o) = and-true (same_bytes a.address b.address) _ h2 in
    ground (
      arith,
      ==→eq a.family b.family f,
      ==→eq a.port b.port p,
      same_bytes-eq a.address b.address x,
      same_bytes-eq a.others b.others o,
    )

equal_supported :
    (a b : Address)
    → IsSupported a.sockaddr.family
    → (including_port : Bool)
    → is_equal_including_port a b including_port ≡ (
        a.sockaddr.family == b.sockaddr.family
        && (if including_port
            then same_sockaddr a.sockaddr b.sockaddr
            else same_bytes a.sockaddr.address b.sockaddr.address))
unfolding is_equal_including_port
equal_supported a b (inl v4) true = ground (arith, v4)
equal_supported a b (inl v4) false = ground (arith, v4)
equal_supported a b (inr v6) true = ground (arith, v6)
equal_supported a b (inr v6) false = ground (arith, v6)

-- Two addresses, of which the first is of a supported family, are equal exactly if their sockaddrs
-- hold the same family, port, address and other bytes.
pub is_equal_cases :
    (a b : Address)
    → IsSupported a.sockaddr.family
    → ((a.sockaddr ≡ b.sockaddr) × (is_equal a b ≡ true))
      ⊎ ((a.sockaddr ≢ b.sockaddr) × (is_equal a b ≡ false))
unfolding is_equal
is_equal_cases a b s = elim (Bool-cases (same_sockaddr a.sockaddr b.sockaddr)) [
  | inl same ↦
      let e = same_sockaddr-eq a.sockaddr b.sockaddr same in
      inl (
        e,
        equal_supported a b s true
            ∙ ground (arith, same, ap (λ x. x.family) e, ==_refl b.sockaddr.family),
      )
  | inr other ↦ inr (
    λ e. absurd (
        ground
          (arith, other, ap (same_sockaddr a.sockaddr) (sym e), same_sockaddr_refl a.sockaddr)),
    equal_supported a b s true ∙ ground (arith, other),
  )
]

describe-some :
    {a : Address} (type : AddressType) (length port : ℕ) (s : Sockaddr) (ip : Option (List ℕ))
    → describe type length s port ip ≡ some a
    → (a.sockaddr ≡ record s { port = port }) × (a.type ≡ type)
describe-some type length port s none h = cc
describe-some type length port s (some ip) h = ground arith

module _ (inet_ntop : ℕ → List ℕ → Option (List ℕ)) where
  pub created :
      (s : Sockaddr) (port : ℕ) {a : Address}
      → create inet_ntop s port ≡ some a
      → (a.sockaddr ≡ record s { port = port })
        × (get_address_family a.type ≡ s.family)
        × (get_domain a.type ≡ s.family)
        × IsSupported s.family
  unfolding create get_address_family get_domain
  created s port {a} h = elim (Bool-cases (s.family == af_inet)) [
    | inl v4 ↦
        let f = ==→eq s.family af_inet v4 in
        let (e, t) = describe-some ipv4 16 port s (inet_ntop af_inet s.address) (rw v4 at h) in
        (e, rw t (sym f), rw t (sym f), inl f)
    | inr no4 ↦ elim (Bool-cases (s.family == af_inet6)) [
      | inl v6 ↦
          let f = ==→eq s.family af_inet6 v6 in
          let (e, t) =
            describe-some ipv6 28 port s (inet_ntop af_inet6 s.address) (rw (no4, v6) at h) in
          (e, rw t (sym f), rw t (sym f), inr f)
      | inr no6 ↦ absurd (ground (arith, no4, no6, h))
    ]
  ]

  -- Two addresses that are made from one sockaddr with two ports are equal apart from the port, and
  -- equal exactly if the ports are; each has the family of the sockaddr, which has TCP as protocol.
  create_two_ports :
      (s : Sockaddr) (p q : ℕ) {a b : Address}
      → create inet_ntop s p ≡ some a
      → create inet_ntop s q ≡ some b
      → (is_equal_including_port a b false ≡ true)
        × (is_equal a b ≡ (p == q))
        × (get_address_family a.type ≡ s.family)
        × (get_domain b.type ≡ s.family)
        × (get_default_protocol s.family ≡ some 6)
  unfolding is_equal get_default_protocol
  create_two_ports s p q {a} {b} h k =
      let (e, family, _, supported) = created s p h in
      let (f, _, domain, _) = created s q k in
      let sup : IsSupported a.sockaddr.family =
        subst (λ x. IsSupported x.family) (sym e) supported in
      (
        equal_supported a b sup false
            ∙ rw (e, f) (ground (arith, ==_refl s.family, same_bytes_refl s.address)),
        equal_supported a b sup true
            ∙ rw (e, f)
                (ground
                  (arith, ==_refl s.family, same_bytes_refl s.address, same_bytes_refl s.others)),
        family,
        domain,
        protocol s.family supported,
      )
    where
      protocol : (family : ℕ) → IsSupported family → get_default_protocol family ≡ some 6
      protocol family (inl v4) = ground (arith, v4)
      protocol family (inr v6) = ground (arith, v6)
