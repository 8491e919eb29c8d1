-- ===== src/Mdns/Records.antt =====
-- src/YMmDNS.c: the addresses of a service record.
use yammer.Prelude.{
  ℕ, ◌≡◌, ◌≢◌, ap, subst, Bool, true, false, Option, none, some, List, [], ◌∷◌, ◌++◌, ok, >>=-eq-ok,
  arith, ==_refl, Bool-cases, inl, inr, if◌then◌else◌,
}
use yammer.Prelude.Bytes.{same_bytes, same_bytes_refl, same_bytes-eq}
use yammer.Address.{Sockaddr, Address, af_inet, af_inet6, create}
use yammer.Address.Equality.{created}
use yammer.Mdns.{ServiceRecord, returns_at, returns_within, listed, append_sockaddr}

returns_within-append :
    (s : Sockaddr) (as' : List (Option Address)) (a : Address)
    → returns_within s as' ≡ ok false
    → returns_at s a.sockaddr ≡ true
    → returns_within s (as' ++ some a ∷ []) ≡ ok true
unfolding returns_within
returns_within-append s [] a h k = ground (arith, k)
returns_within-append s (none ∷ as') a h k = cc
returns_within-append s (some b ∷ as') a h k = elim (Bool-cases (returns_at s b.sockaddr)) [
  | inl here ↦ absurd (ground (arith, here, h))
  | inr later ↦ rw later (returns_within-append s as' a (ground (arith, later, h)) k)
]

returns_at_itself :
    (s a : Sockaddr)
    → a.family ≡ s.family
    → a.address ≡ s.address
    → s.family ≡ af_inet
    → returns_at s a ≡ true
unfolding returns_at
returns_at_itself s a f e v4 =
    rw (f, e) (ground (arith, v4, same_bytes_refl s.address, ==_refl s.family))

module _ (inet_ntop : ℕ → List ℕ → Option (List ℕ)) where
  append_again :
      (r : ServiceRecord) (s : Sockaddr) {a : Address} (returned : Bool)
      → s.family ≡ af_inet
      → create inet_ntop s r.port ≡ some a
      → returns_within s (listed r.sockaddrs) ≡ ok returned
      → let as' = listed r.sockaddrs in
        let now : ServiceRecord = record r {
          sockaddrs = some (if returned then as' else as' ++ create inet_ntop s r.port ∷ []);
        } in
        append_sockaddr inet_ntop now s ≡ ok now
  unfolding append_sockaddr
  append_again r s true v4 made within = rw within
  append_again r s {a} false v4 made within =
      let (e, _, _, _) = created inet_ntop s r.port made in
      rw (
        made,
        returns_within-append s (listed r.sockaddrs) a within
            (returns_at_itself s a.sockaddr (ap (λ x. x.family) e) (ap (λ x. x.address) e) v4),
      )

  -- An IPv4 address that was appended once, and that YMAddressCreate accepts, is not appended again.
  append_sockaddr_once :
      (r : ServiceRecord) (s : Sockaddr) {a : Address} {r' : ServiceRecord}
      → s.family ≡ af_inet
      → create inet_ntop s r.port ≡ some a
      → append_sockaddr inet_ntop r s ≡ ok r'
      → append_sockaddr inet_ntop r' s ≡ ok r'
  unfolding append_sockaddr
  append_sockaddr_once r s {a} {r'} v4 made h =
      let (returned, within, done) = >>=-eq-ok (returns_within s (listed r.sockaddrs)) _ h in
      subst (λ x. append_sockaddr inet_ntop x s ≡ ok x) (ground (arith, done))
        (append_again r s returned v4 made within)

  -- A record whose list begins with an IPv6 address stays as it is when an IPv6 address that
  -- differs from that one is appended.
  pub append_sockaddr_ipv6 :
      (r : ServiceRecord) (s : Sockaddr) (a : Address) (as' : List (Option Address))
      → r.sockaddrs ≡ some (some a ∷ as')
      → s.family ≡ af_inet6
      → a.sockaddr.family ≡ af_inet6
      → a.sockaddr.address ≢ s.address
      → append_sockaddr inet_ntop r s ≡ ok r
  unfolding append_sockaddr returns_within returns_at
  append_sockaddr_ipv6 r s a as' e v6 w6 ne =
      elim (Bool-cases (same_bytes a.sockaddr.address s.address)) [
        | inl same ↦ absurd (ne (same_bytes-eq a.sockaddr.address s.address same))
        | inr other ↦ ground (arith, e, v6, w6, other)
      ]
