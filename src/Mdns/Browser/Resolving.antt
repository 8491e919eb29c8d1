-- ===== src/Mdns/Browser/Resolving.antt =====
-- src/YMmDNSBrowser.c: how often a resolution is reported, and which queries a stop ends.
use yammer.Prelude.{
  ℕ, ◌≡◌, ◌≤◌, refl, sym, ◌∙◌, ap, subst, Bool, true, false, not, ◌||◌, Option, some, none, List,
  [], ◌∷◌, ◌++◌, arith, ok, ymassert, ◌>>=◌, >>=-eq-ok, if◌then◌else◌, ◌==◌, inl, inr, Bool-cases,
  ◌+◌, zero, suc,
}
use yammer.Prelude.Bytes.{same_bytes, same_bytes_refl, same_bytes-eq}
use yammer.Address.{Sockaddr, Address, af_inet, af_inet6}
use yammer.Address
use yammer.Mdns.{append_sockaddr, set_txt_record, set_port}
use yammer.Mdns.Browser.{
  Service, Browser, Event, get_service_with_name, is_some, is_named, resolved, deallocate,
  destroy_source, if_set, take_address, addr_info_callback, addr_infos, is_last, times,
  resolve_addresses, resolve_service, resolve_found, resolve_callback, update_service,
  remove_service_ref, ended_ref, take_ref,
}

-- How often a resolution of either outcome is reported.
abbrev pub resolutions : List Event → ℕ
resolutions [] = 0
resolutions (resolved okay name ∷ es) = 1 + resolutions es
resolutions (Event.appeared name ∷ es) = resolutions es
resolutions (Event.removed name ∷ es) = resolutions es
resolutions (Event.updated name ∷ es) = resolutions es
resolutions (deallocate ref ∷ es) = resolutions es
resolutions (destroy_source ref ∷ es) = resolutions es

resolutions-ended :
    (taken : Option ℕ) (es : List Event) → resolutions (ended_ref taken ++ es) ≡ resolutions es
resolutions-ended none es = refl
resolutions-ended (some r) es = refl

get-name :
    (name : List ℕ) (ss : List Service) (s : Service)
    → get_service_with_name name ss ≡ some s
    → is_named name s ≡ true
unfolding get_service_with_name
get-name name [] s found = cc
get-name name (x ∷ ss) s found = elim (Bool-cases (is_named name x)) [
  | inl hit ↦ let same : x ≡ s = ground arith in subst (λ t. is_named name t ≡ true) same hit
  | inr miss ↦ get-name name ss s (ground arith)
]

get-update :
    (name : List ℕ) (ss : List Service) (s new : Service)
    → get_service_with_name name ss ≡ some s
    → new.name ≡ name
    → get_service_with_name name (update_service name (λ old. new) ss) ≡ some new
unfolding get_service_with_name update_service
get-update name [] s new found named = cc
get-update name (x ∷ ss) s new found named = elim (Bool-cases (is_named name x)) [
  | inl hit ↦
      let hit' : is_named name new ≡ true =
        ap (λ n. same_bytes n name) named ∙ same_bytes_refl name in
      rw (hit, hit') refl
  | inr miss ↦ rw (miss, miss) (get-update name ss s new (ground arith) named)
]

-- A service that keeps its name, and whether it has an addrinfoSdref.
abbrev Same : Service → Service → Type 0
Same new s = (new.name ≡ s.name) × (new.has_addrinfo ≡ s.has_addrinfo)

module _ (inet_ntop : ℕ → List ℕ → Option (List ℕ)) where
  take_address-Same :
      (s : Service) (addr : Sockaddr) (a : Option Address) (new : Service)
      → take_address inet_ntop s addr a ≡ ok new
      → Same new s
  take_address-Same s addr none new ran =
      let e : s ≡ new = cc in subst (λ t. Same t s) e (refl, refl)
  take_address-Same s addr (some a) new ran = elim (Bool-cases (addr.family == af_inet)) [
    | inl four ↦
        let appended : append_sockaddr inet_ntop s.details addr
              >>= (λ details. ok (record s { details = details }))
            ≡ ok new =
          ground arith in
        let (details, _, rest) = >>=-eq-ok (append_sockaddr inet_ntop s.details addr) _ appended in
        let e : record s { details = details } ≡ new = cc in subst (λ t. Same t s) e (refl, refl)
    | inr other ↦ let e : s ≡ new = ground arith in subst (λ t. Same t s) e (refl, refl)
  ]

  -- One address: the service keeps what it is known by, and only a last address is reported, once.
  address_told :
      (known more_coming : Bool) (s : Service) (addr : Sockaddr) (new : Service) (reports : ℕ)
      → (if known then addr_info_callback inet_ntop s addr more_coming else ok (s, 0))
        ≡ ok (new, reports)
      → Same new s × (reports ≤ (if more_coming then 0 else 1))
  address_told true more_coming s addr new reports ran =
      let created = Address.create inet_ntop addr s.details.port in
      let (s1, taken, rest) = >>=-eq-ok (take_address inet_ntop s addr created) _ ran in
      let s1_is : s1 ≡ new = cc in
      let told : (if more_coming then 0 else 1) ≡ reports = cc in
      (subst (λ t. Same t s) s1_is (take_address-Same s addr created s1 taken), omega (arith, told))
  address_told false more_coming s addr new reports ran =
      let s_is : s ≡ new = cc in
      let none_told : 0 ≡ reports = cc in
      (subst (λ t. Same t s) s_is (refl, refl), omega (arith, none_told))

  addr_infos-Same :
      (s : Service) (addrs : List Sockaddr) (new : Service) (reports : ℕ)
      → addr_infos inet_ntop s addrs ≡ ok (new, reports)
      → Same new s × (reports ≤ (if is_last addrs then 0 else 1))
  unfolding addr_infos
  addr_infos-Same s [] new reports ran =
      let e : s ≡ new = cc in
      let none_told : 0 ≡ reports = cc in
      (subst (λ t. Same t s) e (refl, refl), omega (arith, none_told))
  addr_infos-Same s (addr ∷ rest) new reports ran =
      let known = addr.family == af_inet || (addr.family == af_inet6) in
      let more_coming = not (is_last rest) in
      let ((s1, told), first, ran1) =
        >>=-eq-ok (if known then addr_info_callback inet_ntop s addr more_coming else ok (s, 0)) _
          ran in
      let ((s2, others), loops, ran2) = >>=-eq-ok (addr_infos inet_ntop s1 rest) _ ran1 in
      let ((name2, info2), later) = addr_infos-Same s1 rest s2 others loops in
      let ((name1, info1), now) = address_told known more_coming s addr s1 told first in
      let e : s2 ≡ new = cc in
      let all : told + others ≡ reports = cc in
      (subst (λ t. Same t s) e (name2 ∙ name1, info2 ∙ info1), ground (arith, all, later, now))

  -- A resolution that finds addresses leaves a service that has an addrinfoSdref.
  resolve_service_keeps :
      (s : Service) (port : ℕ) (txt : Option (List ℕ)) (addrs : List Sockaddr) (new : Service)
      (ended : ℕ)
      → resolve_service inet_ntop s port txt (some addrs) ≡ ok (new, ended)
      → (new.name ≡ s.name) × (new.has_addrinfo ≡ true) × (ended ≤ 1)
  unfolding resolve_service resolve_addresses
  resolve_service_keeps s port txt addrs new ended ran =
      let (details, _, ran1) = >>=-eq-ok (set_txt_record (set_port s.details port) txt) _ ran in
      let s' : Service = record s { details = details } in
      elim (Bool-cases s.has_addrinfo) [
        | inl old ↦
            let e : s' ≡ new = ground arith in
            let none_told : 0 ≡ ended = ground arith in
            (
              ap Service.name (sym e),
              ap Service.has_addrinfo (sym e) ∙ old,
              omega (arith, none_told),
            )
        | inr fresh ↦
            let ((name, info), told) =
              addr_infos-Same (record s' { has_addrinfo = true }) addrs new ended (ground arith) in
            (name, info, ground (arith, told))
      ]

  resolve_service_quiet :
      (s : Service) (port : ℕ) (txt : Option (List ℕ)) (addrs : Option (List Sockaddr))
      (new : Service) (ended : ℕ)
      → s.has_addrinfo ≡ true
      → resolve_service inet_ntop s port txt addrs ≡ ok (new, ended)
      → ended ≡ 0
  unfolding resolve_service
  resolve_service_quiet s port txt addrs new ended old ran =
      let (details, _, ran1) = >>=-eq-ok (set_txt_record (set_port s.details port) txt) _ ran in
      ground arith

remove_ref_shape :
    (fd_of : ℕ → ℕ) (b : Browser) (which : Option ℕ) (b' : Browser) (ended : List Event)
    → remove_service_ref fd_of b which ≡ ok (b', ended)
    → (b'.services ≡ b.services) × ((es : List Event) → resolutions (ended ++ es) ≡ resolutions es)
unfolding remove_service_ref
remove_ref_shape fd_of b which b' ended ran =
    let (left, taken) = take_ref fd_of which b.service_refs in
    let (_, _, ran1) = >>=-eq-ok (ymassert (not (is_some which) || is_some taken)) _ ran in
    let e : record b { service_refs = left } ≡ b' = cc in
    let events_are : ended_ref taken ≡ ended = cc in
    (
      ap Browser.services (sym e),
      λ es.
          subst (λ ev. resolutions (ev ++ es) ≡ resolutions es) events_are
            (resolutions-ended taken es),
    )

module _ (inet_ntop : ℕ → List ℕ → Option (List ℕ)) where
  -- What a resolve callback without an error that returns has found and done.
  abbrev Resolves :
      Browser
      → List ℕ
      → ℕ
      → Option (List ℕ)
      → Option (List Sockaddr)
      → Browser
      → List Event
      → Type 0
  Resolves b name port txt addrs b' events =
      (s : Service) × (new : Service) × (ended : ℕ) × (get_service_with_name name b.services
        ≡ some s)
      × (resolve_service inet_ntop s port txt addrs ≡ ok (new, ended))
      × (b'.services ≡ update_service s.name (λ old. new) b.services)
      × (resolutions events ≤ ended)

  times-resolutions :
      (n : ℕ) (set okay : Bool) (name : List ℕ)
      → resolutions (times n (if_set set (resolved okay name))) ≤ n
  unfolding times
  times-resolutions zero set okay name = omega arith
  times-resolutions (suc n) true okay name = omega (arith, times-resolutions n true okay name)
  times-resolutions (suc n) false okay name = omega (arith, times-resolutions n false okay name)

  resolve_callback_shape :
      (fd_of : ℕ → ℕ) (b : Browser) (ref : ℕ) (name : List ℕ) (port : ℕ) (txt : Option (List ℕ))
      (addrs : Option (List Sockaddr)) (b' : Browser) (events : List Event)
      → resolve_callback inet_ntop fd_of b ref name true port txt addrs ≡ ok (b', events)
      → Resolves b name port txt addrs b' events
  unfolding resolve_callback
  resolve_callback_shape fd_of b ref name port txt addrs b' events ran =
      let ((b1, ended), removes, ran1) = >>=-eq-ok (remove_service_ref fd_of b (some ref)) _ ran in
      let found = get_service_with_name name b1.services in
      let ((b2, more), resolves, ran2) =
        >>=-eq-ok (resolve_found inet_ntop b1 found true port txt addrs) _ ran1 in
      let (same, quiet) = remove_ref_shape fd_of b (some ref) b1 ended removes in
      let b_is : b2 ≡ b' = cc in
      let events_are : ended ++ more ≡ events = cc in
      subst (λ t. Resolves b name port txt addrs t events) b_is
        (subst (Resolves b name port txt addrs b2) events_are (
          go b1 ended same quiet found (ap (get_service_with_name name) (sym same)) b2 more
            resolves))
    where
      go :
          (b1 : Browser) (ended : List Event)
          → b1.services ≡ b.services
          → ((es : List Event) → resolutions (ended ++ es) ≡ resolutions es)
          → (found : Option Service) → get_service_with_name name b.services ≡ found
          → (b2 : Browser) (more : List Event)
          → resolve_found inet_ntop b1 found true port txt addrs ≡ ok (b2, more)
          → Resolves b name port txt addrs b2 (ended ++ more)
      go b1 ended same quiet none looked b2 more ran = cc
      go b1 ended same quiet (some s) looked b2 more ran =
          let ((new, over), resolves, rest) =
            >>=-eq-ok (resolve_service inet_ntop s port txt addrs) _ ran in
          let e : record b1 { services = update_service s.name (λ old. new) b1.services } ≡ b2 =
            cc in
          let report = times over (if_set b1.service_resolved (resolved true s.name)) in
          let more_is : report ≡ more = cc in
          (
            s,
            new,
            over,
            looked,
            resolves,
            ap Browser.services (sym e) ∙ ap (update_service s.name (λ old. new)) same,
            subst (λ es. resolutions (ended ++ es) ≤ over) more_is
                (omega
                  (arith, quiet report, times-resolutions over b1.service_resolved true s.name)),
          )

  -- A resolution that finds addresses is reported once at most, however many addresses it finds. As long
  -- as the browser keeps the record of the name as that resolution left it, which it does not when the
  -- service is removed and appears again, a further resolution of the name without an error is not
  -- reported.
  pub resolve_callback_once :
      (fd_of : ℕ → ℕ) (b b1 : Browser) (ref ref' : ℕ) (name : List ℕ) (port port' : ℕ)
      (txt txt' : Option (List ℕ)) (addrs : List Sockaddr) (addrs' : Option (List Sockaddr))
      {b' b'' : Browser} {events events' : List Event}
      → resolve_callback inet_ntop fd_of b ref name true port txt (some addrs) ≡ ok (b', events)
      → get_service_with_name name b1.services ≡ get_service_with_name name b'.services
      → resolve_callback inet_ntop fd_of b1 ref' name true port' txt' addrs' ≡ ok (b'', events')
      → (resolutions events ≤ 1) × (resolutions events' ≡ 0)
  resolve_callback_once fd_of b b1 ref ref' name port port' txt txt' addrs addrs' {b'} {b''}
        {events} {events'} first kept second =
      let (s, new, ended, looked, resolves, now, once) =
        resolve_callback_shape fd_of b ref name port txt (some addrs) b' events first in
      let (s', new', ended', looked', resolves', now', once') =
        resolve_callback_shape fd_of b1 ref' name port' txt' addrs' b'' events' second in
      let (keeps, old, told) =
        resolve_service_keeps inet_ntop s port txt addrs new ended resolves in
      let s_named : s.name ≡ name = same_bytes-eq s.name name (get-name name b.services s looked) in
      let found : get_service_with_name name b1.services ≡ some new =
        kept
        ∙ ap (get_service_with_name name)
            (now ∙ ap (λ n. update_service n (λ t. new) b.services) s_named)
        ∙ get-update name b.services s new looked (keeps ∙ s_named) in
      let same : new ≡ s' = cc in
      let quiet =
        resolve_service_quiet inet_ntop s' port' txt' addrs' new' ended'
          (subst (λ t. t.has_addrinfo ≡ true) same old) resolves' in
      (omega (arith, once, told), omega (arith, once', quiet))
