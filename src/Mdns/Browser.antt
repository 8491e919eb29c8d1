-- ===== src/Mdns/Browser.antt =====
-- src/YMmDNSBrowser.c: the services that a browser has seen and the queries that it has open. A name is the bytes of a C
-- string; a query, which the code calls a service ref, is a pointer, and its dispatch source stands with it. What
-- DNSServiceBrowse, DNSServiceResolve and getaddrinfo answer are parameters, `fd_of` is DNSServiceRefSockFD.
pub mod Names
pub mod Resolving
pub mod Queries
use yammer.Prelude.{
  ℕ, zero, suc, ◌+◌, Bool, true, false, not, ◌&&◌, ◌||◌, Option, none, some, List, [], ◌∷◌, ◌++◌,
  Outcome, ok, abort, ymassert, ◌>>=◌, ◌>>◌, ◌==◌, if◌then◌else◌,
}
use yammer.Prelude.Bytes.{same_bytes}
use yammer.Address.{Sockaddr, Address, af_inet, af_inet6}
use yammer.Address
use yammer.Mdns.{ServiceRecord, service_record_create, set_port, set_txt_record, append_sockaddr}

-- A record with its name. `has_addrinfo` is whether addrinfoSdref is not NULL.
pub record Service : Type 0 where
  pub name : List ℕ
  pub details : ServiceRecord
  pub has_addrinfo : Bool

-- The functions of the user's that are not NULL stand in the last four fields.
pub record Browser : Type 0 where
  pub browsing : Bool
  pub services : List Service
  pub service_refs : List ℕ
  pub service_appeared : Bool
  pub service_removed : Bool
  pub service_updated : Bool
  pub service_resolved : Bool

pub data Event : Type 0 where
  appeared removed updated : List ℕ → Event
  resolved : Bool → List ℕ → Event
  deallocate destroy_source : ℕ → Event

abbrev pub if_set : Bool → Event → List Event
if_set true event = event ∷ []
if_set false event = []

unfoldable pub times : ℕ → List Event → List Event
times zero events = []
times (suc n) events = events ++ times n events

-- strcmp is 0
abbrev pub is_named : List ℕ → Service → Bool
is_named name service = same_bytes service.name name

-- __YMmDNSBrowserGetServiceWithName that does not remove.
unfoldable pub get_service_with_name : List ℕ → List Service → Option Service
get_service_with_name name [] = none
get_service_with_name name (s ∷ ss) =
    if is_named name s then some s else get_service_with_name name ss

-- __YMmDNSBrowserGetServiceWithName that removes the first service with the name.
unfoldable pub remove_service : List ℕ → List Service → List Service
remove_service name [] = []
remove_service name (s ∷ ss) = if is_named name s then ss else s ∷ remove_service name ss

abbrev pub is_some {ℓ} : {A : Type ℓ} → Option A → Bool
is_some none = false
is_some (some a) = true

-- __YMmDNSBrowserAddOrUpdateService. Where a service has the name, the code frees what the new record holds and tells the
-- user of the new record; the service that it has stays as it is.
unfoldable pub add_or_update_service : Browser → Service → Browser × List Event
unfolding get_service_with_name
add_or_update_service b s =
    if is_some (get_service_with_name s.name b.services)
    then (b, if_set b.service_updated (updated s.name))
    else (record b { services = b.services ++ s ∷ [] }, if_set b.service_appeared (appeared s.name))

-- __YMmDNSBrowserRemoveServiceNamed
unfoldable pub remove_service_named : Browser → List ℕ → Browser × List Event
unfolding remove_service
remove_service_named b name = (
  record b { services = remove_service name b.services },
  if_set b.service_removed (removed name),
)

abbrev pub new_service : List ℕ → Service
new_service name = record { name = name; details = service_record_create; has_addrinfo = false }

-- What a browse callback says: whether its result is kDNSServiceErr_NoError, whether it has a domain, the flags
-- kDNSServiceFlagsAdd and kDNSServiceFlagsMoreComing, and the name.
pub record Browsed : Type 0 where
  pub okay : Bool
  pub has_domain : Bool
  pub add : Bool
  pub more_coming : Bool
  pub name : List ℕ

-- __ym_mdns_browse_callback
unfoldable pub browse_callback : Browser → Browsed → Browser × List Event
unfolding get_service_with_name add_or_update_service remove_service_named
browse_callback b e =
    let added =
      if is_some (get_service_with_name e.name b.services)
      then (b, [])
      else add_or_update_service b (new_service e.name) in
    if not e.okay
    then (b, [])
    else (if not e.has_domain
        then (b, [])
        else (if not (e.add || e.more_coming) then remove_service_named b e.name else added))

-- __YMmDNSBrowserAddServiceRef
abbrev pub add_service_ref : Browser → ℕ → Browser
add_service_ref b ref = record b { service_refs = b.service_refs ++ ref ∷ [] }

-- The loop of __YMmDNSBrowserRemoveServiceRef: the refs that are left, and the one that was removed. `which` is none for a
-- NULL ref, with which the first one goes.
unfoldable pub take_ref : (ℕ → ℕ) → Option ℕ → List ℕ → List ℕ × Option ℕ
take_ref fd_of which [] = ([], none)
take_ref fd_of none (r ∷ rs) = (rs, some r)
take_ref fd_of (some ref) (r ∷ rs) =
    let (left, taken) = take_ref fd_of (some ref) rs in
    if fd_of r == fd_of ref then (rs, some r) else (r ∷ left, taken)

abbrev pub ended_ref : Option ℕ → List Event
ended_ref none = []
ended_ref (some r) = deallocate r ∷ destroy_source r ∷ []

-- __YMmDNSBrowserRemoveServiceRef
unfoldable pub remove_service_ref : (ℕ → ℕ) → Browser → Option ℕ → Outcome (Browser × List Event)
unfolding take_ref
remove_service_ref fd_of b which = do
  let (left, taken) = take_ref fd_of which b.service_refs
  ymassert (not (is_some which) || is_some taken)
  ok (record b { service_refs = left }, ended_ref taken)

abbrev pub browse_with : Browser → Option ℕ → Bool × Browser
browse_with b none = (false, b)
browse_with b (some ref) = (true, add_service_ref b ref)

-- YMmDNSBrowserStart: the ref of DNSServiceBrowse, none for its failure.
unfoldable pub start : Browser → Option ℕ → Bool × Browser
start b ref = if b.browsing then (false, b) else browse_with (record b { browsing = true }) ref

-- YMmDNSBrowserStop
unfoldable pub stop : (ℕ → ℕ) → Browser → Outcome (Bool × Browser × List Event)
unfolding remove_service_ref
stop fd_of b =
    let stopped = (do
      (b', events) ← remove_service_ref fd_of b none
      ok (true, record b' { browsing = false }, events)) in
    if b.browsing then stopped else ok (false, b, [])

-- YMmDNSBrowserResolve: the ref of DNSServiceResolve, none for its failure.
unfoldable pub resolve : Browser → List ℕ → Option ℕ → Bool × Browser
unfolding get_service_with_name
resolve b name ref =
    if is_some (get_service_with_name name b.services) then browse_with b ref else (false, b)

-- The record behind a pointer is changed: the first service with the name.
unfoldable pub update_service : List ℕ → (Service → Service) → List Service → List Service
update_service name f [] = []
update_service name f (s ∷ ss) = if is_named name s then f s ∷ ss else s ∷ update_service name f ss

-- ai_next is NULL
abbrev pub is_last : List Sockaddr → Bool
is_last [] = true
is_last (a ∷ as') = false

module _ (inet_ntop : ℕ → List ℕ → Option (List ℕ)) where
  -- The end of __ym_mdns_addr_info_callback for an address that YMAddressCreate took or did not take.
  abbrev pub take_address : Service → Sockaddr → Option Address → Outcome Service
  take_address s addr none = ok s
  take_address s addr (some a) =
      let appended = (do
        details ← append_sockaddr inet_ntop s.details addr
        ok (record s { details = details })) in
      if addr.family == af_inet then appended else ok s

  -- __ym_mdns_addr_info_callback: the service, and how often it reports the resolution, which it does without
  -- kDNSServiceFlagsMoreComing.
  abbrev pub addr_info_callback : Service → Sockaddr → Bool → Outcome (Service × ℕ)
  addr_info_callback s addr more_coming = do
    s' ← take_address s addr (Address.create inet_ntop addr s.details.port)
    ok (s', if more_coming then 0 else 1)

  -- The loop over the result of getaddrinfo: the service, and the reports of all its addresses.
  unfoldable pub addr_infos : Service → List Sockaddr → Outcome (Service × ℕ)
  addr_infos s [] = ok (s, 0)
  addr_infos s (addr ∷ rest) = do
    let known = addr.family == af_inet || (addr.family == af_inet6)
    (s', reports) ← if known then addr_info_callback s addr (not (is_last rest)) else ok (s, 0)
    (s'', others) ← addr_infos s' rest
    ok (s'', reports + others)

  -- What __ym_mdns_resolve_callback does with a record that has no addrinfoSdref: none is a failure of getaddrinfo, whose
  -- result has an address at least.
  unfoldable pub resolve_addresses : Service → Option (List Sockaddr) → Outcome (Service × ℕ)
  unfolding addr_infos
  resolve_addresses s none = ok (s, 0)
  resolve_addresses s (some addrs) = addr_infos (record s { has_addrinfo = true }) addrs

  -- The part of __ym_mdns_resolve_callback for a result without an error: the service, and how often its resolution is
  -- reported.
  unfoldable pub resolve_service :
      Service → ℕ → Option (List ℕ) → Option (List Sockaddr) → Outcome (Service × ℕ)
  unfolding resolve_addresses
  resolve_service s port txt addrs = do
    details ← set_txt_record (set_port s.details port) txt
    let s' : Service = record s { details = details }
    let resolving = resolve_addresses s' addrs
    if s.has_addrinfo then ok (s', 0) else resolving

  abbrev pub resolve_found :
      Browser
      → Option Service
      → Bool
      → ℕ
      → Option (List ℕ)
      → Option (List Sockaddr)
      → Outcome (Browser × List Event)
  resolve_found b none okay port txt addrs = abort
  resolve_found b (some s) okay port txt addrs =
      let resolving = (do
        (s', reports) ← resolve_service s port txt addrs
        ok (
          record b { services = update_service s.name (λ old. s') b.services },
          times reports (if_set b.service_resolved (resolved true s.name)),
        )) in
      if okay then resolving else ok (b, if_set b.service_resolved (resolved false s.name))

  -- __ym_mdns_resolve_callback, with ntohs(port).
  unfoldable pub resolve_callback :
      (ℕ → ℕ)
      → Browser
      → ℕ
      → List ℕ
      → Bool
      → ℕ
      → Option (List ℕ)
      → Option (List Sockaddr)
      → Outcome (Browser × List Event)
  unfolding remove_service_ref get_service_with_name resolve_service update_service times
  resolve_callback fd_of b ref name okay port txt addrs = do
    (b', ended) ← remove_service_ref fd_of b (some ref)
    (b'', events) ← resolve_found b' (get_service_with_name name b'.services) okay port txt addrs
    ok (b'', ended ++ events)
