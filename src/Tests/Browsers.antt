-- ===== src/Tests/Browsers.antt =====
-- src/YMmDNSBrowser.c on a concrete browser, which sees one service and resolves it.
use yammer.Prelude.{ℕ, ◌≡◌, ◌≤◌, refl, Bool, true, false, Option, none, some, List, [], ◌∷◌, ok}
use yammer.Address.{Sockaddr, af_inet}
use yammer.Address
use yammer.Mdns.{service_record_create, set_port, set_txt_record, append_sockaddr, returns_within}
use yammer.Mdns.Browser.{
  Service, Browser, Browsed, Event, deallocate, destroy_source, resolved, stop, start,
  resolve_callback, get_service_with_name, times,
}
use yammer.Mdns.Browser.Names.{AreDistinct, has, browse_all, browse_all_lem, last_said}
use yammer.Mdns.Browser.Resolving.{resolutions, resolve_callback_once}
use yammer.Mdns.Browser.Queries.{resolve_all, stop_leaves_resolves}

abbrev name_a : List ℕ
name_a = 97 ∷ []

abbrev plain : Service
plain = record { name = name_a; details = service_record_create; has_addrinfo = false }

abbrev idle : Browser
idle = record {
  browsing = false;
  services = plain ∷ [];
  service_refs = [];
  service_appeared = true;
  service_removed = true;
  service_updated = true;
  service_resolved = true;
}

abbrev says : Bool → Bool → List ℕ → Browsed
says add more_coming name = record {
  okay = true;
  has_domain = true;
  add = add;
  more_coming = more_coming;
  name = name;
}

browse_all_example :
    AreDistinct
      (browse_all idle (says true false (98 ∷ []) ∷ says false false name_a ∷ [])).services
    × (has name_a
          (browse_all idle (says true false (98 ∷ []) ∷ says false false name_a ∷ [])).services
        ≡ last_said name_a true (says true false (98 ∷ []) ∷ says false false name_a ∷ []))
unfolding get_service_with_name
browse_all_example =
    browse_all_lem idle (says true false (98 ∷ []) ∷ says false false name_a ∷ []) name_a (refl, tt)

stop_leaves_resolves_example :
    stop (λ r. r) (resolve_all (start idle (some 3)).1 ((name_a, 4) ∷ []))
    ≡ ok (
      true,
      record idle { browsing = false; service_refs = 4 ∷ [] },
      deallocate 3 ∷ destroy_source 3 ∷ [],
    )
unfolding get_service_with_name
stop_leaves_resolves_example =
    stop_leaves_resolves (λ r. r) idle 3 ((name_a, 4) ∷ []) refl refl (refl, tt)

abbrev dotted : ℕ → List ℕ → Option (List ℕ)
dotted family address = some address

abbrev host : Sockaddr
host = record { family = 2; port = 0; address = 10 ∷ 0 ∷ 0 ∷ 1 ∷ []; others = [] }

abbrev found : Service
found = record plain {
  details = record service_record_create {
    port = 80;
    sockaddrs = some (Address.create dotted host 80 ∷ []);
  };
  has_addrinfo = true;
}

-- The refs of the two resolutions are 4 and 5.
abbrev asked : Browser
asked = record idle { service_refs = 4 ∷ 5 ∷ [] }

abbrev once : Browser
once = record idle { service_refs = 5 ∷ []; services = found ∷ [] }

abbrev twice : Browser
twice = record idle { service_refs = []; services = found ∷ [] }

abbrev first : List Event
first = deallocate 4 ∷ destroy_source 4 ∷ resolved true name_a ∷ []

resolve_callback_once_example :
    (resolutions first ≤ 1) × (resolutions (deallocate 5 ∷ destroy_source 5 ∷ []) ≡ 0)
unfolding resolve_callback set_port set_txt_record append_sockaddr returns_within
    service_record_create Address.create times
resolve_callback_once_example =
    resolve_callback_once dotted (λ r. r) asked once 4 5 name_a 80 80 none none (host ∷ [])
      (some (host ∷ [])) {b' = once} {b'' = twice} {events = first}
      {events' = deallocate 5 ∷ destroy_source 5 ∷ []} refl refl refl
