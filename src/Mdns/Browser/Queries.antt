-- ===== src/Mdns/Browser/Queries.antt =====
-- src/YMmDNSBrowser.c: which queries are open after a stop.
use yammer.Prelude.{
  ℕ, ◌≡◌, sym, ◌∙◌, ap, Bool, true, false, some, List, [], ◌∷◌, ◌++◌, All, ok, if◌then◌else◌,
}
use mathlib.Core.List.{append_assoc, append-nil}
use yammer.Mdns.Browser.{
  Browser, get_service_with_name, is_some, deallocate, destroy_source, start, stop, resolve,
  remove_service_ref, take_ref, add_service_ref,
}

-- Resolutions that the user asks for, each with the ref that DNSServiceResolve makes.
abbrev pub resolve_all : Browser → List (List ℕ × ℕ) → Browser
resolve_all b [] = b
resolve_all b ((name, ref) ∷ qs) = resolve_all (resolve b name (some ref)).1 qs

abbrev pub refs_of : List (List ℕ × ℕ) → List ℕ
refs_of [] = []
refs_of ((name, ref) ∷ qs) = ref ∷ refs_of qs

abbrev pub AreKnown : Browser → List (List ℕ × ℕ) → Type 0
AreKnown b = All (λ (q : List ℕ × ℕ). is_some (get_service_with_name q.0 b.services) ≡ true)

resolve_all_lem :
    (b : Browser) (qs : List (List ℕ × ℕ))
    → AreKnown b qs
    → resolve_all b qs ≡ record b { service_refs = b.service_refs ++ refs_of qs }
unfolding resolve
resolve_all_lem b [] known =
    ap (λ rs. record b { service_refs = rs }) (sym (append-nil b.service_refs))
resolve_all_lem b ((name, ref) ∷ qs) known =
    let asked : (resolve b name (some ref)).1 ≡ add_service_ref b ref =
      ap
        (λ (k : Bool).
          let r : Bool × Browser = if k then (true, add_service_ref b ref) else (false, b) in r.1)
        known.0 in
    ap (λ t. resolve_all t qs) asked
    ∙ resolve_all_lem (add_service_ref b ref) qs known.1
    ∙ ap (λ rs. record b { service_refs = rs })
        (append_assoc b.service_refs (ref ∷ []) (refs_of qs))

-- A browser that has no open query, is started, asked for any resolutions of services that it has, and
-- stopped before any of them answers, ends the query of its browse alone: those of the resolutions
-- stay open.
pub stop_leaves_resolves :
    (fd_of : ℕ → ℕ) (b : Browser) (ref : ℕ) (qs : List (List ℕ × ℕ))
    → b.browsing ≡ false
    → b.service_refs ≡ []
    → AreKnown b qs
    → stop fd_of (resolve_all (start b (some ref)).1 qs)
      ≡ ok (
        true,
        record b { browsing = false; service_refs = refs_of qs },
        deallocate ref ∷ destroy_source ref ∷ [],
      )
unfolding start stop remove_service_ref take_ref
stop_leaves_resolves fd_of b ref qs idle no_refs known =
    let b1 : Browser = record b { browsing = true; service_refs = ref ∷ [] } in
    let started : (start b (some ref)).1 ≡ b1 =
      ap
        (λ (k : Bool).
          let r : Bool × Browser =
            if k
            then (false, b)
            else (true, record b { browsing = true; service_refs = b.service_refs ++ ref ∷ [] }) in
          r.1)
        idle
      ∙ ap (λ rs. record b { browsing = true; service_refs = rs ++ ref ∷ [] }) no_refs in
    ap (stop fd_of) (ap (λ t. resolve_all t qs) started ∙ resolve_all_lem b1 qs known)
