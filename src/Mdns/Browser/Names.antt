-- ===== src/Mdns/Browser/Names.antt =====
-- src/YMmDNSBrowser.c: the services of a browser are those that its callbacks added and have not removed since.
use yammer.Prelude.{
  ℕ, ◌≡◌, refl, sym, ◌∙◌, ap, Bool, true, false, ◌&&◌, ◌||◌, List, [], ◌∷◌, ◌++◌, arith,
  if◌then◌else◌, inl, inr, Bool-cases,
}
use yammer.Prelude.Bytes.{same_bytes, same_bytes-eq}
use yammer.Mdns.Browser.{
  Service, Browser, Browsed, get_service_with_name, remove_service, is_some, is_named,
  browse_callback, add_or_update_service, remove_service_named, new_service,
}

abbrev pub has : List ℕ → List Service → Bool
has name ss = is_some (get_service_with_name name ss)

-- No two services have one name.
abbrev pub AreDistinct : List Service → Type 0
AreDistinct [] = Unit {0}
AreDistinct (s ∷ ss) = (has s.name ss ≡ false) × AreDistinct ss

same_left : (a b c : List ℕ) → same_bytes a b ≡ true → same_bytes a c ≡ same_bytes b c
same_left a b c same = ap (λ n. same_bytes n c) (same_bytes-eq a b same)

same_sym : (a b : List ℕ) → same_bytes a b ≡ same_bytes b a
same_sym [] [] = refl
same_sym [] (y ∷ b) = refl
same_sym (x ∷ a) [] = refl
same_sym (x ∷ a) (y ∷ b) = ground (arith, same_sym a b)

has_same : (a b : List ℕ) (ss : List Service) → same_bytes a b ≡ true → has a ss ≡ has b ss
has_same a b ss same = ap (λ n. has n ss) (same_bytes-eq a b same)

has-append :
    (name : List ℕ) (ss : List Service) (s : Service)
    → has name (ss ++ s ∷ []) ≡ (has name ss || same_bytes s.name name)
unfolding get_service_with_name
has-append name [] s = ground arith
has-append name (x ∷ ss) s = ground (arith, has-append name ss s)

has-remove :
    (n name : List ℕ) (ss : List Service)
    → AreDistinct ss
    → has name (remove_service n ss) ≡ (if same_bytes n name then false else has name ss)
unfolding get_service_with_name remove_service
has-remove n name [] distinct = ground arith
has-remove n name (s ∷ ss) distinct = elim (Bool-cases (is_named n s)) [
  | inl hit ↦
      let same = same_left s.name n name hit in
      let others = has_same s.name n ss hit in
      elim (Bool-cases (same_bytes n name)) [
        | inl also ↦ rw (hit, also) (sym (has_same n name ss also) ∙ sym others ∙ distinct.0)
        | inr differs ↦ rw (hit, differs, same ∙ differs) refl
      ]
  | inr miss ↦ elim (Bool-cases (same_bytes s.name name)) [
    | inl named ↦
        let differs : same_bytes n name ≡ false =
          same_sym n name ∙ sym (same_left s.name name n named) ∙ miss in
        rw (miss, differs, named) refl
    | inr unnamed ↦ rw (miss, unnamed) (has-remove n name ss distinct.1)
  ]
]

remove-AreDistinct :
    (n : List ℕ) (ss : List Service) → AreDistinct ss → AreDistinct (remove_service n ss)
unfolding remove_service
remove-AreDistinct n [] distinct = tt
remove-AreDistinct n (s ∷ ss) distinct = elim (Bool-cases (is_named n s)) [
  | inl hit ↦ rw hit distinct.1
  | inr miss ↦ rw miss (
    has-remove n s.name ss distinct.1 ∙ ground (arith, distinct.0),
    remove-AreDistinct n ss distinct.1,
  )
]

append-AreDistinct :
    (ss : List Service) (s : Service)
    → AreDistinct ss
    → has s.name ss ≡ false
    → AreDistinct (ss ++ s ∷ [])
unfolding get_service_with_name
append-AreDistinct [] s distinct free = (refl, tt)
append-AreDistinct (x ∷ ss) s distinct free =
    let misses : same_bytes x.name s.name ≡ false = ground arith in
    let free' : has s.name ss ≡ false = ground arith in
    (
      has-append x.name ss s ∙ ground (arith, distinct.0, same_sym s.name x.name, misses),
      append-AreDistinct ss s distinct.1 free',
    )

-- Whether a callback says something of a name, and what it says.
abbrev pub is_about : List ℕ → Browsed → Bool
is_about name e = e.okay && (e.has_domain && same_bytes e.name name)

-- What the last callback about a name said, and `before` if none is about it.
abbrev pub last_said : List ℕ → Bool → List Browsed → Bool
last_said name before [] = before
last_said name before (e ∷ es) =
    last_said name (if is_about name e then e.add || e.more_coming else before) es

abbrev Says : Browser → Browsed → List ℕ → Bool → Type 0
Says b e name said =
    AreDistinct (browse_callback b e).0.services
    × (has name (browse_callback b e).0.services ≡ said)

adds :
    (b : Browser) (n name : List ℕ)
    → AreDistinct b.services
    → AreDistinct (if has n b.services then b.services else b.services ++ new_service n ∷ [])
      × (has name (if has n b.services then b.services else b.services ++ new_service n ∷ [])
          ≡ (if same_bytes n name then true else has name b.services))
adds b n name distinct = elim (Bool-cases (has n b.services)) [
  | inl known ↦ rw known (
    distinct,
    elim (Bool-cases (same_bytes n name)) [
      | inl same ↦ rw same (sym (has_same n name b.services same) ∙ known)
      | inr differs ↦ rw differs refl
    ],
  )
  | inr unknown ↦ rw unknown (
    append-AreDistinct b.services (new_service n) distinct unknown,
    has-append name b.services (new_service n) ∙ ground arith,
  )
]

added :
    (b : Browser) (n : List ℕ) (more_coming add : Bool)
    → (add || more_coming) ≡ true
    → (browse_callback b (record {
      okay = true;
      has_domain = true;
      add = add;
      more_coming = more_coming;
      name = n;
    })).0.services
      ≡ (if has n b.services then b.services else b.services ++ new_service n ∷ [])
unfolding browse_callback add_or_update_service
added b n more_coming add says = elim (Bool-cases (has n b.services)) [
  | inl known ↦ rw (says, known) refl
  | inr unknown ↦ rw (says, unknown) refl
]

browse_step :
    (b : Browser) (okay has_domain add more_coming : Bool) (n name : List ℕ)
    → AreDistinct b.services
    → let e : Browsed = record {
      okay = okay;
      has_domain = has_domain;
      add = add;
      more_coming = more_coming;
      name = n;
    } in
      Says b e name (if is_about name e then e.add || e.more_coming else has name b.services)
unfolding browse_callback remove_service_named
browse_step b false has_domain add more_coming n name distinct = (distinct, refl)
browse_step b true false add more_coming n name distinct = (distinct, refl)
browse_step b true true false false n name distinct =
    (remove-AreDistinct n b.services distinct, has-remove n name b.services distinct)
browse_step b true true false true n name distinct =
    rw (added b n true false refl) (adds b n name distinct)
browse_step b true true true more_coming n name distinct =
    rw (added b n more_coming true refl) (adds b n name distinct)

-- The browser after a list of callbacks.
abbrev pub browse_all : Browser → List Browsed → Browser
browse_all b [] = b
browse_all b (e ∷ es) = browse_all (browse_callback b e).0 es

-- After any callbacks of a browse, no two services have one name, and a name has a service exactly if the
-- last callback about it, one without an error and with a domain, had the flag Add or the flag
-- MoreComing, or, where no callback is about it, if it had a service before.
pub browse_all_lem :
    (b : Browser) (es : List Browsed) (name : List ℕ)
    → AreDistinct b.services
    → AreDistinct (browse_all b es).services
      × (has name (browse_all b es).services ≡ last_said name (has name b.services) es)
browse_all_lem b [] name distinct = (distinct, refl)
browse_all_lem b (e ∷ es) name distinct =
    let (distinct', says) =
      browse_step b e.okay e.has_domain e.add e.more_coming e.name name distinct in
    let (all_distinct, last) = browse_all_lem (browse_callback b e).0 es name distinct' in
    (all_distinct, last ∙ ap (λ said. last_said name said es) says)
