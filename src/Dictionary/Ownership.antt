-- ===== src/Dictionary/Ownership.antt =====
-- src/YMDictionary.c: the references that a dictionary takes with YMRetain and gives back with
-- YMRelease, over any sequence of additions and removals up to `free`.
use yammer.Prelude.{
  ℕ, ◌+◌, ◌≡◌, refl, ap, Bool, true, false, some, List, [], ◌∷◌, ◌++◌, arith, if◌then◌else◌,
  Outcome, ok, ymassert, ◌>>=◌, >>=-eq-ok, ◌==◌,
}
use yammer.Dictionary.{
  Item, Dictionary, Effect, retain, release, dealloc, create2, add, remove, unlink, free, find_item,
  retain_item, release_item, release_items, broken_pop_key_value, pop_items, take_popped,
  check_consistency, split_last,
}

-- How often an object is retained and released in a list of effects.
abbrev pub is : ℕ → ℕ → ℕ
is o p = if o == p then 1 else 0

abbrev pub retains : ℕ → List Effect → ℕ
retains o [] = 0
retains o (retain p ∷ es) = is o p + retains o es
retains o (release p ∷ es) = retains o es
retains o (dealloc p ∷ es) = retains o es

abbrev pub releases : ℕ → List Effect → ℕ
releases o [] = 0
releases o (retain p ∷ es) = releases o es
releases o (release p ∷ es) = is o p + releases o es
releases o (dealloc p ∷ es) = releases o es

-- How many references to an object the items stand for.
abbrev pub owned_item : Bool → Bool → ℕ → Item → ℕ
owned_item ks vs o i = (if ks then is o i.key else 0) + (if vs then is o i.value else 0)

abbrev pub owned_items : Bool → Bool → ℕ → List Item → ℕ
owned_items ks vs o [] = 0
owned_items ks vs o (i ∷ rest) = owned_item ks vs o i + owned_items ks vs o rest

abbrev pub owned : Dictionary → ℕ → ℕ
owned d o = owned_items d.ymtype_keys d.ymtype_values o d.items

pub retains-append :
    (o : ℕ) (xs ys : List Effect) → retains o (xs ++ ys) ≡ retains o xs + retains o ys
retains-append o [] ys = omega arith
retains-append o (retain p ∷ xs) ys = omega (arith, retains-append o xs ys)
retains-append o (release p ∷ xs) ys = retains-append o xs ys
retains-append o (dealloc p ∷ xs) ys = retains-append o xs ys

pub releases-append :
    (o : ℕ) (xs ys : List Effect) → releases o (xs ++ ys) ≡ releases o xs + releases o ys
releases-append o [] ys = omega arith
releases-append o (retain p ∷ xs) ys = releases-append o xs ys
releases-append o (release p ∷ xs) ys = omega (arith, releases-append o xs ys)
releases-append o (dealloc p ∷ xs) ys = releases-append o xs ys

owned-append :
    (ks vs : Bool) (o : ℕ) (xs ys : List Item)
    → owned_items ks vs o (xs ++ ys) ≡ owned_items ks vs o xs + owned_items ks vs o ys
owned-append ks vs o [] ys = omega arith
owned-append ks vs o (x ∷ xs) ys = omega (arith, owned-append ks vs o xs ys)

release_item-owned :
    (ks vs : Bool) (o : ℕ) (i : Item)
    → (releases o (release_item ks vs i) ≡ owned_item ks vs o i)
      × (retains o (release_item ks vs i) ≡ 0)
unfolding release_item
release_item-owned true true o i = (omega arith, refl)
release_item-owned true false o i = (omega arith, refl)
release_item-owned false true o i = (omega arith, refl)
release_item-owned false false o i = (refl, refl)

retain_item-owned :
    (ks vs : Bool) (o key value : ℕ)
    → (retains o (retain_item ks vs key value)
        ≡ owned_item ks vs o (record { key = key; value = value }))
      × (releases o (retain_item ks vs key value) ≡ 0)
unfolding retain_item
retain_item-owned true true o key value = (omega arith, refl)
retain_item-owned true false o key value = (omega arith, refl)
retain_item-owned false true o key value = (omega arith, refl)
retain_item-owned false false o key value = (refl, refl)

-- `free` gives back exactly what the items stand for.
pub free-owned :
    (d : Dictionary) (o : ℕ) → (releases o (free d) ≡ owned d o) × (retains o (free d) ≡ 0)
unfolding free release_items
free-owned d o = go d.items
  where
    go :
        (items : List Item)
        → (releases o (release_items d.ymtype_keys d.ymtype_values items)
            ≡ owned_items d.ymtype_keys d.ymtype_values o items)
          × (retains o (release_items d.ymtype_keys d.ymtype_values items) ≡ 0)
    go [] = (refl, refl)
    go (i ∷ rest) = omega (
      arith,
      go rest,
      release_item-owned d.ymtype_keys d.ymtype_values o i,
      releases-append o (release_item d.ymtype_keys d.ymtype_values i)
          (release_items d.ymtype_keys d.ymtype_values rest),
      retains-append o (release_item d.ymtype_keys d.ymtype_values i)
          (release_items d.ymtype_keys d.ymtype_values rest),
    )

-- The calls that change what a dictionary holds, and a sequence of them.
pub data Call : Type 0 where
  adds : ℕ → ℕ → Call
  removes : ℕ → Call

module _ (eq : ℕ → ℕ → Bool) where
  abbrev pub step : Dictionary → Call → Outcome (Dictionary × List Effect)
  step d (adds key value) = add eq d key value
  step d (removes key) = do (d', value, effects) ← remove eq d key; ok (d', effects)

  abbrev pub run : Dictionary → List Call → Outcome (Dictionary × List Effect)
  run d [] = ok (d, [])
  run d (c ∷ cs) = do (d', first) ← step d c; (e, rest) ← run d' cs; ok (e, first ++ rest)

  -- The references that an operation takes and gives back are the change in what is owned.
  abbrev Balanced : Dictionary → Dictionary → List Effect → Type 0
  Balanced d d' effects = (o : ℕ) → owned d o + retains o effects ≡ owned d' o + releases o effects

  add-Balanced :
      (d : Dictionary) (key value : ℕ) (d' : Dictionary) (effects : List Effect)
      → add eq d key value ≡ ok (d', effects)
      → Balanced d d' effects
  unfolding add
  add-Balanced d key value d' effects h o =
      ground (arith, retain_item-owned d.ymtype_keys d.ymtype_values o key value)

  find_item_split :
      (ymtype : Bool) (key : ℕ) (items : List Item)
      → (find_item eq ymtype key items).0 ++ (find_item eq ymtype key items).1 ≡ items
  unfolding find_item
  find_item_split ymtype key [] = refl
  find_item_split ymtype key (x ∷ xs) = ground (arith, find_item_split ymtype key xs)

  unlink-Balanced :
      (d : Dictionary) (passed found : List Item) (d' : Dictionary) (value : ℕ)
      (effects : List Effect)
      → passed ++ found ≡ d.items
      → unlink d passed found ≡ ok (d', value, effects)
      → Balanced d d' effects
  unfolding unlink
  unlink-Balanced d passed [] d' value effects split h o = cc
  unlink-Balanced d passed (i ∷ rest) d' value effects split h o =
      let ks = d.ymtype_keys in
      let vs = d.ymtype_values in
      ground (
        arith,
        ap (owned_items ks vs o) split,
        owned-append ks vs o passed (i ∷ rest),
        owned-append ks vs o passed rest,
        release_item-owned ks vs o i,
      )

  remove-Balanced :
      (d : Dictionary) (key : ℕ) (d' : Dictionary) (value : ℕ) (effects : List Effect)
      → remove eq d key ≡ ok (d', value, effects)
      → Balanced d d' effects
  unfolding remove
  remove-Balanced d key d' value effects h =
      let found = find_item eq d.ymtype_keys key d.items in
      unlink-Balanced d found.0 found.1 d' value effects (find_item_split d.ymtype_keys key d.items)
        (ground arith)

  step-Balanced :
      (d : Dictionary) (c : Call) (d' : Dictionary) (effects : List Effect)
      → step d c ≡ ok (d', effects)
      → Balanced d d' effects
  step-Balanced d (adds key value) d' effects h = add-Balanced d key value d' effects h
  step-Balanced d (removes key) d' effects h =
      let ((e, v, es), r, s) = >>=-eq-ok (remove eq d key) _ h in
      λ o. ground (arith, remove-Balanced d key e v es r o)

  run-Balanced :
      (d : Dictionary) (cs : List Call) (d' : Dictionary) (effects : List Effect)
      → run d cs ≡ ok (d', effects)
      → Balanced d d' effects
  run-Balanced d [] d' effects h o = ground arith
  run-Balanced d (c ∷ cs) d' effects h o =
      let ((e, first), r, s) = >>=-eq-ok (step d c) _ h in
      let ((f, rest), t, u) = >>=-eq-ok (run e cs) _ s in
      ground (
        arith,
        step-Balanced d c e first r o,
        run-Balanced e cs f rest t o,
        retains-append o first rest,
        releases-append o first rest,
      )

  -- Whatever additions and removals a new dictionary went through, when it is freed every object
  -- has been released exactly as often as the dictionary retained it.
  pub run-free_balanced :
      (ks vs : Bool) (cs : List Call) {d : Dictionary} {effects : List Effect}
      → run (create2 ks vs) cs ≡ ok (d, effects)
      → (o : ℕ) → retains o (effects ++ free d) ≡ releases o (effects ++ free d)
  unfolding create2
  run-free_balanced ks vs cs {d} {effects} h o = omega (
    arith,
    run-Balanced (create2 ks vs) cs d effects h o,
    retains-append o effects (free d),
    releases-append o effects (free d),
    free-owned d o,
  )

split_last_lem :
    (i : Item) (xs : List Item) → (split_last i xs).0 ++ (split_last i xs).1 ∷ [] ≡ i ∷ xs
unfolding split_last
split_last_lem i [] = refl
split_last_lem i (x ∷ xs) = ap (◌∷◌ i) (split_last_lem x xs)

pop_shape :
    (d : Dictionary) (last : Bool) (items : List Item) (d' : Dictionary) (i : Item)
    → take_popped d (pop_items last items) ≡ ok (d', some i)
    → (items ≡ (if last then d'.items ++ i ∷ [] else i ∷ d'.items))
      × (d'.count + 1 ≡ d.count)
      × (d'.ymtype_keys ≡ d.ymtype_keys)
      × (d'.ymtype_values ≡ d.ymtype_values)
unfolding pop_items take_popped
pop_shape d last [] d' i h = cc
pop_shape d true (x ∷ xs) d' i h = ground (arith, split_last_lem x xs)
pop_shape d false (x ∷ xs) d' i h = ground arith

-- `broken_pop_key_value` takes off the first or the last item, and gives back none of the
-- references on its key and value: what the dictionary still stands for falls short by them.
pub broken_pop_key_value_lem :
    (d : Dictionary) (last : Bool) {d' : Dictionary} {i : Item}
    → broken_pop_key_value d last ≡ ok (d', some i)
    → (d.items ≡ (if last then d'.items ++ i ∷ [] else i ∷ d'.items))
      × (d'.count + 1 ≡ d.count)
      × ((o : ℕ) → owned d o ≡ owned d' o + owned_item d.ymtype_keys d.ymtype_values o i)
unfolding broken_pop_key_value
broken_pop_key_value_lem d last {d'} {i} h =
    let (_, _, taken) = >>=-eq-ok (ymassert (check_consistency d)) _ h in
    let (split, count, ks, vs) = pop_shape d last d.items d' i taken in
    (split, count, λ o. falls last split ks vs o)
  where
    falls :
        (last : Bool)
        → d.items ≡ (if last then d'.items ++ i ∷ [] else i ∷ d'.items)
        → d'.ymtype_keys ≡ d.ymtype_keys
        → d'.ymtype_values ≡ d.ymtype_values
        → (o : ℕ) → owned d o ≡ owned d' o + owned_item d.ymtype_keys d.ymtype_values o i
    falls true e p q o =
        let ks = d.ymtype_keys in
        let vs = d.ymtype_values in
        rw (e, p, q) (omega (arith, owned-append ks vs o d'.items (i ∷ [])))
    falls false e p q o = rw (e, p, q) (omega arith)
