-- ===== src/Tests/Dictionaries.antt =====
-- src/YMDictionary.c on concrete dictionaries.
use yammer.Prelude.{
  ℕ, ◌/◌, ◌+◌, ◌≡◌, refl, Bool, true, none, some, [], ◌∷◌, ◌++◌, ok, arith, if◌then◌else◌, ◌==◌,
  List,
}
use yammer.Dictionary.{
  Item, Dictionary, Effect, retain, release, same_key, create2, add, remove, free, retain_item,
  release_item, broken_pop_key_value,
}
use yammer.Dictionary.Keys.{IsValid, IsEquivalence, lookup, lookup_items}
use yammer.Dictionary.Lookup.{SameKind, add_lem, remove_lem}
use yammer.Dictionary.Ownership.{Call, adds, removes, run, retains, releases, run-free_balanced}

-- YMIsEqual on objects that are equal in pairs: 0 and 1, 2 and 3, and so on.
abbrev same_pair : ℕ → ℕ → Bool
same_pair a b = a / 2 == b / 2

abbrev two_items : Dictionary
two_items = record {
  items = record { key = 5; value = 50 } ∷ record { key = 3; value = 30 } ∷ [];
  count = 2;
  ymtype_keys = true;
  ymtype_values = true;
}

two_items-IsValid : IsValid same_pair two_items
unfolding lookup_items same_key
two_items-IsValid = record { counted = refl; bounded = omega arith; distinct = (refl, (refl, tt)) }

held : lookup same_pair two_items 3 ≡ some 30
unfolding lookup_items same_key
held = refl

same_pair-IsEquivalence : IsEquivalence same_pair true
unfolding same_key
same_pair-IsEquivalence = record {
  reflexive = λ a. ground arith;
  symmetric = λ a b h. ground arith;
  transitive = λ a b c h k. ground arith;
}

add_lem_example :
    (d' : Dictionary) × (add same_pair two_items 7 70 ≡ ok (d', retain_item true true 7 70))
    × IsValid same_pair d'
    × SameKind d' two_items
    × (d'.count ≡ 3)
    × ((k : ℕ)
        → lookup same_pair d' k
          ≡ (if same_key same_pair true k 7 then some 70 else lookup same_pair two_items k))
unfolding lookup_items same_key
add_lem_example = add_lem same_pair two_items 7 70 two_items-IsValid refl (omega arith)

remove_lem_example :
    (d' : Dictionary) × (i : Item) × (remove same_pair two_items 2
      ≡ ok (d', 30, release_item true true i))
    × (same_key same_pair true 2 i.key ≡ true)
    × (i.value ≡ 30)
    × IsValid same_pair d'
    × SameKind d' two_items
    × (d'.count + 1 ≡ 2)
    × ((k : ℕ)
        → lookup same_pair d' k
          ≡ (if same_key same_pair true k 2 then none else lookup same_pair two_items k))
unfolding lookup_items same_key
remove_lem_example = remove_lem same_pair two_items 2 same_pair-IsEquivalence two_items-IsValid refl

abbrev history : List Call
history = adds 5 50 ∷ adds 3 50 ∷ removes 5 ∷ adds 9 90 ∷ []

abbrev after_history : Dictionary
after_history = record {
  items = record { key = 9; value = 90 } ∷ record { key = 3; value = 50 } ∷ [];
  count = 2;
  ymtype_keys = true;
  ymtype_values = true;
}

abbrev history_effects : List Effect
history_effects =
    retain 5 ∷ retain 50 ∷ retain 3 ∷ retain 50 ∷ release 5 ∷ release 50 ∷ retain 9 ∷ retain 90 ∷ []

history_runs : run same_pair (create2 true true) history ≡ ok (after_history, history_effects)
unfolding create2 add remove
history_runs = refl

run-free_balanced_example :
    retains 50 (history_effects ++ free after_history)
    ≡ releases 50 (history_effects ++ free after_history)
run-free_balanced_example = run-free_balanced same_pair true true history history_runs 50

abbrev popped : Dictionary
popped = record {
  items = record { key = 5; value = 50 } ∷ [];
  count = 1;
  ymtype_keys = true;
  ymtype_values = true;
}

pops : broken_pop_key_value two_items true ≡ ok (popped, some (record { key = 3; value = 30 }))
unfolding broken_pop_key_value
pops = refl
