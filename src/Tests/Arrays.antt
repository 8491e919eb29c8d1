-- ===== src/Tests/Arrays.antt =====
-- src/YMArray.c on concrete arrays.
use yammer.Prelude.{ℕ, zero, suc, ◌≡◌, refl, Bool, true, false, [], ◌∷◌, ok, arith, List, get_elem?}
use yammer.Dictionary.{same_key}
use yammer.Dictionary.Keys.{lookup_items}
use yammer.Array.{Array, index_of}
use yammer.Array.Refinement.{Represents}

abbrev never : ℕ → ℕ → Bool
never a b = false

-- The values 10, 20, 10, of which the second was added last.
abbrev three : Array
three = record {
  dict = record {
    items =
        record { key = 1; value = 20 }
        ∷ record { key = 2; value = 10 }
        ∷ record { key = 0; value = 10 }
        ∷ [];
    count = 3;
    ymtype_keys = false;
    ymtype_values = true;
  };
  count = 3;
}

abbrev values : List ℕ
values = 10 ∷ 20 ∷ 10 ∷ []

three_holds : (k : ℕ) → lookup_items never false k three.dict.items ≡ get_elem? values k
unfolding lookup_items same_key
three_holds zero = refl
three_holds (suc zero) = refl
three_holds (suc (suc zero)) = refl
three_holds (suc (suc (suc k))) = ground arith

three-Represents : Represents never three values
unfolding lookup_items same_key
three-Represents = record {
  indexed = record {
    valid = record { counted = refl; bounded = omega arith; distinct = (refl, (refl, (refl, tt))) };
    plain = refl;
  };
  counted = refl;
  whole = refl;
  bounded = omega arith;
  holds = three_holds;
}

-- Of two equal values the one that was added last is found, here the one at the higher index.
latest_index : index_of three 10 ≡ ok 2
unfolding index_of
latest_index = refl

abbrev first_key : ℕ → ℕ
first_key n = 0
