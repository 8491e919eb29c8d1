-- ===== src/Array.antt =====
-- src/YMArray.c: an array is a dictionary from indices to values, with a count. An int64_t index
-- is its bit pattern, a number below 2^64, as the dictionary's keys are.
pub mod Lists
pub mod Refinement
pub mod Search
use yammer.Prelude.{
  ℕ, zero, suc, ◌+◌, ◌-◌, ◌*◌, Bool, true, false, not, Option, none, some, List, [], ◌∷◌, ◌++◌,
  Outcome, ok, abort, ymassert, ◌>>=◌, ◌>>◌, ltb_int64, ◌==◌, if◌then◌else◌, uint64_max,
}
use yammer.Dictionary.{
  Item, Dictionary, Effect, release, dealloc, create2, shift, get_item, get_random_key,
  enumerator_begin, enumerator_get_next,
}
use yammer.Dictionary

pub record Array : Type 0 where
  pub dict : Dictionary
  pub count : ℕ

-- (int64_t)-1
abbrev pub null_index : ℕ
null_index = uint64_max

unfoldable pub create : Bool → Array
unfolding Dictionary.create2
create ymtypes = record { dict = Dictionary.create2 false ymtypes; count = 0 }

abbrev pub get_count : Array → ℕ
get_count a = a.count

-- The walk of __YMArrayFind from an item on.
unfoldable pub find_loop : ℕ → Item → List Item → ℕ
find_loop value i [] = if i.value == value then i.key else null_index
find_loop value i (j ∷ is) =
    let rest = find_loop value j is in if i.value == value then i.key else rest

abbrev pub find_from : ℕ → Option (Item × List Item) → ℕ
find_from value none = null_index
find_from value (some (i, is)) = find_loop value i is

-- __YMArrayFind
unfoldable pub find : Array → ℕ → Outcome ℕ
unfolding Dictionary.enumerator_begin find_loop
find a value = do e ← Dictionary.enumerator_begin a.dict; ok (find_from value e)

unfoldable pub contains : Array → ℕ → Outcome Bool
unfolding find
contains a value = do idx ← find a value; ok (not (idx == null_index))

unfoldable pub index_of : Array → ℕ → Outcome ℕ
unfolding find
index_of a value = find a value

-- YMArrayFree gives back the dictionary, which is freed with it.
pub free : Array → List Effect
free a = Dictionary.free a.dict

module _ (is_equal : ℕ → ℕ → Bool) where
  unfoldable pub add : Array → ℕ → Outcome (Array × List Effect)
  unfolding Dictionary.add
  add a value = do
    (dict, effects) ← Dictionary.add is_equal a.dict a.count value
    ok (record a { dict = dict; count = a.count + 1 }, effects)

  -- The assertion compares signed: idx <= count.
  unfoldable pub insert : Array → ℕ → ℕ → Outcome (Array × List Effect)
  unfolding Dictionary.add Dictionary.shift
  insert a idx value = do
    ymassert (not (ltb_int64 a.count idx))
    shifted ← Dictionary.shift a.dict idx true
    (dict, effects) ← Dictionary.add is_equal shifted idx value
    ok (record a { dict = dict; count = a.count + 1 }, effects)

  unfoldable pub replace : Array → ℕ → ℕ → Outcome (Array × List Effect)
  unfolding Dictionary.add Dictionary.remove
  replace a idx value = do
    (removed, old, given) ← Dictionary.remove is_equal a.dict idx
    (dict, taken) ← Dictionary.add is_equal removed idx value
    ok (record a { dict = dict }, given ++ taken)

  unfoldable pub get : Array → ℕ → Outcome ℕ
  unfolding Dictionary.get_item
  get a idx = Dictionary.get_item is_equal a.dict idx

  unfoldable pub remove : Array → ℕ → Outcome (Array × List Effect)
  unfolding Dictionary.remove Dictionary.shift
  remove a idx = do
    (removed, old, effects) ← Dictionary.remove is_equal a.dict idx
    dict ← Dictionary.shift removed idx false
    ok (record a { dict = dict; count = a.count - 1 }, effects)

  unfoldable pub remove_object : Array → ℕ → Outcome (Array × List Effect)
  unfolding find Dictionary.remove Dictionary.shift
  remove_object a value = do
    idx ← find a value
    ymassert (not (idx == null_index))
    (removed, old, effects) ← Dictionary.remove is_equal a.dict idx
    dict ← Dictionary.shift removed idx false
    ok (record a { dict = dict; count = a.count - 1 }, effects)

  -- What the caller of _YMArrayRemoveAll asks to be done with a value.
  abbrev pub dispose : Bool → Bool → ℕ → List Effect
  dispose release_values free_values value =
      if release_values
      then release value ∷ []
      else (if free_values then dealloc value ∷ [] else [])

  -- One round of the loop of _YMArrayRemoveAll.
  unfoldable pub remove_one : Bool → Bool → ℕ → Array → Outcome (Array × List Effect)
  unfolding Dictionary.get_random_key Dictionary.get_item Dictionary.remove
  remove_one release_values free_values chosen a = do
    key ← Dictionary.get_random_key a.dict chosen
    value ← Dictionary.get_item is_equal a.dict key
    (dict, old, effects) ← Dictionary.remove is_equal a.dict key
    ok (
      record a { dict = dict; count = a.count - 1 },
      dispose release_values free_values value ++ effects,
    )

  -- The loop runs while the count is not 0, and a round takes one off it: `n` is the count. The
  -- n-th value of `chosen` is what arc4random_uniform returns in the round with count n.
  unfoldable pub remove_all_loop : Bool → Bool → (ℕ → ℕ) → ℕ → Array → Outcome (Array × List Effect)
  unfolding remove_one
  remove_all_loop rel fr chosen zero a = ok (a, [])
  remove_all_loop rel fr chosen (suc n) a = do
    (a', first) ← remove_one rel fr (chosen (suc n)) a
    (a'', rest) ← remove_all_loop rel fr chosen n a'
    ok (a'', first ++ rest)

  -- _YMArrayRemoveAll
  unfoldable pub remove_all : Bool → Bool → (ℕ → ℕ) → Array → Outcome (Array × List Effect)
  unfolding remove_all_loop
  remove_all rel fr chosen a = remove_all_loop rel fr chosen a.count a
