-- ===== src/Dictionary.antt =====
-- src/YMDictionary.c: a linked list of key and value pointers, newest first, with a count. The
-- nodes belong to the dictionary alone, so the list of its items stands for them. A pointer is a
-- number below 2^64 and 0 is NULL. `is_equal` is YMIsEqual of src/YMBase.c, which a dictionary
-- with ymtype keys asks besides comparing the pointers. YMDEBUG is set (private/yammerpch.h), so
-- CHECK_CONSISTENCY is code; YM_DICT_MAYHAPS_SAFE_ENUM is not set.
pub mod Keys
pub mod Lookup
pub mod Split
pub mod Ownership
pub mod Shift
pub mod Indexed
use yammer.Prelude.{
  ℕ, zero, suc, ◌+◌, ◌-◌, ◌%◌, Bool, true, false, not, ◌&&◌, ◌||◌, Option, none, some, List, [],
  ◌∷◌, ◌++◌, Outcome, ok, abort, ymassert, ◌>>=◌, ◌>>◌, ltb_int64, ◌==◌, if◌then◌else◌, uint64_max,
  word64,
}

pub record Item : Type 0 where
  pub key : ℕ
  pub value : ℕ

pub record Dictionary : Type 0 where
  pub items : List Item
  pub count : ℕ
  pub ymtype_keys : Bool
  pub ymtype_values : Bool

-- The calls of YMRetain, YMRelease and (on a value) YMFREE that an operation makes, in order.
pub data Effect : Type 0 where
  retain : ℕ → Effect
  release : ℕ → Effect
  dealloc : ℕ → Effect

abbrev pub is_null : List Item → Bool
is_null [] = true
is_null (x ∷ xs) = false

-- (head == NULL) ^ (count == 0) must not hold.
pub check_consistency : Dictionary → Bool
check_consistency d = if is_null d.items then d.count == 0 else not (d.count == 0)

unfoldable pub create2 : Bool → Bool → Dictionary
create2 ks vs = record { items = []; count = 0; ymtype_keys = ks; ymtype_values = vs }

unfoldable pub create : Dictionary
unfolding create2
create = create2 false false

-- The references that a dictionary takes on a new item's key and value.
pub retain_item : Bool → Bool → ℕ → ℕ → List Effect
retain_item ks vs key value =
    (if ks then retain key ∷ [] else []) ++ (if vs then retain value ∷ [] else [])

-- The references that a dictionary holds on one item's key and value.
pub release_item : Bool → Bool → Item → List Effect
release_item ks vs i =
    (if ks then release i.key ∷ [] else []) ++ (if vs then release i.value ∷ [] else [])

pub release_items : Bool → Bool → List Item → List Effect
unfolding release_item
release_items ks vs [] = []
release_items ks vs (i ∷ is) = release_item ks vs i ++ release_items ks vs is

-- _YMDictionaryFree
unfoldable pub free : Dictionary → List Effect
unfolding release_items
free d = release_items d.ymtype_keys d.ymtype_values d.items

abbrev pub get_count : Dictionary → Outcome ℕ
unfolding check_consistency
get_count d = do ymassert (check_consistency d); ok d.count

-- What itemIter->value reads, NULL if the walk found nothing.
abbrev pub value_or_null : List Item → ℕ
value_or_null [] = 0
value_or_null (i ∷ is) = i.value

-- The item that was found is unlinked, released and freed; its value is returned.
pub unlink : Dictionary → List Item → List Item → Outcome (Dictionary × ℕ × List Effect)
unfolding release_item check_consistency
unlink d passed [] = abort
unlink d passed (i ∷ rest) = do
  let d' = record d { items = passed ++ rest; count = d.count - 1 }
  ymassert (check_consistency d')
  ok (d', i.value, release_item d.ymtype_keys d.ymtype_values i)

module _ (is_equal : ℕ → ℕ → Bool) where
  -- Whether the walk for `key` stops at an item with key `k`.
  unfoldable pub same_key : Bool → ℕ → ℕ → Bool
  same_key ymtype key k = (ymtype && is_equal key k) || k == key

  -- The items that the walk passed (previousItem is the last of them), and the list from itemIter.
  unfoldable pub find_item : Bool → ℕ → List Item → List Item × List Item
  unfolding same_key
  find_item ymtype key [] = ([], [])
  find_item ymtype key (i ∷ is) =
      let (passed, rest) = find_item ymtype key is in
      if same_key ymtype key i.key then ([], i ∷ is) else (i ∷ passed, rest)

  unfoldable pub contains : Dictionary → ℕ → Outcome Bool
  unfolding find_item check_consistency
  contains d key = do
    ymassert (check_consistency d)
    ok (if is_null d.items then false else not (is_null (find_item d.ymtype_keys key d.items).1))

  unfoldable pub get_item : Dictionary → ℕ → Outcome ℕ
  unfolding find_item check_consistency
  get_item d key = do
    ymassert (check_consistency d)
    ok (value_or_null (find_item d.ymtype_keys key d.items).1)

  unfoldable pub add : Dictionary → ℕ → ℕ → Outcome (Dictionary × List Effect)
  unfolding find_item check_consistency retain_item
  add d key value = do
    ymassert (check_consistency d)
    ymassert (not (d.count == uint64_max))
    ymassert (is_null (find_item d.ymtype_keys key d.items).1)
    ok (
      record d { items = record { key = key; value = value } ∷ d.items; count = d.count + 1 },
      retain_item d.ymtype_keys d.ymtype_values key value,
    )

  unfoldable pub remove : Dictionary → ℕ → Outcome (Dictionary × ℕ × List Effect)
  unfolding find_item unlink check_consistency
  remove d key = do
    ymassert (check_consistency d)
    ymassert (not (d.count == 0 || is_null d.items))
    let found = find_item d.ymtype_keys key d.items
    unlink d found.0 found.1

-- iter->next, `countdown` times; a walk past the end is no defined C.
nth_key : List Item → ℕ → Outcome ℕ
nth_key [] countdown = abort
nth_key (i ∷ is) zero = ok i.key
nth_key (i ∷ is) (suc n) = nth_key is n

-- `chosen` is what arc4random_uniform((uint32_t)count) returns.
unfoldable pub get_random_key : Dictionary → ℕ → Outcome ℕ
unfolding nth_key check_consistency
get_random_key d chosen = do
  ymassert (check_consistency d)
  ymassert (not (d.count == 0 || is_null d.items))
  nth_key d.items chosen

-- An enumerator is an item with the list behind it; none is NULL.
abbrev pub first_item : List Item → Option (Item × List Item)
first_item [] = none
first_item (i ∷ is) = some (i, is)

unfoldable pub enumerator_begin : Dictionary → Outcome (Option (Item × List Item))
unfolding check_consistency
enumerator_begin d = do ymassert (check_consistency d); ok (first_item d.items)

unfoldable pub enumerator_get_next : Item × List Item → Option (Item × List Item)
enumerator_get_next (i, is) = first_item is

-- The key that an item has after _YMDictionaryShift, as int64_t.
pub shift_key : ℕ → Bool → ℕ → ℕ
shift_key base inc k =
    if ltb_int64 k base then k else (if inc then (k + 1) % word64 else (k + (word64 - 1)) % word64)

unfoldable pub shift_items : ℕ → Bool → List Item → List Item
unfolding shift_key
shift_items base inc [] = []
shift_items base inc (i ∷ is) =
    record i { key = shift_key base inc i.key } ∷ shift_items base inc is

-- _YMDictionaryShift
unfoldable pub shift : Dictionary → ℕ → Bool → Outcome Dictionary
unfolding shift_items check_consistency
shift d base inc = do
  ymassert (check_consistency d)
  ok (record d { items = shift_items base inc d.items })

-- The last item and those before it.
split_last : Item → List Item → List Item × Item
split_last i [] = ([], i)
split_last i (j ∷ is) = let (before, last) = split_last j is in (i ∷ before, last)

-- __Broken_YMDictionaryPopKeyValue: none is the result false.
pop_items : Bool → List Item → Option (List Item × Item)
unfolding split_last
pop_items last [] = none
pop_items last (i ∷ is) = some (if last then split_last i is else (is, i))

take_popped : Dictionary → Option (List Item × Item) → Outcome (Dictionary × Option Item)
take_popped d none = ok (d, none)
take_popped d (some (rest, i)) = do
  ymassert (not (d.count == 0))
  ok (record d { items = rest; count = d.count - 1 }, some i)

unfoldable pub broken_pop_key_value : Dictionary → Bool → Outcome (Dictionary × Option Item)
unfolding pop_items check_consistency take_popped
broken_pop_key_value d last = do
  ymassert (check_consistency d)
  take_popped d (pop_items last d.items)
