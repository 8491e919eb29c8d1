-- ===== src/Array/Lists.antt =====
-- src/YMArray.c: the list operations that the array operations are measured by.
use yammer.Prelude.{
  ℕ, zero, suc, ◌+◌, ◌-◌, ◌<◌, ◌≤◌, ◌≡◌, refl, ap, none, some, List, [], ◌∷◌, ◌++◌, length,
  get_elem?, arith, if◌then◌else◌, ltb, ◌==◌,
}

-- The operations on lists.
abbrev pub insert_at : ℕ → ℕ → List ℕ → List ℕ
insert_at zero v xs = v ∷ xs
insert_at (suc i) v [] = v ∷ []
insert_at (suc i) v (x ∷ xs) = x ∷ insert_at i v xs

abbrev pub remove_at : ℕ → List ℕ → List ℕ
remove_at i [] = []
remove_at zero (x ∷ xs) = xs
remove_at (suc i) (x ∷ xs) = x ∷ remove_at i xs

abbrev pub set : List ℕ → ℕ → ℕ → List ℕ
set [] i v = []
set (x ∷ xs) zero v = v ∷ xs
set (x ∷ xs) (suc i) v = x ∷ set xs i v

pub get_elem?-append :
    (xs : List ℕ) (v k : ℕ)
    → get_elem? (xs ++ v ∷ []) k ≡ (if k == length xs then some v else get_elem? xs k)
get_elem?-append [] v zero = ground arith
get_elem?-append [] v (suc k) = ground arith
get_elem?-append (x ∷ xs) v zero = ground arith
get_elem?-append (x ∷ xs) v (suc k) = ground (arith, get_elem?-append xs v k)

pub get_elem?-insert_at :
    (i v : ℕ) (xs : List ℕ) (k : ℕ)
    → i ≤ length xs
    → get_elem? (insert_at i v xs) k
      ≡ (if ltb k i then get_elem? xs k else (if k == i then some v else get_elem? xs (k - 1)))
get_elem?-insert_at zero v xs zero h = ground arith
get_elem?-insert_at zero v xs (suc k) h = ground (arith, e k)
  where
    e : (k : ℕ) → suc k - 1 ≡ k
    e k = omega arith
get_elem?-insert_at (suc i) v [] k h = absurd (omega arith)
get_elem?-insert_at (suc i) v (x ∷ xs) zero h = ground arith
get_elem?-insert_at (suc i) v (x ∷ xs) (suc zero) h =
    ground (arith, get_elem?-insert_at i v xs zero)
get_elem?-insert_at (suc i) v (x ∷ xs) (suc (suc k)) h =
    ground (arith, get_elem?-insert_at i v xs (suc k))

pub get_elem?-remove_at :
    (i : ℕ) (xs : List ℕ) (k : ℕ)
    → get_elem? (remove_at i xs) k ≡ (if ltb k i then get_elem? xs k else get_elem? xs (k + 1))
get_elem?-remove_at i [] k = ground arith
get_elem?-remove_at zero (x ∷ xs) k = ground (arith)
get_elem?-remove_at (suc i) (x ∷ xs) zero = ground arith
get_elem?-remove_at (suc i) (x ∷ xs) (suc k) = ground (arith, get_elem?-remove_at i xs k)

pub get_elem?-set :
    (i v : ℕ) (xs : List ℕ) (k : ℕ)
    → i < length xs
    → get_elem? (set xs i v) k ≡ (if k == i then some v else get_elem? xs k)
get_elem?-set i v [] k h = elim h [ ]
get_elem?-set zero v (x ∷ xs) zero h = ground arith
get_elem?-set zero v (x ∷ xs) (suc k) h = ground arith
get_elem?-set (suc i) v (x ∷ xs) zero h = ground arith
get_elem?-set (suc i) v (x ∷ xs) (suc k) h = ground (arith, get_elem?-set i v xs k)

pub length-insert_at : (i v : ℕ) (xs : List ℕ) → length (insert_at i v xs) ≡ length xs + 1
length-insert_at zero v xs = omega arith
length-insert_at (suc i) v [] = omega arith
length-insert_at (suc i) v (x ∷ xs) = omega (arith, length-insert_at i v xs)

pub length-remove_at :
    (i : ℕ) (xs : List ℕ) → i < length xs → length (remove_at i xs) + 1 ≡ length xs
length-remove_at i [] h = elim h [ ]
length-remove_at zero (x ∷ xs) h = omega arith
length-remove_at (suc i) (x ∷ xs) h = omega (arith, length-remove_at i xs)

pub length-set : (i v : ℕ) (xs : List ℕ) → length (set xs i v) ≡ length xs
length-set i v [] = refl
length-set zero v (x ∷ xs) = refl
length-set (suc i) v (x ∷ xs) = ap suc (length-set i v xs)

pub get_elem?-past : (xs : List ℕ) (k : ℕ) → length xs ≤ k → get_elem? xs k ≡ none
get_elem?-past [] k h = refl
get_elem?-past (x ∷ xs) zero h = absurd (omega arith)
get_elem?-past (x ∷ xs) (suc k) h = get_elem?-past xs k (omega arith)

pub get_elem?-within : (xs : List ℕ) (k : ℕ) → k < length xs → (v : ℕ) × (get_elem? xs k ≡ some v)
get_elem?-within [] k h = elim h [ ]
get_elem?-within (x ∷ xs) zero h = (x, refl)
get_elem?-within (x ∷ xs) (suc k) h = get_elem?-within xs k (omega arith)

pub get_elem?-some : (xs : List ℕ) (k : ℕ) {v : ℕ} → get_elem? xs k ≡ some v → k < length xs
get_elem?-some [] k h = cc
get_elem?-some (x ∷ xs) zero h = omega arith
get_elem?-some (x ∷ xs) (suc k) h = omega (arith, get_elem?-some xs k h)

pub get_elem?-none : (xs : List ℕ) (k : ℕ) → get_elem? xs k ≡ none → length xs ≤ k
get_elem?-none [] k h = omega arith
get_elem?-none (x ∷ xs) zero h = cc
get_elem?-none (x ∷ xs) (suc k) h = omega (arith, get_elem?-none xs k h)
