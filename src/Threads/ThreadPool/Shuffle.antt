-- ===== src/Threads/ThreadPool/Shuffle.antt =====
-- The shuffles, and the searches in shuffled order.
use cx_framework.Base.{
  ℕ, zero, suc, ◌+◌, ◌-◌, ◌<◌, ◌≤◌, ◌≡◌, ◌≢◌, ◌↔◌, ◌⊎◌, inl, inr, refl, ◌∙◌, ap, none, some, List,
  [], ◌∷◌, length, get_or, ◌==◌, ==_iff, if◌then◌else◌, arith, Bool-cases,
}
use cx_framework.Threads.ThreadPool.{
  PoolTask, ThreadPool, set, swap, shuffle_from, safe_random_shuffle, full_vector,
  first_with_elements, get_random_task_queue_with_elements,
}

pub count : ℕ → List ℕ → ℕ
count v [] = 0
count v (x ∷ xs) = (if x == v then 1 else 0) + count v xs

length-set : (xs : List ℕ) (i v : ℕ) → length (set xs i v) ≡ length xs
unfolding set
length-set [] i v = refl
length-set (x ∷ xs) zero v = refl
length-set (x ∷ xs) (suc i) v = ground (arith, length-set xs i v)

count-set :
    (w : ℕ) (xs : List ℕ) (i v : ℕ)
    → i < length xs
    → count w (set xs i v) + (if get_or xs i 0 == w then 1 else 0)
      ≡ count w xs + (if v == w then 1 else 0)
unfolding set count
count-set w [] i v h = absurd (omega arith)
count-set w (x ∷ xs) zero v h = omega arith
count-set w (x ∷ xs) (suc i) v h = omega (arith, count-set w xs i v)

get_or-set :
    (xs : List ℕ) (i j v : ℕ)
    → i < length xs
    → get_or (set xs i v) j 0 ≡ (if i == j then v else get_or xs j 0)
unfolding set
get_or-set [] i j v h = absurd (omega arith)
get_or-set (x ∷ xs) zero zero v h = refl
get_or-set (x ∷ xs) zero (suc j) v h = ground arith
get_or-set (x ∷ xs) (suc i) zero v h = ground arith
get_or-set (x ∷ xs) (suc i) (suc j) v h = ground (arith, get_or-set xs i j v)

count-swap :
    (w : ℕ) (xs : List ℕ) (i j : ℕ)
    → i < length xs
    → j < length xs
    → count w (swap xs i j) ≡ count w xs
unfolding swap
count-swap w xs i j hi hj = ground (
  arith,
  count-set w (set xs i (get_or xs j 0)) j (get_or xs i 0),
  count-set w xs i (get_or xs j 0),
  get_or-set xs i j (get_or xs j 0),
  length-set xs i (get_or xs j 0),
)

length-swap : (xs : List ℕ) (i j : ℕ) → length (swap xs i j) ≡ length xs
unfolding swap
length-swap xs i j = ground (
  arith,
  length-set (set xs i (get_or xs j 0)) j (get_or xs i 0),
  length-set xs i (get_or xs j 0),
)

-- What is drawn for each index is at most the index.
abbrev pub IsDraw : (ℕ → ℕ) → Type 0
IsDraw draw = (i : ℕ) → draw i ≤ i

shuffle_from_keeps :
    (i : ℕ) (draw : ℕ → ℕ) (xs : List ℕ)
    → IsDraw draw
    → i < length xs
    → ((w : ℕ) → count w (shuffle_from i draw xs) ≡ count w xs)
      × (length (shuffle_from i draw xs) ≡ length xs)
unfolding shuffle_from
shuffle_from_keeps zero draw xs d h = (λ w. refl, refl)
shuffle_from_keeps (suc i) draw xs d h =
    let ys = swap xs (suc i) (draw (suc i)) in
    let same : length ys ≡ length xs = length-swap xs (suc i) (draw (suc i)) in
    let (counts, len) = shuffle_from_keeps i draw ys d (omega arith) in
    (
      λ w. counts w ∙ count-swap w xs (suc i) (draw (suc i)) h (omega (arith, d (suc i))),
      len ∙ same,
    )

pub shuffle_keeps :
    (draw : ℕ → ℕ) (xs : List ℕ)
    → IsDraw draw
    → ((w : ℕ) → count w (safe_random_shuffle draw xs) ≡ count w xs)
      × (length (safe_random_shuffle draw xs) ≡ length xs)
unfolding safe_random_shuffle shuffle_from
shuffle_keeps draw [] d = (λ w. refl, refl)
shuffle_keeps draw (x ∷ xs) d =
    shuffle_from_keeps (length (x ∷ xs) - 1) draw (x ∷ xs) d (omega arith)

count-full_vector :
    (n from w : ℕ) → (0 < count w (full_vector n from)) ↔ ((from ≤ w) × (w < from + n))
unfolding full_vector count
count-full_vector zero from w = ground arith
count-full_vector (suc n) from w = ground (arith, count-full_vector n (from + 1) w)

-- The shuffled numbers of a pool's queues.
abbrev pub order_of : (ℕ → ℕ) → ThreadPool → List ℕ
order_of draw pool = safe_random_shuffle draw (full_vector pool.task_queues 0)

in_order :
    (draw : ℕ → ℕ) (pool : ThreadPool) (i : ℕ)
    → IsDraw draw
    → (0 < count i (order_of draw pool)) ↔ (i < pool.task_queues)
in_order draw pool i d = ground (
  arith,
  (shuffle_keeps draw (full_vector pool.task_queues 0) d).0 i,
  count-full_vector pool.task_queues 0 i,
)

first_none :
    (order : List ℕ) (queues : ℕ → List PoolTask) (i : ℕ)
    → first_with_elements order queues ≡ none
    → 0 < count i order
    → queues i ≡ []
unfolding first_with_elements count
first_none [] queues i h c = absurd (omega arith)
first_none (j ∷ order) queues i h c = elim (Bool-cases (j == i)) [
  | inl same ↦ let eq : j ≡ i = (==_iff j i).0 same in ground (arith, ap queues eq)
  | inr other ↦ ground (arith, first_none order queues i)
]

pub cases_of {ℓ} :
    {A : Type ℓ} (xs : List A) → (xs ≡ []) ⊎ ((y : A) × (ys : List A) × (xs ≡ y ∷ ys))
cases_of [] = inl refl
cases_of (y ∷ ys) = inr (y, ys, refl)

first_some :
    (order : List ℕ) (queues : ℕ → List PoolTask) (i : ℕ)
    → first_with_elements order queues ≡ some i
    → (queues i ≢ []) × (0 < count i order)
unfolding first_with_elements count
first_some [] queues i h = cc
first_some (j ∷ order) queues i h = elim (cases_of (queues j)) [
  | inl e ↦
      let (full, c) = first_some order queues i (rw (e, first_with_elements) at h) in
      (full, omega arith)
  | inr (y, ys, e) ↦ let hit : j ≡ i = ground arith in (λ bad. cc (ap queues hit), ground arith)
]

-- `getRandomTaskQueueWithElements` finds no queue exactly when all queues of the pool are empty, and
-- else one of the pool's that is not, whatever is drawn.
pub random_queue_none :
    (draw : ℕ → ℕ) (pool : ThreadPool)
    → IsDraw draw
    → get_random_task_queue_with_elements draw pool ≡ none
    → (i : ℕ) → i < pool.task_queues
    → pool.queues i ≡ []
unfolding get_random_task_queue_with_elements
random_queue_none draw pool d h i lt =
    first_none (order_of draw pool) pool.queues i h ((in_order draw pool i d).1 lt)

pub random_queue_some :
    (draw : ℕ → ℕ) (pool : ThreadPool) (i : ℕ)
    → IsDraw draw
    → get_random_task_queue_with_elements draw pool ≡ some i
    → (pool.queues i ≢ []) × (i < pool.task_queues)
unfolding get_random_task_queue_with_elements
random_queue_some draw pool i d h =
    let (full, c) = first_some (order_of draw pool) pool.queues i h in
    (full, (in_order draw pool i d).0 c)
