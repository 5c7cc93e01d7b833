-- ===== src/Storage/Queue/Tests.antt =====
-- A queue that is searched for its first request, with three requests.
use first_golang.Prelude.{
  ℕ, ◌+◌, ◌≡◌, refl, Option, none, some, Bool, true, false, List, [], ◌∷◌, Elem, All, any, count_if,
  if◌then◌else◌, arith, inl, inr, ◌&◌, String, Bool-cases, subst,
}
use first_golang.Storage.Queue.{
  Request, Priority, high, low, less, Heap, IsHeap, one_if, worker_loop,
}
use first_golang.Storage.Queue.Starved.{is_job, starved_job-executes}

choose : Request → Option (Request × List Request) → Option (Request × List Request)
choose x none = some (x, [])
choose x (some (m, r)) = if less m x then some (m, x ∷ r) else some (x, m ∷ r)

least : List Request → Option (Request × List Request)
unfolding choose
least [] = none
least (x ∷ q) = let rest = least q in choose x rest

abbrev search_heap : Heap
unfolding least
search_heap = record { push = λ x q. x ∷ q; init = λ q. q; pop = least }

-- What the choice keeps, and what is left behind.
abbrev Split : List Request → Option (Request × List Request) → Type 0
Split q none = (p : Request → Bool) → count_if p q ≡ 0
Split q (some (x, r)) =
    ((p : Request → Bool) → count_if p q ≡ one_if (p x) + count_if p r)
    × All (λ y. less y x ≡ false) r

less_chain : (x y z : Request) → less y z ≡ false → less z x ≡ false → less y x ≡ false
less_chain x y z h k = ground (arith, h, k)

less_turns : (x y : Request) → less x y ≡ true → less y x ≡ false
less_turns x y h = ground (arith, h)

All-less_chain :
    (x z : Request) (r : List Request)
    → less z x ≡ false
    → All (λ y. less y z ≡ false) r
    → All (λ y. less y x ≡ false) r
All-less_chain x z [] k h = tt
All-less_chain x z (y ∷ r) k (h, m) = (less_chain x y z h k, All-less_chain x z r k m)

choose-Split :
    (x : Request) (q : List Request) (o : Option (Request × List Request))
    → Split q o
    → Split (x ∷ q) (choose x o)
unfolding choose
choose-Split x q none h = ((λ p. ground (arith, h p)), tt)
choose-Split x q (some (m, r)) (h, k) = elim (Bool-cases (less m x)) [
  | inl b ↦ rw b ((λ p. ground (arith, h p)), (less_turns m x b, k))
  | inr b ↦ rw b ((λ p. ground (arith, h p)), (b, All-less_chain x m r b k))
]

least-Split : (q : List Request) → Split q (least q)
unfolding least
least-Split [] = λ p. refl
least-Split (x ∷ q) = choose-Split x q (least q) (least-Split q)

everyone : (P : Request → Type 0) (y : Request) (r : List Request) → All P r → Elem y r → P y
everyone P y [] h m = absurd m
everyone P y (z ∷ r) h (inl e) = subst P e h.0
everyone P y (z ∷ r) h (inr m) = everyone P y r h.1 m

search_heap-IsHeap : IsHeap search_heap
unfolding least
search_heap-IsHeap = record {
  push_adds = λ p x q. ground arith;
  init_keeps = λ p q. refl;
  pop_takes = λ q x r e. (subst (Split q) e (least-Split q)).0;
  pop_misses = λ p q e. subst (Split q) e (least-Split q) p;
  pop_first =
      λ q x r e y m. everyone (λ z. less z x ≡ false) y r (subst (Split q) e (least-Split q)).1 m;
}

abbrev request : String → Priority → ℕ → Request
request file p t = record {
  file_id = file;
  quality = "low";
  src_path = "/data/" & file;
  priority = p;
  enqueue_time = t;
}

abbrev waiting : List Request
waiting = request "talk" low 5 ∷ request "film" high 3 ∷ []

-- A request of a user comes in before each turn.
abbrev busy : List (List (ℕ × Request) × ℕ)
busy =
    ((70000000000, request "clip" high 0) ∷ [], 70000000001)
    ∷ ((80000000000, request "song" high 80000000000) ∷ [], 80000000001)
    ∷ []

starved_job-executes_example :
    any (is_job "talk" "low" 5) (worker_loop search_heap busy waiting) ≡ true
starved_job-executes_example =
    starved_job-executes search_heap search_heap-IsHeap "talk" "low" 5 busy waiting
      (((omega arith, tt), omega arith), (((omega arith, tt), omega arith), tt)) (omega arith)
      (omega arith)
