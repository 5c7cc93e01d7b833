-- ===== src/Storage/Queue/Starved.antt =====
-- A request that has waited too long is executed.
use first_golang.Prelude.{
  ℕ, suc, ◌+◌, ◌≤◌, ◌<◌, ◌≡◌, refl, sym, ap, ◌∙◌, String, some, Bool, true, false, List, [], ◌∷◌,
  ◌&&◌, ◌==◌, leb, Elem, All, any, length, count_if, str_eq, arith, Bool-cases, ◌⊎◌, inl, inr,
  Option-cases,
}
use first_golang.Storage.Queue.{
  Request, high, low, less, Heap, IsHeap, promoted, promote_each, stamped, promote_starved_jobs,
  enqueue_transcode, take_next, enqueue_each, worker_loop, starvation_timeout, one_if,
}

-- The requests for a file and a quality from a moment.
abbrev pub is_job : String → String → ℕ → Request → Bool
is_job file quality t x = str_eq x.file_id file && (str_eq x.quality quality && x.enqueue_time == t)

-- The requests that are not younger.
abbrev pub is_older : ℕ → Request → Bool
is_older t x = leb x.enqueue_time t

abbrev is_high : Request → Bool
is_high x = elim x.priority [ high ↦ true | low ↦ false ]

some_later : (b : Bool) {c : Bool} → c ≡ true → (elim b [ true ↦ true | false ↦ c ]) ≡ true
some_later true h = refl
some_later false h = h

-- The requests that come in are younger.
abbrev pub AreYounger : ℕ → List (ℕ × Request) → Type 0
AreYounger t xs = All (λ z. t < (stamped z.0 z.1).enqueue_time) xs

counted :
    (p : Request → Bool) (q : List Request)
    → 0 < count_if p q
    → (y : Request) × Elem y q × (p y ≡ true)
counted p [] h = absurd (omega arith)
counted p (x ∷ q) h = elim (Bool-cases (p x)) [
  | inl e ↦ (x, inl refl, e)
  | inr e ↦
      let k : 0 < count_if p q = ground (arith, h, e) in
      let (y, m, n) = counted p q k in (y, inr m, n)
]

-- Two tests that agree on each request count alike.
count_promoted :
    (now : ℕ) (p r : Request → Bool)
    → ((x : Request) → p (promoted now x) ≡ r x)
    → (q : List Request) → count_if p (promote_each now q) ≡ count_if r q
count_promoted now p r h [] = refl
count_promoted now p r h (x ∷ q) = ground (arith, h x, count_promoted now p r h q)

module _ (file quality : String) (t now : ℕ) where
  promoted-older : (x : Request) → is_older t (promoted now x) ≡ is_older t x
  promoted-older x = ground arith

  promoted-job :
      t + starvation_timeout < now
      → (x : Request)
      → (is_high (promoted now x) && is_job file quality t (promoted now x))
        ≡ is_job file quality t x
  promoted-job h x = ground (arith, h)

less-first :
    (x y : Request) → less y x ≡ false → is_high y ≡ true → is_older y.enqueue_time x ≡ true
less-first x y h k = ground (arith, h, k)

module _ (h : Heap) (w : IsHeap h) (file quality : String) (t : ℕ) where
  enqueue-older :
      (xs : List (ℕ × Request)) (q : List Request)
      → AreYounger t xs
      → count_if (is_older t) (enqueue_each h xs q) ≡ count_if (is_older t) q
  unfolding enqueue_transcode
  enqueue-older [] q k = refl
  enqueue-older ((u, x) ∷ xs) q (k, m) =
      let e = enqueue-older xs (enqueue_transcode h u x q) m in
      let f = w.push_adds (is_older t) (stamped u x) q in
      let g : is_older t (stamped u x) ≡ false = ground (arith, k) in ground (arith, e, f, g)

  enqueue-job :
      (xs : List (ℕ × Request)) (q : List Request)
      → count_if (is_job file quality t) q ≤ count_if (is_job file quality t) (enqueue_each h xs q)
  unfolding enqueue_transcode
  enqueue-job [] q = omega arith
  enqueue-job ((u, x) ∷ xs) q =
      let e = enqueue-job xs (enqueue_transcode h u x q) in
      let f = w.push_adds (is_job file quality t) (stamped u x) q in ground (arith, e, f)

  -- The job is taken, or one that is not younger.
  abbrev Taken : Request → List Request → List Request → Type 0
  Taken x r q =
      (is_job file quality t x ≡ true)
      ⊎ ((0 < count_if (is_job file quality t) r)
          × (suc (count_if (is_older t) r) ≡ count_if (is_older t) q))

  abbrev waits : Request → Bool
  waits y = is_high y && is_job file quality t y

  waits_since : (y : Request) → waits y ≡ true → (is_high y ≡ true) × (y.enqueue_time ≡ t)
  waits_since y e = ground (arith, e)

  module _ (now : ℕ) (q : List Request) (x : Request) (r : List Request)
      (e : h.pop (h.init (promote_each now q)) ≡ some (x, r)) where
    counts :
        (p s : Request → Bool)
        → ((y : Request) → p (promoted now y) ≡ s y)
        → count_if s q ≡ one_if (p x) + count_if p r
    counts p s k =
        sym (count_promoted now p s k q)
        ∙ sym (w.init_keeps p (promote_each now q))
        ∙ w.pop_takes (h.init (promote_each now q)) x r e p

    taken : t + starvation_timeout < now → 0 < count_if (is_job file quality t) q → Taken x r q
    taken k n =
        let a = counts (is_job file quality t) (is_job file quality t) (λ y. ground arith) in
        let b = counts (is_older t) (is_older t) (promoted-older file quality t now) in
        let c = counts waits (is_job file quality t) (promoted-job file quality t now k) in
        elim (Bool-cases (is_job file quality t x)) [
          | inl j ↦ inl j
          | inr j ↦
              let i : 0 < count_if waits r = ground (arith, c, n, j) in
              let (y, m, g) = counted waits r i in
              let (high_y, at) = waits_since y g in
              let o : is_older t x ≡ true =
                ap (λ z. is_older z x) (sym at)
                ∙ less-first x y (w.pop_first (promote_each now q) x r e y m) high_y in
              inr (ground (arith, a, n, j), ground (arith, b, o))
        ]

  take_step :
      (now : ℕ) (q : List Request)
      → t + starvation_timeout < now
      → 0 < count_if (is_job file quality t) q
      → (x : Request) × (r : List Request) × (take_next h now q ≡ some (x, r)) × Taken x r q
  unfolding promote_starved_jobs
  take_step now [] k n = absurd (omega (arith, n))
  take_step now (y ∷ q) k n = elim (Option-cases (h.pop (h.init (promote_each now (y ∷ q))))) [
    | inl e ↦
        let m =
          sym (
            count_promoted now (is_job file quality t) (is_job file quality t) (λ z. ground arith)
              (y ∷ q))
          ∙ sym (w.init_keeps (is_job file quality t) (promote_each now (y ∷ q)))
          ∙ w.pop_misses (is_job file quality t) (h.init (promote_each now (y ∷ q))) e in
        absurd (omega (arith, m, n))
    | inr ((x, r), e) ↦ (x, r, e, taken now (y ∷ q) x r e k n)
  ]

  -- The turns in which the job has waited too long, and what comes in is younger.
  abbrev pub AreTimely : List (List (ℕ × Request) × ℕ) → Type 0
  AreTimely turns = All (λ z. AreYounger t z.0 × (t + starvation_timeout < z.1)) turns

  job-older : (q : List Request) → count_if (is_job file quality t) q ≤ count_if (is_older t) q
  job-older [] = omega arith
  job-older (x ∷ q) = ground (arith, job-older q)

  -- With a heap that keeps its requests and, after Init, yields a first one: a request in the
  -- queue that has waited longer than the timeout at every turn, while everything that comes in
  -- is younger, is executed within as many turns as the queue holds requests that are not
  -- younger.
  pub starved_job-executes :
      (turns : List (List (ℕ × Request) × ℕ)) (q : List Request)
      → AreTimely turns
      → 0 < count_if (is_job file quality t) q
      → count_if (is_older t) q ≤ length turns
      → any (is_job file quality t) (worker_loop h turns q) ≡ true
  unfolding worker_loop
  starved_job-executes [] q a n m = absurd (omega (arith, job-older q, n, m))
  starved_job-executes ((xs, now) ∷ turns) q ((a, k), b) n m =
      let older = enqueue-older xs q a in
      let (x, r, e, s) =
        take_step now (enqueue_each h xs q) k (omega (arith, n, enqueue-job xs q)) in
      rw (any, e)
        (elim s [
          | inl j ↦ rw j refl
          | inr (i, o) ↦
              some_later (is_job file quality t x)
                (starved_job-executes turns r b i (omega (arith, o, older, m)))
        ])
