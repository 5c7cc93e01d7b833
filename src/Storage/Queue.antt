-- ===== src/Storage/Queue.antt =====
-- The queue of the transcoder (internal/storage/transcode_queue.go) and the loop of its one worker.
-- Times are nanoseconds, zero the zero time. container/heap is a parameter: what it does with the
-- queue, given the order of the requests.
pub mod Starved
mod Tests
use first_golang.Prelude.{
  ℕ, suc, ◌+◌, ◌≡◌, ◌≢◌, String, Option, none, some, Bool, true, false, List, [], ◌∷◌, ◌&&◌, ◌==◌,
  ltb, Elem, count_if, if◌then◌else◌,
}

pub data Priority : Type 0 where
  high low : Priority

-- `transcodeRequest`, without what only the transcoding itself reads
pub record Request : Type 0 where
  pub file_id : String
  pub quality : String
  pub src_path : String
  pub priority : Priority
  pub enqueue_time : ℕ

-- `transcodeStarvationTimeout`
abbrev pub starvation_timeout : ℕ
starvation_timeout = 60000000000

-- `Less`
abbrev pub less : Request → Request → Bool
less x y = elim x.priority [
  | high ↦ elim y.priority [ high ↦ ltb x.enqueue_time y.enqueue_time | low ↦ true ]
  | low ↦ elim y.priority [ high ↦ false | low ↦ ltb x.enqueue_time y.enqueue_time ]
]

-- The functions of container/heap that are called. `pop` is none where the queue is empty.
pub record Heap : Type 0 where
  pub push : Request → List Request → List Request
  pub init : List Request → List Request
  pub pop : List Request → Option (Request × List Request)

abbrev pub one_if : Bool → ℕ
one_if b = if b then 1 else 0

-- No request is lost or made up, and after Init the first one is taken.
pub record IsHeap (h : Heap) : Type 0 where
  pub push_adds :
      (p : Request → Bool) (x : Request) (q : List Request)
      → count_if p (h.push x q) ≡ one_if (p x) + count_if p q
  pub init_keeps : (p : Request → Bool) (q : List Request) → count_if p (h.init q) ≡ count_if p q
  pub pop_takes :
      (q : List Request) (x : Request) (r : List Request)
      → h.pop q ≡ some (x, r)
      → (p : Request → Bool) → count_if p q ≡ one_if (p x) + count_if p r
  pub pop_misses : (p : Request → Bool) (q : List Request) → h.pop q ≡ none → count_if p q ≡ 0
  pub pop_first :
      (q : List Request) (x : Request) (r : List Request)
      → h.pop (h.init q) ≡ some (x, r)
      → (y : Request) → Elem y r
      → less y x ≡ false

-- One turn of the loop of `promoteStarvedJobs`
abbrev pub promoted : ℕ → Request → Request
promoted now x = elim x.priority [
  | low ↦ if ltb (x.enqueue_time + starvation_timeout) now then record x { priority = high } else x
  | high ↦ x
]

abbrev pub promote_each : ℕ → List Request → List Request
promote_each now [] = []
promote_each now (x ∷ q) = promoted now x ∷ promote_each now q

abbrev pub stamped : ℕ → Request → Request
stamped now x = if x.enqueue_time == 0 then record x { enqueue_time = now } else x

module _ (h : Heap) where
  unfoldable pub promote_starved_jobs : ℕ → List Request → List Request
  promote_starved_jobs now q = h.init (promote_each now q)

  unfoldable pub enqueue_transcode : ℕ → Request → List Request → List Request
  enqueue_transcode now x q = h.push (stamped now x) q

  -- What the worker takes at a moment; on an empty queue it waits.
  abbrev pub take_next : ℕ → List Request → Option (Request × List Request)
  take_next now [] = none
  take_next now (x ∷ q) = h.pop (promote_starved_jobs now (x ∷ q))

  -- Requests that come in at their moments.
  abbrev pub enqueue_each : List (ℕ × Request) → List Request → List Request
  enqueue_each [] q = q
  enqueue_each ((t, x) ∷ xs) q = enqueue_each xs (enqueue_transcode t x q)

  -- Turns of `transcodeWorkerLoop`: the requests that come in before each one, and its moment. The
  -- result is the requests that are executed.
  pub worker_loop : List (List (ℕ × Request) × ℕ) → List Request → List Request
  unfolding promote_starved_jobs enqueue_transcode
  worker_loop [] q = []
  worker_loop ((arrivals, now) ∷ turns) q = elim (take_next now (enqueue_each arrivals q)) [
    | none ↦ worker_loop turns (enqueue_each arrivals q)
    | some (x, r) ↦ x ∷ worker_loop turns r
  ]
