-- ===== src/Biz/Order/Trail.antt =====
-- The audit trail of the orders: read in order, the status log of an order is a chain of changes
-- that ends at its present status.
pub mod Run
pub mod Refunding
pub mod History
use first_golang.Prelude.{
  ℕ, suc, ◌≤◌, ◌<◌, ◌≡◌, refl, sym, ap, ◌∙◌, String, Option, none, some, Bool, true, false, List,
  [], ◌∷◌, ◌++◌, inl, inr, arith, ◌==◌, str_eq, if◌then◌else◌, Bool-cases, Option-cases, str_eq_iff,
}
use first_golang.Sql.Table.{
  Table, IsKeyed, select, insert, modify, select-le, select-insert, select-modify, insert-IsKeyed,
  modify-IsKeyed,
}
use first_golang.Sql.Exec.{Conn}
use first_golang.Biz.Order.Defs.{Order, OrderStatusLog, Tables}

-- The status that the log leaves an order in.
unfoldable pub replay : ℕ → String → List (ℕ × OrderStatusLog) → String
replay id s [] = s
replay id s ((_, l) ∷ ls) = replay id (if l.order_id == id then l.to else s) ls

-- Each entry for the order starts at the status where the one before it ended.
abbrev pub Linked : ℕ → String → List (ℕ × OrderStatusLog) → Type 0
Linked id s [] = Unit
Linked id s ((_, l) ∷ ls) =
    (l.order_id ≡ id → l.from ≡ s) × Linked id (if l.order_id == id then l.to else s) ls

pub record IsTrailed (t : Tables) : Type 0 where
  pub keyed : IsKeyed t.orders
  pub linked : (id : ℕ) → Linked id "" t.order_logs.rows
  pub current :
      (id : ℕ) (o : Order) → select id t.orders ≡ some o → replay id "" t.order_logs.rows ≡ o.status
  pub unborn : (id : ℕ) → t.orders.seq < id → replay id "" t.order_logs.rows ≡ ""

replay-append :
    (id k : ℕ) (s : String) (l : OrderStatusLog) (ls : List (ℕ × OrderStatusLog))
    → replay id s (ls ++ (k, l) ∷ []) ≡ (if l.order_id == id then l.to else replay id s ls)
unfolding replay
replay-append id k s l [] = refl
replay-append id k s l ((_, x) ∷ ls) =
    replay-append id k (if x.order_id == id then x.to else s) l ls

Linked-append :
    (id k : ℕ) (s : String) (l : OrderStatusLog) (ls : List (ℕ × OrderStatusLog))
    → Linked id s ls
    → (l.order_id ≡ id → l.from ≡ replay id s ls)
    → Linked id s (ls ++ (k, l) ∷ [])
unfolding replay
Linked-append id k s l [] h e = (e, tt)
Linked-append id k s l ((_, x) ∷ ls) h e =
    (h.0, Linked-append id k (if x.order_id == id then x.to else s) l ls h.1 e)

-- One entry more, for an order whose status so far is where the entry starts.
pub replay-log :
    (id : ℕ) (l : OrderStatusLog) (t : Table OrderStatusLog)
    → replay id "" (insert l t).rows ≡ (if l.order_id == id then l.to else replay id "" t.rows)
unfolding insert
replay-log id l t = replay-append id (suc t.seq) "" l t.rows

pub Linked-log :
    (id : ℕ) (l : OrderStatusLog) (t : Table OrderStatusLog)
    → Linked id "" t.rows
    → (l.order_id ≡ id → l.from ≡ replay id "" t.rows)
    → Linked id "" (insert l t).rows
unfolding insert
Linked-log id l t h e = Linked-append id (suc t.seq) "" l t.rows h e

-- A status change of the order `id`, with its log entry.
abbrev pub moved : ℕ → (Order → Order) → OrderStatusLog → Tables → Tables
moved id f l t = record t { orders = modify id f t.orders; order_logs = insert l t.order_logs }

-- A new order, with its first log entry.
abbrev pub born : Order → OrderStatusLog → Tables → Tables
born o l t = record t { orders = insert o t.orders; order_logs = insert l t.order_logs }

seq-modify : {R : Type 0} (id : ℕ) (f : R → R) (t : Table R) → (modify id f t).seq ≡ t.seq
unfolding modify
seq-modify id f t = refl

seq-insert : {R : Type 0} (r : R) (t : Table R) → (insert r t).seq ≡ suc t.seq
unfolding insert
seq-insert r t = refl

module _ (id : ℕ) (f : Order → Order) (l : OrderStatusLog) (t : Tables) (o : Order) where
  pub moved-IsTrailed :
      select id t.orders ≡ some o
      → l.order_id ≡ id
      → l.from ≡ o.status
      → (f o).status ≡ l.to
      → IsTrailed t
      → IsTrailed (moved id f l t)
  moved-IsTrailed e lid lfrom lto h = record {
    keyed = modify-IsKeyed t.orders id f h.keyed;
    linked = λ j. Linked-log j l t.order_logs (h.linked j) (λ k. cc (h.current id o e));
    current = λ j x s.
        ground (arith, select-modify t.orders id j f, replay-log j l t.order_logs, h.current j x);
    unborn = λ j p. ground (
      arith,
      seq-modify id f t.orders,
      select-le t.orders id o h.keyed e,
      replay-log j l t.order_logs,
      h.unborn j,
    );
  }

module _ (l : OrderStatusLog) (t : Tables) (o : Order) where
  pub born-IsTrailed :
      l.order_id ≡ suc t.orders.seq
      → l.from ≡ ""
      → o.status ≡ l.to
      → IsTrailed t
      → IsTrailed (born o l t)
  born-IsTrailed lid lfrom lto h = record {
    keyed = insert-IsKeyed t.orders o h.keyed;
    linked = λ j. Linked-log j l t.order_logs (h.linked j) (λ k. ground (arith, h.unborn j));
    current = λ j x s.
        ground
          (arith, select-insert t.orders j o h.keyed, replay-log j l t.order_logs, h.current j x);
    unborn = λ j p. ground (arith, seq-insert o t.orders, replay-log j l t.order_logs, h.unborn j);
  }
