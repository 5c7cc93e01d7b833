-- ===== src/Sql/Within.antt =====
-- An action on some of the tables, run within all of them.
use first_golang.Sql.Exec.{Conn, Action}

module _ {S T : Type 0} where
  abbrev pub restrict : (S → T) → Conn S → Conn T
  restrict get c = record {
    tables = get c.tables;
    tick = c.tick;
    fails = c.fails;
    clock = c.clock;
    nonce = c.nonce;
  }

  abbrev pub within : {A : Type 0} → (S → T) → (T → S → S) → Action T A → Action S A
  within get set m c =
      let (r, d) = m (restrict get c) in
      (r, record c { tables = set d.tables c.tables; tick = d.tick })
