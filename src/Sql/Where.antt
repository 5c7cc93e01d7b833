-- ===== src/Sql/Where.antt =====
-- The tests of a WHERE clause.
use first_golang.Prelude.{String, Bool, true, ◌≡◌, ◌↔◌, ◌⊎◌, ◌&&◌, ◌||◌, arith, str_eq, str_eq_iff}

-- An optional `column=?` of a WHERE clause: no condition where the argument is empty.
abbrev pub matches : String → String → Bool
matches arg column = str_eq arg "" || str_eq column arg

pub matches_iff :
    (arg column : String) → (matches arg column ≡ true) ↔ ((arg ≡ "") ⊎ (column ≡ arg))
matches_iff arg column = ground (arith, str_eq_iff arg "", str_eq_iff column arg)

pub and_iff : (a b : Bool) → ((a && b) ≡ true) ↔ ((a ≡ true) × (b ≡ true))
and_iff a b = ground arith
