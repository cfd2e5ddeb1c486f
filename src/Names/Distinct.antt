-- ===== src/Names/Distinct.antt =====
-- Names that differ before the part that they share are different, and none is empty.
use text.Mathlib.TextLemmas.{append-eq-nil_iff, append_cancel_right}
use steerd_presto_operator.Base.{String, ◌<>◌, ◌≡◌, false, ◌==◌, eq_iff, arith}

pub append_nonempty : (s t : String) → (s == "") ≡ false → ((s <> t) == "") ≡ false
append_nonempty s t h =
    ground (arith, h, eq_iff s "", eq_iff (s <> t) "", append-eq-nil_iff {p = s} {q = t})

pub append_distinct : (s t u : String) → (s == t) ≡ false → ((s <> u) == (t <> u)) ≡ false
append_distinct s t u h =
    ground (arith, h, eq_iff s t, eq_iff (s <> u) (t <> u), append_cancel_right s t u)
