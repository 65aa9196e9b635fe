-- ===== src/Sqlite/Ordered.antt =====
-- The order of the events of an execution (schedune-control-plane/internal/store/sqlite/db.go).
use schedune.Base.{if_ind, ◌≡◌, false, List, [], ◌∷◌, All, arith, Bool-cases, inl, inr}
use mathlib.Core.List.{Perm}
use mathlib.Core.List.Perm
use schedune.Base.Int64.{ltb_ℤ}
use schedune.Sqlite.{EventRow, insert_by_time, order_by_time}

-- The event is not before the other one.
abbrev pub IsNotBefore : EventRow → EventRow → Type 0
IsNotBefore a b = ltb_ℤ b.timestamp_sec a.timestamp_sec ≡ false

-- Each event is not before those that stand in front of it.
abbrev pub IsOrdered : List EventRow → Type 0
IsOrdered [] = Unit
IsOrdered (a ∷ rows) = All (IsNotBefore a) rows × IsOrdered rows

All-IsNotBefore :
    (a b : EventRow) (rows : List EventRow)
    → IsNotBefore a b
    → All (IsNotBefore b) rows
    → All (IsNotBefore a) rows
All-IsNotBefore a b [] h all = tt
All-IsNotBefore a b (c ∷ rows) h (hc, all) = (ground arith, All-IsNotBefore a b rows h all)

insert-All :
    (a b : EventRow) (rows : List EventRow)
    → IsNotBefore a b
    → All (IsNotBefore a) rows
    → All (IsNotBefore a) (insert_by_time b rows)
unfolding insert_by_time
insert-All a b [] h all = (h, tt)
insert-All a b (c ∷ rows) h (hc, all) = elim (Bool-cases (ltb_ℤ c.timestamp_sec b.timestamp_sec)) [
  | inl before ↦ rw before (hc, insert-All a b rows h all)
  | inr after ↦ rw after (h, (hc, all))
]

insert-IsOrdered :
    (a : EventRow) (rows : List EventRow) → IsOrdered rows → IsOrdered (insert_by_time a rows)
unfolding insert_by_time
insert-IsOrdered a [] h = (tt, tt)
insert-IsOrdered a (b ∷ rows) (all, h) = elim (Bool-cases (ltb_ℤ b.timestamp_sec a.timestamp_sec)) [
  | inl before ↦ rw before (insert-All b a rows (ground arith) all, insert-IsOrdered a rows h)
  | inr after ↦ rw after ((after, All-IsNotBefore a b rows after all), (all, h))
]

pub order_by_time-IsOrdered : (rows : List EventRow) → IsOrdered (order_by_time rows)
unfolding order_by_time
order_by_time-IsOrdered [] = tt
order_by_time-IsOrdered (a ∷ rows) =
    insert-IsOrdered a (order_by_time rows) (order_by_time-IsOrdered rows)

insert-Perm : (a : EventRow) (rows : List EventRow) → Perm (insert_by_time a rows) (a ∷ rows)
unfolding insert_by_time
insert-Perm a [] = Perm.refl _
insert-Perm a (b ∷ rows) =
    let ih = insert-Perm a rows in
    if_ind (λ l. Perm l (a ∷ b ∷ rows)) (ltb_ℤ b.timestamp_sec a.timestamp_sec)
      (Perm.trans (Perm.cons b ih) (Perm.swap a b rows)) (Perm.refl _)

pub order_by_time-Perm : (rows : List EventRow) → Perm (order_by_time rows) rows
unfolding order_by_time
order_by_time-Perm [] = Perm.refl _
order_by_time-Perm (a ∷ rows) =
    Perm.trans (insert-Perm a (order_by_time rows)) (Perm.cons a (order_by_time-Perm rows))
