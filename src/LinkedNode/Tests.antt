-- ===== src/LinkedNode/Tests.antt =====
-- A node put before another, and removed.
use makebelieve.Base.{ℕ, ◌≡◌, refl, true, arith, ℕ-HasTest, List-HasTest}
use makebelieve.LinkedNode.{
  Links, alone, insert_before, remove, IsLinked, remove-IsLinked, insert_before-remove,
}

abbrev all_alone : Links
all_alone = record { prev = λ n. n; next = λ n. n }

all_alone-IsLinked : IsLinked all_alone
all_alone-IsLinked = record { forth = λ n. refl; back = λ n. refl }

pair-IsLinked : IsLinked (insert_before all_alone 1 2)
unfolding alone
pair-IsLinked =
    (insert_before-remove all_alone 1 2 all_alone-IsLinked refl (λ e. omega (arith, e))).0

insert_before-remove_example :
    IsLinked (insert_before all_alone 1 2)
    × ((insert_before all_alone 1 2).prev 1 ≡ 2)
    × ((insert_before all_alone 1 2).prev 2 ≡ 1)
    × ((n : ℕ)
        → ((remove (insert_before all_alone 1 2) 2).next n ≡ n)
          × ((remove (insert_before all_alone 1 2) 2).prev n ≡ n))
unfolding alone
insert_before-remove_example =
    insert_before-remove all_alone 1 2 all_alone-IsLinked refl (λ e. omega (arith, e))

remove-IsLinked_example :
    IsLinked (remove (insert_before all_alone 1 2) 2)
    × (alone (remove (insert_before all_alone 1 2) 2) 2 ≡ true)
remove-IsLinked_example = remove-IsLinked (insert_before all_alone 1 2) 2 pair-IsLinked
