-- ===== src/Minheap/Tests.antt =====
-- Runs of core/spy_minheap.c, its unit test among them, and the theorems at concrete heaps.
use mysqlproxy.Base.{ℕ, ◌-◌, ◌+◌, ◌≡◌, refl, arith, List, [], ◌∷◌, update, ◌==◌, if◌then◌else◌}
use mysqlproxy.Base.Runs.{Run, ok, fault, Returns, ◌>>=◌}
use mysqlproxy.Minheap.{Node, Heap, init, insert, delete}
use mysqlproxy.Minheap.Order.{IsOrdered, Live, IsPlaced, IsValid}
use mysqlproxy.Minheap.Insert.{Inserted, insert-Inserted}
use mysqlproxy.Minheap.Delete.{Removed, delete-Removed, delete-not-IsOrdered}
use mysqlproxy.Minheap.Limits.{insert-fault}

-- node `a` has key `keys a`, and the positions are still to be given
abbrev memory : (ℕ → ℕ) → ℕ → Node
memory keys a = record { key = keys a; index = 0 }

-- the unit test's nodes, at the addresses 1 to 6
abbrev unit_keys : ℕ → ℕ
unit_keys =
    update (update (update (update (update (update (λ _. 0) 1 20) 2 15) 3 2) 4 14) 5 10) 6 21

abbrev unit_heap : Heap
unit_heap = record {
  root = 0;
  last = 0;
  max_num = 5;
  capacity = 5;
  slots = λ _. 0;
  nodes = memory unit_keys;
}

abbrev push : Heap → ℕ → Run Heap
push h x = insert h x h.last >>= λ r. ok r.1

abbrev first_five : Heap → List ℕ
first_five h = h.slots 0 ∷ h.slots 1 ∷ h.slots 2 ∷ h.slots 3 ∷ h.slots 4 ∷ []

abbrev unit_filled : Run Heap
unit_filled = do
  a ← push unit_heap 1
  b ← push a 2
  c ← push b 3
  d ← push c 4
  e ← push d 5
  push e 6

-- the sixth insertion finds the heap full
unit_positions : (unit_filled >>= λ h. ok (first_five h)) ≡ ok (3 ∷ 5 ∷ 2 ∷ 1 ∷ 4 ∷ [])
unfolding insert
unit_positions = refl

unit_deleted :
    (do h ← unit_filled; r ← delete h 3; ok (r.1.last ∷ r.1.slots 3 ∷ (r.1.nodes 4).index ∷ []))
    ≡ ok (4 ∷ 4 ∷ 3 ∷ [])
unfolding insert delete
unit_deleted = refl

-- three nodes in order, at the addresses 7, 8 and 9
abbrev sample : Heap
sample = record {
  root = 0;
  last = 3;
  max_num = 8;
  capacity = 10;
  slots = update (update (update (λ _. 0) 0 7) 1 8) 2 9;
  nodes =
      update
        (update (update (λ _. record { key = 5; index = 0 }) 7 (record { key = 2; index = 0 })) 8
          (record { key = 15; index = 1 }))
        9 (record { key = 20; index = 2 });
}

sample-IsPlaced : IsPlaced sample
sample-IsPlaced = record {
  indexed = λ j p. ground arith;
  fits = omega arith;
  bounded = omega arith;
}

sample-IsValid : IsValid sample
sample-IsValid = record { ordered = λ c p q. ground arith; placing = sample-IsPlaced }

not-Live-sample : ¬ Live sample 4
not-Live-sample l = ground arith

insert-Inserted_example : Returns (Inserted sample 4) (insert sample 4 3)
insert-Inserted_example =
    insert-Inserted sample-IsPlaced not-Live-sample (omega arith) (omega arith)

delete-Removed_example : Returns (Removed sample 0) (delete sample 0)
delete-Removed_example = delete-Removed sample-IsPlaced (omega arith)

-- two branches of which the right one is the older: 1 over 10 and 2, and 10 over 11 and 12
abbrev skewed : Heap
skewed = record {
  root = 0;
  last = 6;
  max_num = 8;
  capacity = 10;
  slots = λ j. j + 20;
  nodes = λ a. record {
    key = if a == 20 then 1 else if a == 22 then 2 else if a == 25 then 3 else a;
    index = a - 20;
  };
}

skewed-IsValid : IsValid skewed
skewed-IsValid = record {
  ordered = λ c p q. ground arith;
  placing = record { indexed = λ j p. ground arith; fits = omega arith; bounded = omega arith };
}

delete-not-IsOrdered_example : Returns (λ r. ¬ IsOrdered r.1 r.1.last) (delete skewed 3)
delete-not-IsOrdered_example =
    delete-not-IsOrdered {h = skewed} {a = 3} skewed-IsValid (omega arith) (omega arith)
      (ground arith)

-- ten nodes in an array for ten, in a heap that may hold twelve
abbrev brimful : Heap
brimful = record {
  root = 0;
  last = 10;
  max_num = 12;
  capacity = 10;
  slots = λ j. j;
  nodes = λ a. record { key = a; index = a };
}

insert-fault_example : insert brimful 11 10 ≡ fault
unfolding init
insert-fault_example =
    insert-fault {h = brimful} 11
      (record { indexed = λ j p. refl; fits = omega arith; bounded = omega arith }) (omega arith)
      refl refl (omega arith)

abbrev single : Heap
single = record sample { last = 1; slots = update (λ _. 0) 0 7 }
