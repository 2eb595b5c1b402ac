-- ===== src/Tests/Races.antt =====
-- Interleavings on a deque at concrete inputs.
use my_async_lib.Base.{ℕ, ◌+◌, refl, [], ◌∷◌, arith}
use my_async_lib.Spmc.Race.{
  State, Reach, here, next, steal_top, push_room, push_write, push_store, steal_bottom, steal_read,
  steal_wins, at_rest, outside, loaded, sighted, ready, put, write, items,
}
use my_async_lib.Spmc.Exclusion.{IsExact, Reach-IsExact}
use my_async_lib.Spmc.Double.{Twice, half-Twice}
use my_async_lib.Spmc.Overwrite.{Overwritten, half-Overwritten}

-- Slot `i` of four holds node `i + 100`.
abbrev nodes : ℕ → ℕ
nodes i = i + 100

-- One of two items was stolen, and node 9 was put in between the thief's read and its exchange.
abbrev stolen : State
stolen = record (at_rest nodes 1 3) {
  buffer = write nodes 3 9;
  top = 2;
  bottom = 4;
  thieves =
      put (put (put (put (λ i. outside) 0 (loaded 1)) 0 (sighted 1)) 0 (ready 1 101)) 0 outside;
  taken = 101 ∷ [];
  pushed = 9 ∷ [];
}

one_steal : Reach 4 (at_rest nodes 1 3) stolen
one_steal =
    let seen = next here (steal_top (at_rest nodes 1 3) 0 refl) in
    let chosen = next (next seen (steal_bottom _ 0 1 refl (omega arith))) (steal_read _ 0 1 refl) in
    let room = next chosen (push_room _ 9 refl (omega arith)) in
    let full = next (next room (push_write _ 9 refl)) (push_store _ 9 refl) in
    next full (steal_wins _ 0 1 101 refl refl)

Reach-IsExact_example : IsExact 4 (items 4 nodes 1 2) stolen
Reach-IsExact_example = Reach-IsExact 4 nodes 1 3 (omega arith) (omega arith) one_steal

half-Twice_example : (s : State) × Twice 4 (items 4 nodes 1 4) 102 (at_rest nodes 1 5) s
half-Twice_example = half-Twice 4 nodes 1

half-Overwritten_example :
    (s : State) × Overwritten 4 (items 4 nodes 1 4) 101 9 (at_rest nodes 1 5) s
half-Overwritten_example = half-Overwritten 4 nodes 1 9 (omega arith)
