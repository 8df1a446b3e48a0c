-- ===== src/Automaton/Unreachable.antt =====
-- Cfa::removeUnreachableLocations (src/Automaton/Cfa.cpp). The locations that the depth-first search of
-- LLVM visits are a parameter.
use gazer.Base.{ℕ, Bool, List, [], ◌∷◌, Result, ok, ◌>>=◌, if◌then◌else◌}
use gazer.Support.Graph.{Graph, disconnect_node, clear_disconnected_elements}
pub mod Reached

-- the loop over nodes(), which disconnectNode does not change
unfoldable pub disconnect_unvisited : (ℕ → Bool) → List ℕ → Graph → Result Graph
unfolding disconnect_node
disconnect_unvisited visited [] g = ok g
disconnect_unvisited visited (loc ∷ locs) g =
    (if visited loc then ok g else disconnect_node loc g) >>= λ g'.
    disconnect_unvisited visited locs g'

unfoldable pub remove_unreachable_locations : (ℕ → Bool) → Graph → Result Graph
unfolding disconnect_unvisited clear_disconnected_elements
remove_unreachable_locations visited g = do
  g' ← disconnect_unvisited visited g.nodes g
  ok (clear_disconnected_elements g')
