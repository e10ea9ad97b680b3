-- ===== src/QueueState/Tests.antt =====
-- The gauge of app/queue_state.py at concrete histories.
use prismux.Prelude.{◌≡◌, [], ◌∷◌, Str, text, list_beq, eq_iff, ◌≢◌, false, true, text_eq, arith}
use prismux.QueueState.{empty, queued_for, inc, reset}
use prismux.QueueState.Balance.{
  enters, leaves, run, waiting_at, sum_counts, run-counts, reset-undercounts,
}

run-counts_example :
    ((model : Str)
      → queued_for model (run (enters (text "a") ∷ leaves (text "a") ∷ []) empty)
        ≡ waiting_at (enters (text "a") ∷ leaves (text "a") ∷ []) (λ _. 0) model)
    × ((run (enters (text "a") ∷ leaves (text "a") ∷ []) empty).global_queued
        ≡ sum_counts (run (enters (text "a") ∷ leaves (text "a") ∷ []) empty).by_model)
unfolding text list_beq
run-counts_example = run-counts (enters (text "a") ∷ leaves (text "a") ∷ []) (omega arith, tt)

a_differs : text "a" ≢ text "b"
unfolding text list_beq
a_differs e = let f : false ≡ true = (eq_iff (text "a") (text "b")).1 e in cc f

reset-undercounts_example :
    let r = run (enters (text "b") ∷ leaves (text "a") ∷ []) (reset (inc (text "a") empty)) in
    (r.global_queued ≡ 0) × (queued_for (text "b") r ≡ 1)
reset-undercounts_example = reset-undercounts (text "a") (text "b") (inc (text "a") empty) a_differs
