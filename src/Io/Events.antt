-- ===== src/Io/Events.antt =====
-- The loop over completions in `ProcessEvents` (context.hpp).
use my_async_lib.Base.{
  ℕ, ◌+◌, ◌≡◌, ap, ◌∙◌, List, [], ◌∷◌, arith, ◌==◌, if◌then◌else◌, length, ℤ, pos, ltb_ℤ,
  Bool-cases, inl, inr,
}
use my_async_lib.Io.{Cqe, for_each_cqe, process_events}

-- The completions that have a handler.
abbrev pub handled : List Cqe → List Cqe
handled [] = []
handled (e ∷ es) = let rest = handled es in if e.user_data == 0 then rest else e ∷ rest

module _ {S : Type 0} (complete : ℕ → ℤ → ℕ → S → S) where
  -- The handlers of a list of completions, each run once and in order.
  abbrev pub run_handlers : List Cqe → S → S
  run_handlers [] s = s
  run_handlers (e ∷ es) s = run_handlers es (complete e.user_data e.res e.flags s)

  for_each_cqe-handled :
      (es : List Cqe) (count : ℕ) (s : S)
      → for_each_cqe complete es count s ≡ (run_handlers (handled es) s, length es + count)
  unfolding for_each_cqe
  for_each_cqe-handled [] count s = ap (λ n. (s, n)) (omega arith)
  for_each_cqe-handled (e ∷ es) count s = elim (Bool-cases (e.user_data == 0)) [
    | inl null ↦ rw null (
        for_each_cqe-handled es (count + 1) s
        ∙ ap (λ n. (run_handlers (handled es) s, n)) (omega arith))
    | inr handler ↦ rw handler (
        for_each_cqe-handled es (count + 1) _
        ∙ ap (λ n. (run_handlers (handled es) (complete e.user_data e.res e.flags s), n))
            (omega arith))
  ]

  -- `ProcessEvents` runs no handler and passes the error on if the wait fails; otherwise it runs
  -- the handlers of the completions that have one, each once and in order, and returns the number
  -- of all completions.
  pub process_events-handled :
      (ret : ℤ) (es : List Cqe) (s : S)
      → process_events complete ret es s
        ≡ (if ltb_ℤ ret (pos 0) then (s, ret) else (run_handlers (handled es) s, pos (length es)))
  unfolding process_events
  process_events-handled ret es s =
      let e : length es + 0 ≡ length es = omega arith in rw (for_each_cqe-handled es 0 s, e)
