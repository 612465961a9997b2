-- ===== src/Lifecycle/Suites.antt =====
-- The two tables of a benchmark suite, and what its correlation mode demands.
use actionwitness.Prelude.{
  ◌≡◌, ◌≢◌, Bool-cases, inl, inr, true, List, [], ◌∷◌, Memᴰ, arith, sym, ◌==◌, Option, some, ◌↔◌,
}
use actionwitness.Kernel.{Result, ok, ◌>>=◌, >>=-ok}
use actionwitness.States.{
  BenchmarkSuiteState, BenchmarkStatus, CorrelationMode, benchmark_status_eq,
  imported_trajectory_replay,
}
use actionwitness.Lifecycle.{
  validate_benchmark_suite_transition, can_transition, require_transition,
}

-- the state of journeys/enums.py with the name of a status of benchmarks/enums.py
abbrev pub suite_state : BenchmarkStatus → BenchmarkSuiteState
suite_state BenchmarkStatus.draft = BenchmarkSuiteState.draft
suite_state BenchmarkStatus.ready = BenchmarkSuiteState.ready
suite_state BenchmarkStatus.running = BenchmarkSuiteState.running
suite_state BenchmarkStatus.completed = BenchmarkSuiteState.completed
suite_state BenchmarkStatus.cancelled = BenchmarkSuiteState.cancelled
suite_state BenchmarkStatus.error = BenchmarkSuiteState.error

-- The tables of journeys/transitions.py and benchmarks/states.py permit the same moves.
pub suite_tables_agree :
    (s t : BenchmarkStatus)
    → (can_transition s t ≡ true)
      ↔ (validate_benchmark_suite_transition (suite_state s) (suite_state t) ≡ ok tt)
unfolding can_transition validate_benchmark_suite_transition
suite_tables_agree s t = (λ h. ground arith, λ h. ground arith)

-- a suite that moves through the statuses listed, each move required
unfoldable pub advance :
    Option CorrelationMode → BenchmarkStatus → List BenchmarkStatus → Result BenchmarkStatus
advance mode s [] = ok s
advance mode s (t ∷ ts) = require_transition s t mode >>= λ u. advance mode u ts

replay_step :
    (s t u : BenchmarkStatus)
    → require_transition s t (some imported_trajectory_replay) ≡ ok u
    → (u ≡ t) × (t ≡ BenchmarkStatus.completed → s ≡ BenchmarkStatus.running)
unfolding require_transition
replay_step s t u h = (ground arith, λ e. ground arith)

-- A replay suite that is brought from another status to `completed` is in `running` on the way.
pub replay_completes_by_running :
    (s : BenchmarkStatus) (ts : List BenchmarkStatus)
    → s ≢ BenchmarkStatus.completed
    → advance (some imported_trajectory_replay) s ts ≡ ok BenchmarkStatus.completed
    → Memᴰ BenchmarkStatus.running (s ∷ ts)
unfolding advance
replay_completes_by_running s [] n h = absurd (n cc)
replay_completes_by_running s (t ∷ ts) n h =
    let (u, rest, e) =
      >>=-ok (λ u. advance (some imported_trajectory_replay) u ts)
        (require_transition s t (some imported_trajectory_replay)) h in
    let (same, last) = replay_step s t u e in
    elim (Bool-cases (t == BenchmarkStatus.completed)) [
      | inl c ↦
          Memᴰ.head (sym (last ((benchmark_status_eq.same_iff t BenchmarkStatus.completed).0 c)))
      | inr c ↦ Memᴰ.tail (
          replay_completes_by_running t ts
            (λ f. cc (c, (benchmark_status_eq.same_iff t BenchmarkStatus.completed).1 f))
            (rw same at rest))
    ]
