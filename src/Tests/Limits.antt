-- ===== src/Tests/Limits.antt =====
-- Runs of the rate limiter.
use multi_rpc.Prelude.{ℕ, ◌+◌, ◌≡◌, List, [], ◌∷◌, lit, pos, arith, ◌≤◌}
use multi_rpc.Limiter.Counts.{Call}
use multi_rpc.Limiter.Refinement.{answers, spec_answers, answers-spec_answers}
use multi_rpc.Limiter.Bounds.{admitted, admitted-le}

abbrev call_at : ℕ → Call
call_at t = record { identifier = lit "u1"; limit = pos 2; now = t; cleanup_now = t + 1 }

abbrev other_call : Call
other_call = record { identifier = lit "u2"; limit = pos 5; now = 1200; cleanup_now = 1201 }

abbrev calls : List Call
calls = call_at 1100 ∷ other_call ∷ call_at 1300 ∷ call_at 1400 ∷ []

-- the third call of a second is refused at a limit of two
admitted-le_example : admitted 1 (lit "u1") 1 calls [] ≤ 2
admitted-le_example = admitted-le 1 (omega arith) (lit "u1") 1 2 calls (ground arith) (ground arith)

answers-spec_answers_example : answers 1 calls [] ≡ spec_answers 1 calls (λ _ _. 0)
answers-spec_answers_example = answers-spec_answers 1 (omega arith) calls (ground arith)
