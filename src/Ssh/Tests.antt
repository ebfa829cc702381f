-- ===== src/Ssh/Tests.antt =====
-- The theorems on src/internal/ssh at one pool.
use unet.Base.{true, false, List, [], ◌∷◌}
use unet.Ssh.Pool.{
  Pool, Answers, new_pool, Call, session_call, put_call, close_call, tick, session_ends, run_calls,
}
use unet.Ssh.Pool.Leaks.{IsSound, run_calls-IsSound}

-- The connection dies under the first session; the second attempt is well.
abbrev shaky : Answers
shaky = record {
  dial_first = true;
  open_first = true;
  dial_again = false;
  open_again = false;
  keepalive = false;
  dial_last = true;
  open_last = true;
  keepalive_last = true;
}

abbrev calls : List Call
calls =
    session_call shaky 1
    ∷ session_call shaky 2
    ∷ session_ends 1
    ∷ put_call 3
    ∷ tick 40000000000
    ∷ close_call
    ∷ session_call shaky 3
    ∷ []

run_calls-IsSound_example : IsSound (run_calls calls (new_pool 0))
run_calls-IsSound_example = run_calls-IsSound calls 0

abbrev used : Pool
used = run_calls (session_call shaky 1 ∷ []) (new_pool 0)
