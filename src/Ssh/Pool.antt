-- ===== src/Ssh/Pool.antt =====
-- src/internal/ssh/pool.go: the sessions of one host. The network's answers to the calls of one
-- `Session` are given; sessions and connections are numbered as they are made, and the state keeps
-- apart what the pool tracks and what is really open on the network. Every method runs under the
-- pool's lock, so an execution is a sequence of them.
pub mod Held
pub mod Leaks
use unet.Base.{
  ℕ, suc, ◌+◌, ◌-◌, Bool, true, false, not, ◌&&◌, List, [], ◌∷◌, Option, none, some, ltb, leb, ◌==◌,
  if◌then◌else◌, length, keep,
}

abbrev pub max_sessions_per_host : ℕ
max_sessions_per_host = 3

abbrev pub idle_timeout : ℕ
idle_timeout = 30000000000

pub data Error : Type 0 where
  pool_closed pool_exhausted dial_failed new_session_failed validation_failed : Error

pub data Result : Type 0 where
  ok : ℕ → Result
  err : Error → Result

-- `opened` and `connections` are no fields of the source: they are the sessions that are open, each with
-- its connection, and the connections that are.
pub record Pool : Type 0 where
  pub client : Option ℕ
  pub sessions : List ℕ
  pub closed : Bool
  pub last_used : ℕ
  pub opened : List (ℕ × ℕ)
  pub connections : List ℕ
  pub next_id : ℕ

-- How the network answers: a call that is not made has its answer ignored.
pub record Answers : Type 0 where
  pub dial_first : Bool
  pub open_first : Bool
  pub dial_again : Bool
  pub open_again : Bool
  pub keepalive : Bool
  pub dial_last : Bool
  pub open_last : Bool
  pub keepalive_last : Bool

unfoldable pub new_pool : ℕ → Pool
new_pool now = record {
  client = none;
  sessions = [];
  closed = false;
  last_used = now;
  opened = [];
  connections = [];
  next_id = 0;
}

unfoldable pub remove_one : ℕ → List ℕ → List ℕ
remove_one k [] = []
remove_one k (j ∷ js) = let rest = remove_one k js in if j == k then js else j ∷ rest

unfoldable pub ensure_client : Bool → Pool → Pool × Bool
ensure_client dialed p = elim p.client [
  | some _ ↦ (p, true)
  | none ↦
      if dialed
      then (
        record p {
          client = some p.next_id;
          connections = p.next_id ∷ p.connections;
          next_id = suc p.next_id;
        },
        true,
      )
      else (p, false)
]

-- Closing the client ends every session on its connection.
unfoldable pub close_client : Pool → Pool
close_client p = elim p.client [
  | none ↦ p
  | some k ↦ record p {
    client = none;
    connections = remove_one k p.connections;
    opened = keep (λ o. not (o.1 == k)) p.opened;
  }
]

-- `p.client.NewSession()` and `newSession`.
unfoldable pub new_session : Bool → Pool → Pool × Result
new_session answer p = elim p.client [
  | none ↦ (p, Result.err new_session_failed)
  | some k ↦
      if answer
      then (
        record p { opened = (p.next_id, k) ∷ p.opened; next_id = suc p.next_id },
        Result.ok p.next_id,
      )
      else (p, Result.err new_session_failed)
]

unfoldable pub close_session : ℕ → Pool → Pool
close_session s p = record p { opened = keep (λ o. not (o.0 == s)) p.opened }

-- The connection is dropped and made again, and a session opened on it.
unfoldable pub reconnect : Bool → Bool → Pool → Pool × Result
reconnect dialed answer p =
    let (q, live) = ensure_client dialed (close_client p) in
    if live then new_session answer q else (q, Result.err dial_failed)

-- The first part of `Session`, to the first session in hand.
unfoldable pub acquire : Answers → Pool → Pool × Result
acquire a p =
    let (q, live) = ensure_client a.dial_first p in
    if not live
    then (q, Result.err dial_failed)
    else if a.open_first
    then new_session true q
    else reconnect a.dial_again a.open_again q

-- The keepalive on a session in hand.
unfoldable pub validate : Answers → ℕ → Pool → Pool × Result
validate a s p =
    if a.keepalive
    then (p, Result.ok s)
    else (let (q, r) = reconnect a.dial_last a.open_last (close_session s p) in
        elim r [
          | Result.err e ↦ (q, Result.err e)
          | Result.ok s' ↦
              if a.keepalive_last
              then (q, Result.ok s')
              else (close_session s' q, Result.err validation_failed)
        ])

unfoldable pub track : ℕ → Pool × Result → Pool × Result
track now (p, Result.err e) = (p, Result.err e)
track now (p, Result.ok s) = (record p { sessions = s ∷ p.sessions; last_used = now }, Result.ok s)

unfoldable pub connected : Answers → Pool × Result → Pool × Result
connected a (p, Result.err e) = (p, Result.err e)
connected a (p, Result.ok s) = validate a s p

-- `Session`.
unfoldable pub session : Answers → ℕ → Pool → Pool × Result
session a now p =
    if p.closed
    then (p, Result.err pool_closed)
    else if leb max_sessions_per_host (length p.sessions)
    then (p, Result.err pool_exhausted)
    else track now (connected a (acquire a p))

unfoldable pub put : ℕ → Pool → Pool
put s p = close_session s (record p { sessions = remove_one s p.sessions })

-- The loop of `Close` over the tracked sessions.
unfoldable pub close_all : List ℕ → Pool → Pool
close_all [] p = p
close_all (s ∷ ss) p = close_all ss (close_session s p)

unfoldable pub close : Pool → Pool
close p =
    if p.closed
    then p
    else close_client (record (close_all p.sessions p) { closed = true; sessions = [] })

-- One tick of `sweepIdle`.
unfoldable pub sweep : ℕ → Pool → Pool
sweep now p = elim p.client [
  | none ↦ p
  | some _ ↦
      if not p.closed && (length p.sessions == 0) && ltb (p.last_used + idle_timeout) now
      then close_client p
      else p
]

pub record PoolStats : Type 0 where
  pub active_sessions : ℕ
  pub idle_slots : ℕ
  pub has_connection : Bool
  pub last_used : ℕ

-- The idle slots are a difference that the bound on the sessions keeps above zero.
unfoldable pub stats : Pool → PoolStats
stats p = record {
  active_sessions = length p.sessions;
  idle_slots = max_sessions_per_host - length p.sessions;
  has_connection = elim p.client [ none ↦ false | some _ ↦ true ];
  last_used = p.last_used;
}

-- The calls that use a pool. A session ends when its caller closes it, which `Session` allows in place
-- of `Put`, or the other side does.
pub data Call : Type 0 where
  session_call : Answers → ℕ → Call
  put_call : ℕ → Call
  close_call : Call
  tick : ℕ → Call
  session_ends : ℕ → Call

unfoldable pub run_call : Call → Pool → Pool
run_call (session_call a now) p = (session a now p).0
run_call (put_call s) p = put s p
run_call close_call p = close p
run_call (tick now) p = sweep now p
run_call (session_ends s) p = close_session s p

unfoldable pub run_calls : List Call → Pool → Pool
run_calls [] p = p
run_calls (c ∷ cs) p = run_calls cs (run_call c p)
