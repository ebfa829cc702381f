-- ===== src/Logstream/Hub.antt =====
-- src/internal/logstream/hub.go: subscribers with bounded channels, and the fan-out to them. A
-- method runs under the hub's lock, so each is one step; a panic is `none`.
pub mod Delivery
pub mod Notifications
use unet.Base.{
  ℕ, zero, suc, ◌+◌, ◌-◌, ◌^◌, Bool, true, false, not, ◌&&◌, List, [], ◌∷◌, ◌++◌, map, Option, none,
  some, ltb, ◌==◌, if◌then◌else◌, length, drop, Text, u64,
}
use unet.Base.Int.{ℤ, pos, negsuc}
use unet.Base.Map.{Map, lookup}
use unet.Logstream.Ring.{LogRecord, Ring, since, next_seq}

-- A nil map and an empty one let everything pass.
pub record SubFilter : Type 0 where
  pub levels : Map Bool
  pub components : Map Bool
  pub sources : Map Bool

pub record Subscriber : Type 0 where
  pub id : ℕ  -- int64
  pub ch : List Text  -- oldest first
  pub capacity : ℕ
  pub filters : SubFilter
  pub closed : Bool

abbrev pub buffer_of : ℤ → ℕ
buffer_of (pos zero) = 1000
buffer_of (pos (suc n)) = suc n
buffer_of (negsuc n) = 1000

unfoldable pub new_subscriber : ℤ → SubFilter → Subscriber
new_subscriber buffer_size filters = record {
  id = 0;
  ch = [];
  capacity = buffer_of buffer_size;
  filters = filters;
  closed = false;
}

unfoldable pub close : Subscriber → Subscriber
close s = record s { closed = true }

-- `len(m) > 0 && !m[k]`
unfoldable pub blocks : Map Bool → Text → Bool
blocks [] k = false
blocks ((j, b) ∷ m) k = elim (lookup k ((j, b) ∷ m)) [ none ↦ true | some v ↦ not v ]

unfoldable pub matches : Subscriber → LogRecord → Bool
matches s rec =
    if blocks s.filters.levels rec.level
    then false
    else if blocks s.filters.components rec.component
    then false
    else if blocks s.filters.sources rec.source
    then false
    else true

-- `send`: when the buffer is full the oldest event is discarded, and the send tried again.
unfoldable pub send : Subscriber → Text → Subscriber × Bool
send s event =
    let room = ltb (length s.ch) s.capacity in
    let rest = drop 1 s.ch in
    if s.closed
    then (s, false)
    else if room
    then (record s { ch = s.ch ++ event ∷ [] }, true)
    else if ltb (length rest) s.capacity
    then (record s { ch = rest ++ event ∷ [] }, true)
    else (record s { ch = rest }, false)

pub record Hub : Type 0 where
  pub ring : Ring
  pub subscribers : List Subscriber  -- the map by id, in some order
  pub next_id : ℕ  -- int64
  pub stopped : Bool  -- stopCh is closed
  pub notify_ch : List ℕ  -- at most 256

unfoldable pub new_hub : Ring → Hub
new_hub ring = record {
  ring = ring;
  subscribers = [];
  next_id = 0;
  stopped = false;
  notify_ch = [];
}

-- `h.subscribers[sub.id] = sub`
unfoldable pub put : Subscriber → List Subscriber → List Subscriber
put s [] = s ∷ []
put s (t ∷ ts) = if t.id == s.id then s ∷ ts else t ∷ put s ts

unfoldable pub subscribe : Hub → SubFilter → Hub × Subscriber × ℕ
unfolding new_subscriber
subscribe h filter =
    let sub = record (new_subscriber (pos 1000) filter) { id = u64 (h.next_id + 1) } in
    (
      record h { next_id = u64 (h.next_id + 1); subscribers = put sub h.subscribers },
      sub,
      u64 (next_seq h.ring + (2 ^ 64 - 1)),
    )

unfoldable pub find : ℕ → List Subscriber → Option Subscriber
find i [] = none
find i (t ∷ ts) = if t.id == i then some t else find i ts

unfoldable pub remove : ℕ → List Subscriber → List Subscriber
remove i [] = []
remove i (t ∷ ts) = if t.id == i then ts else t ∷ remove i ts

-- The hub without the subscriber, and the subscriber, closed.
unfoldable pub unsubscribe : Hub → ℕ → Hub × Option Subscriber
unsubscribe h i = elim (find i h.subscribers) [
  | none ↦ (h, none)
  | some s ↦ (record h { subscribers = remove i h.subscribers }, some (close s))
]

-- A full notification channel drops the number.
unfoldable pub notify : Hub → ℕ → Hub
notify h seq =
    if ltb (length h.notify_ch) 256 then record h { notify_ch = h.notify_ch ++ seq ∷ [] } else h

-- What both loops over records do for one subscriber. The encoder is `json.Marshal`, which fails
-- on `none`.
module _ (marshal : LogRecord → Option Text) where
  unfoldable pub offer : LogRecord → Subscriber → Subscriber
  offer rec s = elim (marshal rec) [
    | none ↦ s
    | some event ↦ if matches s rec then (send s event).0 else s
  ]

  -- The loops of `fanout`: records outside, subscribers inside.
  unfoldable pub fan : List LogRecord → List Subscriber → List Subscriber
  fan [] subs = subs
  fan (rec ∷ recs) subs = fan recs (map (offer rec) subs)

  unfoldable pub fanout : Hub → ℕ → Option Hub
  fanout h after_seq = elim (since h.ring (u64 (after_seq + (2 ^ 64 - 1)))) [
    | none ↦ none
    | some records ↦ some (record h { subscribers = fan records h.subscribers })
  ]

  -- One turn of `Run` that takes a notification.
  unfoldable pub run_once : Hub → Option Hub
  run_once h = elim h.notify_ch [
    | [] ↦ some h
    | seq ∷ rest ↦ fanout (record h { notify_ch = rest }) seq
  ]

  -- The first `k` turns of `Run`.
  unfoldable pub turns : ℕ → Hub → Option Hub
  turns zero h = some h
  turns (suc k) h = elim (run_once h) [ none ↦ none | some h' ↦ turns k h' ]

  -- The loop of `Replay`.
  unfoldable pub offer_all : List LogRecord → Subscriber → Subscriber
  offer_all [] s = s
  offer_all (rec ∷ recs) s = offer_all recs (offer rec s)

  unfoldable pub replay : Hub → Subscriber → ℕ → Option Subscriber
  replay h s after_seq = elim (since h.ring after_seq) [
    | none ↦ none
    | some records ↦ some (offer_all records s)
  ]

-- `Stop`: to close `stopCh` again is a panic. The subscribers, closed, come back for their readers.
unfoldable pub stop : Hub → Option (Hub × List Subscriber)
stop h =
    if h.stopped
    then none
    else some (record h { stopped = true; subscribers = [] }, map close h.subscribers)
