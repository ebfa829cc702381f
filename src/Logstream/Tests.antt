-- ===== src/Logstream/Tests.antt =====
-- The theorems on src/internal/logstream at a ring of two records and one subscriber.
use unet.Base.{
  ◌+◌, ◌-◌, ◌^◌, ◌≡◌, refl, List, [], ◌∷◌, ◌++◌, Option, some, arith, drop, Text, codes, u64,
}
use unet.Base.Int.{pos}
use unet.Logstream.Ring.{LogRecord, Ring, blank, new_ring, write_all, snapshot, since}
use unet.Logstream.Ring.History.{number, snapshot-write_all}
use unet.Logstream.Ring.Replay.{since-write_all}
use unet.Logstream.Hub.{Subscriber, Hub, new_hub, new_subscriber, fanout}
use unet.Logstream.Hub.Delivery.{IsOpen, served, fanout-served}

abbrev said : Text → LogRecord
said msg = record blank { msg = msg; level = codes "info" }

abbrev one : LogRecord
one = said (codes "one")

abbrev two : LogRecord
two = said (codes "two")

abbrev three : LogRecord
three = said (codes "three")

abbrev ring : Ring
ring = write_all (new_ring (pos 2)) (one ∷ two ∷ three ∷ [])

snapshot-write_all_example : snapshot ring ≡ some (drop 1 (number 0 (one ∷ two ∷ three ∷ [])))
snapshot-write_all_example = snapshot-write_all (pos 2) (one ∷ two ∷ three ∷ []) (omega arith)

abbrev marshal : LogRecord → Option Text
marshal rec = some rec.msg

abbrev subscriber : Subscriber
subscriber = new_subscriber (pos 8) record { levels = []; components = []; sources = [] }

subscriber-IsOpen : IsOpen subscriber
unfolding new_subscriber
subscriber-IsOpen = record { live = refl; roomy = omega arith; bounded = omega arith }

abbrev full : Ring
full = write_all (new_ring (pos 2)) ([] ++ one ∷ two ∷ [])

abbrev hub : Hub
hub = record (new_hub full) { subscribers = subscriber ∷ []; notify_ch = 1 ∷ 2 ∷ [] }

abbrev both : List LogRecord
both = number 0 (one ∷ two ∷ [])

since_all : since full (u64 (1 + (2 ^ 64 - 1))) ≡ some both
unfolding number
since_all = since-write_all (pos 2) (one ∷ two ∷ []) 0 (omega arith) (omega arith)

fanout-served_example :
    fanout marshal hub 1 ≡ some (record hub { subscribers = served marshal subscriber both ∷ [] })
unfolding new_hub
fanout-served_example = fanout-served marshal hub 1 both (subscriber-IsOpen, tt) since_all
