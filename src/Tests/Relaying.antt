-- ===== src/Tests/Relaying.antt =====
-- The scanner and the relay on a short stream.
use patchbay.Common.{
  ℕ, ◌≡◌, ◌↔◌, refl, Bool, true, false, Option, some, List, [], ◌∷◌, map, leb, arith,
}
use patchbay.Common.Texts.{codes, text_eq, strip_prefix, starts_with}
use patchbay.Upstream.{Bytes, Usage}
use patchbay.Upstream.Scanner.{
  UsageScanner, new_scanner, settle, find_from, term_at, find_event_boundary, feed, drain,
  process_event, check_overflow, collect, collect_from, collect_data_line, take_payload, mentions,
}
use patchbay.Upstream.Scanner.Runs.{Drains}
use patchbay.Upstream.Scanner.Runs.Ends.{settle_iff}
use patchbay.Upstream.Scanner.Feed.{join, feed_all, feed_all-join}
use patchbay.Upstream.Scanner.Streams.{stream, AllEvents, data_event, AllLines, feed_all-data}
use patchbay.Upstream.Relay.{UpstreamPoll, new_relay, drop_relay, run}
use patchbay.Upstream.Relay.Report.{IsFaithful, summary_of, run-IsFaithful, run-summary}

abbrev usage : Usage
usage = record { prompt_tokens = 3; completion_tokens = 4; total_tokens = 7 }

-- Every payload that mentions usage has this one.
abbrev envelope : Bytes → Option (Option Usage)
envelope payload = some (some usage)

abbrev fired : ℕ → ℕ → Bool
fired deadline now = leb deadline now

abbrev event : Bytes
event = codes "data: x\n\n"

event_boundary : find_event_boundary event ≡ some (7, 9)
unfolding find_event_boundary find_from term_at
event_boundary = refl

abbrev payloads : List Bytes
payloads = codes "\"usage\"" ∷ codes "[DONE]" ∷ []

-- The stream, cut inside a field name and between the two terminators of an event.
abbrev chunks : List Bytes
chunks = codes "da" ∷ codes "ta: \"usage\"\n" ∷ codes "\ndata: [DONE]\n\n" ∷ []

chunks_open : (feed_all envelope new_scanner chunks).overflowed ≡ false
unfolding feed_all feed drain process_event check_overflow collect collect_from collect_data_line
    take_payload mentions find_event_boundary find_from term_at strip_prefix text_eq starts_with
chunks_open = refl

join-chunks : join chunks ≡ stream (map data_event payloads)
join-chunks = refl

events_well_formed : AllEvents (map data_event payloads)
events_well_formed = ground arith

payloads_are_lines : AllLines payloads
payloads_are_lines = ground arith

feed_all-join_example :
    feed_all envelope new_scanner chunks ≡ feed envelope new_scanner (join chunks)
feed_all-join_example = feed_all-join envelope chunks chunks_open

feed_all-data_example :
    feed_all envelope new_scanner chunks
    ≡ record { buf = []; last_usage = some usage; saw_done = true; overflowed = false }
unfolding text_eq mentions starts_with
feed_all-data_example =
    feed_all-data envelope payloads chunks payloads_are_lines join-chunks chunks_open

abbrev polls : List (ℕ × UpstreamPoll)
polls =
    (0, UpstreamPoll.chunk event)
    ∷ (5, UpstreamPoll.pending)
    ∷ (90, UpstreamPoll.pending)
    ∷ (95, UpstreamPoll.chunk event)
    ∷ []

relay_live : (new_relay 0 30).finished ≡ false
unfolding new_relay
relay_live = refl

run-IsFaithful_example :
    IsFaithful (new_relay 0 30).timeout polls (run envelope fired (new_relay 0 30) polls).1
run-IsFaithful_example = run-IsFaithful envelope fired (new_relay 0 30) polls relay_live

run-summary_example :
    (drop_relay (run envelope fired (new_relay 0 30) polls).0).sent
    ≡ summary_of envelope fired (new_relay 0 30) (run envelope fired (new_relay 0 30) polls).1 ∷ []
run-summary_example = run-summary envelope fired 0 30 polls

abbrev two_events : UsageScanner
two_events = record new_scanner { buf = codes "data: x\n\ndata: \"usage\"\n\nda" }

settle_iff_example :
    Drains envelope two_events (settle envelope two_events)
    ↔ (settle envelope two_events ≡ settle envelope two_events)
settle_iff_example = settle_iff envelope two_events (settle envelope two_events)
