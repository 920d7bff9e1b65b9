-- ===== src/Lib.antt =====
-- Verification of the Python services of Dotty, a voice robot: what the daemon of dotty-behaviour
-- perceives, whom it greets and how it moves the robot, what a spoken text sets off, what the voice
-- paths of custom-providers say, and the activity timeline of the bridge.
--
-- The parts and how they work together:
-- - Prelude and Dict: Python's lists, bounded deques, texts and dicts. A dict is the list of its
--   entries in the order of their first insertion.
-- - Perception: dotty-behaviour/perception/state.py, perception/snapshot.py and routes/perception.py.
--   Perception/Types holds `PerceptionEvent` and `PerceptionState`, Perception/Update the chain of
--   `update_state`, Perception/Bus `subscribe`, `broadcast`, the recent-events ring and the route,
--   Perception/Waiters the capture waiters, Perception/Snapshot `snapshot`. A robot's event goes
--   through `perception_event`: it changes the state of its device and is put on every queue.
-- - Consumers: dotty-behaviour/consumers. Each consumer is a handler of one event: Turners the sound
--   and the wake-word turner, Purr the purr player, FaceGreeter the face greeter, Aborter the
--   face-lost aborter and the refresher. They change the same `PerceptionState` and give commands of
--   dispatch/xiaozhi.py, which are values here. Consumers/System runs them and the route in any
--   order: each step runs to its end, as between two awaits of one event loop. Security, the captures
--   of security_cycle.py, and Dreams, the dreamer and the dance reflector, have a state of their own.
-- - Greeter: dotty-behaviour/greeter/greeter.py. Greeter/Slots the greeting log, Greeter/Wording the
--   texts, Greeter/Handler the handler and its loop.
-- - Activity: bridge/activity.py. Activity/Envelope and Activity/Payload what a producer sends and
--   what is kept of it, Activity/Turns `_fold_turn`, Activity/Store `ActivityStore`.
-- - Voice: custom-providers/textUtils.py, custom-providers/pi_voice and bridge/text.py. Voice/Frames
--   `PiClient.iter_turn_text`, Voice/Session the reset policy of `LLMProvider`, Voice/Reply what it
--   says, Voice/Faces the emoji contract and the clean-up of texts, Voice/Filter the kid-mode filter.
-- - Calendar: dotty-behaviour/calendar_. Calendar/Cache the cache, its buckets and the summaries for
--   prompts, Calendar/Poll the refresh and the back-off of the poll loop.
-- - Household: dotty-behaviour/household and vision/room_view.py. Household/Value and Household/Person
--   how an entry of household.yaml is read, Household/Registry `HouseholdRegistry`, Household/Resolver
--   `PersonResolver`, Household/RoomView the roster, the question about a picture and its answer.
-- - Hearing: receiveAudioHandle.py. Hearing/Phrases what a text asks for, Hearing/Corrections the
--   corrections of a recognised text, Hearing/Replies what is sent, Hearing/Turn
--   `startToChat`, Hearing/Audio the microphone.
-- - Realtime: custom-providers/openai_realtime/bridge.py. Realtime/State the state of
--   `OpenAIRealtimeBridge` and what it sends, Realtime/Device the voice route and interruptions,
--   Realtime/Input the device's messages, Realtime/Events and Realtime/Tools those of the session,
--   Realtime/Player the player, Realtime/System all of them in any order. A handler runs to its end in
--   one step, but for what it puts on the bounded queue, entry by entry; what is sent in one step is
--   taken as a whole or not at all. The code has awaits between the player's checks of an entry and
--   its packet, which are one step here.
-- The other files of a part hold proofs, and are named for what they prove; Tests holds runs.
--
-- Conventions. Times and durations are natural numbers, ticks of a clock from 0, and configured
-- values are natural numbers: `now - last < c` is `now < last + c`. A key that a dict may lack is an
-- Option. An exception is `none`, a result of its own, or, in what a turn of Hearing does, its last
-- entry. A text is a list of characters; `lower` acts
-- on ASCII letters alone. Loops over a list, a text or the frames of a queue are structural
-- recursions, so that no fuel is needed; the end of a list of arrivals is the deadline.
--
-- Parameters stand for what is not in this repository or not in a program: the reply of the language
-- model and that it may fail, display names, clocks, dates and hours, how a write or a reset ends,
-- which calls of the server's code raise, the character classes of `re` and `unicodedata`, `str` and rounding of numbers.
--
-- Not modelled: the session texts, the codec and the sockets of the realtime bridge; the idle
-- photographer and the scene synthesis; HTTP and MQTT clients and servers; the speech recognition
-- and synthesis providers; the wording of prompts; the persistence files; the fetching of
-- calendars; the vision and audio routes; the expressions that redact an error and that read a room
-- view; the running of dances and songs; and the dashboard pages. They are input and output, or
-- wait for a model of their own.
pub mod Prelude
pub mod Dict
pub mod Perception
pub mod Greeter
mod Tests
pub mod Activity
pub mod Consumers
pub mod Voice
pub mod Calendar
pub mod Realtime
pub mod Household
pub mod Hearing
