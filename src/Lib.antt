-- ===== src/Lib.antt =====
-- The RoIS HRI engine of this repository, as definitions that run, and the theorems about them.
--
-- An engine serves sessions: clients, or the parent engine, whose session is trusted. It reaches
-- components through sources, which are its own local components and its child engines. A client
-- searches components by a condition, binds them, executes commands on them and subscribes to
-- their events; the engine routes each request to the source that owns the component or the id,
-- and sends each notification to the sessions that it concerns.
--
-- Common/      shared by the parts: texts, dicts, results, decimal numerals, Boolean tests.
-- Condition/   interfaces/python/src/openrois/interfaces/condition.py. Syntax has `Comparison`,
--              `Condition` and the errors, Tokens has `_tokens`, Like has `_like_regex` and the
--              full match of its expression, which is that of Python's `re`, Parse has
--              `parse_condition` and the methods `matches` and `equal_values`, Print has
--              `__str__`, `quote`, `eq`, `like`, `all_of` and the builders. Lexing, Literals,
--              RoundTrip, Accepts, Matching, Patterns, Fuel and Keywords have proofs.
-- Profiles/    the enumerations and records of common.py, hri.py, profiles.py and service.py
--              beside it, with the fields that the engine reads.
-- Engine/      engine/src/openrois/engine/engine.py and session.py. State has the state of
--              `Engine`, Routes has `_components`, `_profile`, `_owner_of` and
--              `check_engine_ids`, Binds has `_bind`, `_holds`, `_as_seen_by` and the requests
--              that bind, Commands has `_complete`, `_finish`, `_skip` and `_prune_commands`,
--              Execute has `_execute` with its checks, Events has the subscriptions and
--              `_notify_error`, Sessions has `open_session`, `_release`, `_end_session` and
--              `remove_child`, Selection has `_select`, `_search` and `_get_profile`, Pick has
--              `_pick`, Requests has the other requests and `_run_unit`, Sequences has
--              `_run_sequence` and `_run_branch`. Steps puts the operations together as a step
--              relation on the state. The other files have proofs, one subject each.
-- Peer/        engine/src/openrois/engine/jsonrpc.py. Json has JSON values, Answer has `answer`
--              and its tests of a message, Outbox has `Outbox`. ReplyIds and Order have proofs.
-- Child/       engine/src/openrois/engine/child.py. Discovery has `_apply_profile`, `_owns`,
--              `_condition` and `_start_timeout`, Pending the requests that wait for a reply,
--              with the steps that they take; Owned, Late and Reached have proofs.
-- Values/      interfaces/python/src/openrois/interfaces/values.py. Types has the kinds of types,
--              Numbers `str` and `int`, Python the values and what is taken of Python, Encode has
--              `encode_value`, `decode_value`, `_to_json` and `_from_json`. Digits, Integers and
--              RoundTrip have proofs.
-- Local/       engine/src/openrois/engine/local.py. State has `LocalComponents` and `_Hosted`,
--              Statuses `status`, `_operable`, `_raise`, `_clear` and those for resources and the
--              engine, Results `_keep`, Events `subscribe`, `_publish` and `event_detail`, Ends
--              `_begin` and `_end`, Commands `_start` with its takeover, Suspensions `_stop`,
--              `_suspend`, `_resume` and `_lift`, Run `run`, `_held` and `_timeout`, Hosting
--              `add`, `start` and `stop`, Parameters `_apply` and `get_parameter`, Bindings
--              `query` and what components and resources call. Steps puts the commands of one
--              component together as a step relation, Kept the other operations. Turns, InTurn,
--              Taking, Turning and Orderly prove that starts take turns; Listed and Errors,
--              Recent, Publishing, Aborting, Aborted, Superseded, Stored, Opening and Starting have
--              the others.
-- Sdk/         sdk/python/src/openrois/sdk/transport.py. Transport has `WebSocketTransport`,
--              Settled a step relation on it and, with Times, its proof; Receive has `_receive`,
--              and Replies proves that it takes what jsonrpc.py writes for a reply.
-- Config/      engine/src/openrois/engine/config.py. Load has `load_config`, Precedence its
--              proof.
--
-- How the code is written down:
--   A text is the list of its code points, and a dict is the list of its entries in insertion
--   order.
--   Objects that the source shares are in stores: a session by its id (`peers`), a command object
--   by its address (`objects`), so that `commands` has the addresses, and a command that the
--   table forgot may still complete. A child engine is a number. `notify` appends to `sent`, and
--   a call of `keep_running` to `kept`.
--   A task of local.py is a step for each stretch between its waits. The lock that starts take
--   turns by is the list of those that asked for it, first come first served, as asyncio.Lock has
--   it; a handler that is cancelled may go on until it ends by itself.
--   A handler that awaits is cut there into steps of its own, so that other steps come between. A
--   raised exception is `none` or `err`.
--   The reader of tokens takes the length of the text and one more as fuel; Condition/Fuel proves
--   that this is enough. The digits of a number are made with that number and one more as fuel.
--   The command table keeps 4096 commands, as the code does.
--   `decodes` in Execute is the test of a value against its type. Nothing is assumed of it, so
--   that Values.Encode.decodes, the one of values.py, is one such test. In Values, floats,
--   `json.loads` and `json.dumps` of an array are those of Python: the round trip takes from them
--   that `json.loads` reads what `json.dumps` wrote, and `float` reads a float that was written.
--   `full_match` is taken from the documentation of `re`: `fullmatch` of a join of characters,
--   `.` and `.*`. In local.py, whether a call of `open` succeeds is an argument, of the calls
--   before it and the resource. In Peer, `loads`, `is_method` and `validate` stand for `json.loads`, the lookup of a method
--   in the catalog and the models of its params, of which nothing is assumed either. In Child,
--   `is_free` stands for the `check_engine_ids` that the child is made with. In Config,
--   `read_yaml` and `validate` stand for the YAML reader and the model of the settings.
--
-- Not modelled: the texts of log and error messages; asyncio itself, of which a step relation
-- keeps the order of steps; the cancellation of a sequence; what child.py does with its commands,
-- subscriptions and notifications; what local.py leaves to the code of a component, whose
-- handlers and hooks end at any time with any result; the websocket transport of the engine;
-- client.py and the listeners of transport.py; the XML codec and the component core.
pub mod Common
pub mod Condition
pub mod Profiles
pub mod Engine
pub mod Peer
pub mod Config
pub mod Child
pub mod Values
pub mod Local
pub mod Sdk
