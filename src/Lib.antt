-- ===== src/Lib.antt =====
-- A model of gnoracle's off-chain tools. internal/gnochain is the chain layer: the round calendar,
-- vote commitments, the decoding of results, the events of a block, the realm's views with their
-- paging, the opening of a key, and the sending of transactions. agent is the provider daemon: it
-- aggregates the samples of its sources, scales the value, remembers what it sent, and runs a pass
-- for each feed that cranks, submits and claims; its feeds share one memory, which a restart reads
-- back. bot is the notifier and cranker: a pass announces the events of the new blocks, reminds of
-- the deadlines of ballots, and sends the calls that anyone may make. cmd/gnoracle is the command
-- line: its table of commands and the two steps of a vote. internal/notify carries the messages.
-- All of them read the views of the chain layer.
--
-- Gnochain/Schedule is internal/gnochain/schedule.go, Gnochain/Commitment is commitment.go beside
-- it, Gnochain/Results is parse.go, Gnochain/Views is views.go, Gnochain/Events and Gnochain/Rpc
-- are rpc.go, and Gnochain/Broadcast and Gnochain/Client are client.go. Agent/Aggregate,
-- Agent/Scale and Agent/Options are agent/value.go, Agent/Config is agent/config.go, Agent/Store is
-- agent/state.go and Agent/Runner is agent/agent.go: Crank is crank, Submit is submit, refuse and
-- sanityRef, and Tick is tick. Agent/Adapters is agent/adapters.go: Path is ExtractJSONPath and
-- Redact is redactURL. Agent/Daemon is New, Run and Once of agent/agent.go: a turn is a pass over
-- one feed or a restart of the process. Bot/State is bot/state.go, Bot/Config is bot/config.go,
-- Bot/Text and Bot/Tick are bot/bot.go, Bot/Scan and Bot/Format are bot/watcher.go, Bot/Remind is
-- bot/reminders.go and Bot/Crank is bot/cranker.go: Finalize is crankFinalize, Mirror is
-- crankResolve, crankKourt and crankSettle. Bot/Chain names what the bot asks the chain and what it
-- does. Cli/Votes is commit and reveal of cmd/gnoracle/main.go, and Cli/Args is how it reads
-- amounts, values and rounds; Cli/Run is run, view, tx and connect. Notify is
-- internal/notify/notify.go. A function keeps the source's name. Base holds what they share:
-- machine integers, byte texts, decimal and hexadecimal prints, maps as association lists, state
-- files, sorting and results.
--
-- An int64 is an integer that is wrapped after each operation, and a text is a list of bytes; white
-- space is trimmed, and letters are folded, as in ASCII, where the source goes by Unicode. A map of
-- the source is an association list, so that no key stands twice in it is a hypothesis; where the
-- source ranges over one, as in the count of labels, the model takes one order. The hash function,
-- the string unquoting, the rational and duration parsers, the print of a time, the node and the
-- realm's answers are parameters; a pass sees one answer to each question and one clock. What the
-- chain accepts is what a call returns without an error: one that errors behind a commit is not
-- counted. A paging reader has fuel for each page; a CatchUp loop has sixty-four calls, which bring
-- any int64 batch to one by halves; the steps of a JSON path have fuel for each byte; the lookup of
-- a key has forty-one attempts, which the source allows.
--
-- Not modelled: the HTTP clients, the keybases, the flag package and the JSON encodings, which are
-- parameters; the simulation, which is floating-point; log lines; what two passes do at one time
-- within a pass; the command lines of the two daemons.
pub mod Base
pub mod Gnochain
pub mod Agent
pub mod Bot
pub mod Notify
pub mod Cli
