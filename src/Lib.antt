-- ===== src/Lib.antt =====
-- The trading engine of FreqTrading: the opening range breakout engine, the guards around it, and
-- the building blocks of its smart money strategies.
--
-- Parts of the program and the files that model them:
-- - orb/models.py (Candle, OrbConfig, Signal, PositionState, validate): Models/Enums, Models/Bars,
--   Models/Config, Models/Records; what the checks guarantee: Models/Sanity.
-- - orb/indicators.py (WilderATR, ROC, VolumeSMA): Indicators/Defs; Indicators/Windows has the theory
--   of a bounded deque, which Structure and RiskGuard use too.
-- - orb/session.py (SessionClock.classify): Session/Defs, Session/Zones. A session id is the number
--   of its day in place of the ISO text.
-- - orb/engine.py (OrbEngine): Engine/State is the object and its small setters, Engine/Exit the
--   methods that close or trail a position, Engine/Entry the breakout and its momentum gate,
--   Engine/Step the handlers of the states, the resets, on_candle and replay. A method is a function
--   on the engine that returns a result, which may be an exception, and the engine after it; the
--   engine that an exception leaves is the one the caller keeps. The two callbacks are a list of what
--   they have received. Engine/Runs closes the calls of on_candle and force_flat under reachability.
-- - orb/riskguard.py: RiskGuard. orb/babysitter.py: Babysitter.
-- - orb/smc/structure.py: Structure. orb/smc/mtf.py: Mtf. orb/smc/exits.py: Ladder.
-- - orb/execguard.py: ExecGuard; the text of the killzones enters as the numbers of its tokens.
-- - orb/smc/config.py and the ladder built from it in orb/cli.py, orb/smc/orderblocks.py: Smc.
-- - orb/broker/retcodes.py: Broker/Retcodes. orb/broker/mt5.py: Broker/Terminal has the requests, the
--   calls of the terminal, which is a parameter, and the fields of the adapter with the log of what it
--   has sent; Broker/Send the send loop; Broker/Orders stops, closes and pending orders; Broker/Entries
--   market and limit entries, the connection and execute. The text of an exception enters as a test of
--   the configuration. The other files of Broker are proofs.
-- - orb/smc/strategy.py (SmcEngine): SmcEngine/State is the object, with the volume profile as an
--   interface, SmcEngine/Checks the bias and the checks, SmcEngine/Entry the point of interest and the
--   entry, SmcEngine/Step the decision and on_candle. SmcEngine/Runs closes the calls of on_candle and
--   force_flat under reachability, from a new engine; reset starts over and is not among them.
--   SmcEngine/Days counts the entries over the bars of a day.
-- - orb/svp/profile.py and orb/svp/levels.py: Profile/Rows has the rows, which are integers,
--   Profile/Histogram the fields, update and the point of control, Profile/Area the value area,
--   Profile/Nodes the nodes, the shape and the snapshot, Profile/Client the instance of the interface
--   that SmcEngine takes. math.floor and the conversions of integers to floats are parameters.
-- - orb/svp/config.py and orb/svp/strategy.py (SvpEngine): SvpEngine/Config is the configuration and
--   its checks, SvpEngine/State the object and its sessions, SvpEngine/Filters the veto of an entry and
--   its stop, SvpEngine/Setups the three setups and the entry, SvpEngine/Step the handlers and
--   on_candle. SvpEngine/Triggers describes what sets off an entry, SvpEngine/Detect has the proofs
--   that the setups do so, SvpEngine/Outcomes says what an armed engine does with a bar, and
--   SvpEngine/Invariant and SvpEngine/Runs close the calls of on_candle and force_flat under
--   reachability. It asks the clock of Session, with a range window of one minute, and keeps a profile of Profile.
-- - orb/svp/sizing.py and orb/svp/structure.py: Svp. orb/quarters.py: Quarters; the conversion to New
--   York time, which the time zone database answers, is a parameter.
-- The engine asks the clock for the zone of each bar, feeds the indicators with the bars of the
-- session, and runs the handler of its state; signals go to the guards and to a broker, whose
-- positions the babysitter or the ladder manages bar by bar.
--
-- Numbers: a float is a value of the interface Num/Interface (Float): the operations that the code
-- uses and, as laws, the order of finite floats; nothing else is assumed, rounding and NaN included.
-- Num/Fixed is an instance of it, fixed point with a NaN, on which Examples runs the model. An
-- instant is its microseconds since the first day of the calendar, in UTC, as the candles document; a
-- naive timestamp is marked. math.floor raises on an infinite float or a NaN, which only an overflow
-- gives; the parameter that stands for it in the profile is total.
--
-- The loops of the modelled code run over finite lists, by structural recursion, but for two. The send
-- loop of the broker recurses on the attempts that its policy leaves. The loop of the value area runs
-- on fuel, one unit for each row above and below the point of control, of which every pass absorbs one
-- at least.
--
-- Not modelled: log lines and the read-only snapshot of the engine, the texts of exceptions, and
-- the parts that talk to a network or a disk (orb/feeds, leader, macro, scripts). Of orb/broker the
-- event hook and the read-only queries are left out. The true opens of orb/trueopen.py, the state cache
-- of orb/brokerstate.py, the events of orb/tradeevents.py and orb/broadcast.py, orb/macroguard.py, the
-- commands of orb/cli.py and the reports of orb/analytics.py are left out, as they are not yet translated.
pub mod Base
pub mod Num
pub mod Models
pub mod Indicators
pub mod Session
pub mod Engine
mod Examples
pub mod RiskGuard
pub mod Babysitter
pub mod Structure
pub mod Mtf
pub mod Ladder
pub mod ExecGuard
pub mod Svp
pub mod Smc
pub mod Quarters
pub mod Broker
pub mod SmcEngine
pub mod Profile
pub mod SvpEngine
