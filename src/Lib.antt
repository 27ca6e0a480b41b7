-- ===== src/Lib.antt =====
-- Replob, a replicated object library over the Synca coroutines.
--
-- The parts. A client hands a message to the replicated log (include/synca/once/replob.h). Each
-- message opens a step, an instance of a protocol (Voting) at every node under one step id,
-- which agrees with the other nodes on the messages of that step. The steps of a node live in a
-- window (include/synca/once/phantom.h) that completes them in the order of their ids. All of it
-- runs on coroutines, the journeys (src/journey.h, src/journey.cpp), which wait for values,
-- cancellations and timeouts in one atomic word.
--
-- Prelude: shared names, Boolean tests, lists, families changed at one index. Std: std::set as a
-- rising list over a strict weak order, with the set operators of include/synca/once/replob.h,
-- and std::unordered_map as an association list.
--
-- Ids, Voting: struct Voting with CarryMsg2 and CarrySet. Each method is a function from the
-- fields to the new fields and the list of what it asks of others (the two broadcasts, the
-- completion, the invoked messages, the global cleanup), in the order of the calls. AnyMsg is a
-- type parameter. Voting.System puts the instances of one step at all nodes on a network that
-- may lose, delay, reorder and repeat; no node leaves and no timeout fires there. Voting.Quorum
-- is about isConsistent and timeout where votes come from the node set only, Voting.Once about
-- one instance under any calls.
--
-- Phantom: struct Phantom<T>. A reference to a T is its step id. onComplete of T is a parameter,
-- exec, that gets the whole window, since handlers may create steps; Phantom.Order.IsHandler
-- names what is assumed of it. The loop of complete takes fuel; the length of the window is
-- enough where handlers make no steps. Ids wrap at 2^64, and the theorems ask that ids are left.
--
-- Journey: JourneyState, its word as five flags and a counter of 27 bits. Journey.Threads
-- interleaves the journey's thread with any threads that wake it, one atomic operation a step; a
-- compare-and-exchange loop that does nothing else is its last round; handleEvents and
-- enableEventsAndCheck are a load or a fetch_or and then resets of flags. Journey.Guards:
-- EventsGuard and DtorEventsGuard (src/core.cpp); an event that leaves a destructor ends the
-- program. Journey.Suspend: a journey between its yield and its next run, where others only call
-- done and raise events. Journey.Waits: waitForDoneAlways and waitForDoneAlwaysGuarded, with the
-- ICancel of the operation as two counters and the operation as a call of done that others make
-- once.
--
-- Node: NodesConfig, Nodes and the flag of Connector (include/synca/once/node.h, src/node.cpp).
-- The unordered maps are association lists; a null connector is none; a broadcast is the list of
-- the nodes that it goes to.
--
-- Oers: Doer, Goer and DetachableDoer (include/synca/once/oers.h, src/oers.cpp), the handles to
-- the words of journeys, over a store that gives each journey its word. Mutex (src/mutex.cpp)
-- and Channel (include/synca/channel.h) keep queues of such doers; a call is one step, since it
-- runs under a thread mutex, and in Mutex.Exclusion and Channel.Order the words may change in
-- any way between the calls; in Mutex.Exclusion a lock to which the mutex was handed may throw.
--
-- Completer: Completer2 (include/synca/once/core.h, src/core.cpp), on which Awaiter2 waits for
-- the journeys it has started; its ints are two's complement numbers below 2^32, and fewer than
-- 2^31 jobs are started. Completer.Jobs adds FlagDone of the owner's word, and a job may end
-- before go counts it.
--
-- AnyWait: goAnyWait (src/core.cpp), with its journeys interleaved, the count and the call of
-- proceed as two steps; fewer than 2^31 handlers. AnyResult: goAnyResult
-- (include/synca/once/core.h) in the same way, with the references to its Counter counted.
--
-- Pipeline: piping and its three kinds (include/synca/once/data.h) over the channel of Channel,
-- with the journeys interleaved; the source is the queue of its values and those that a put has
-- handed to a waiting get, and what others do to the target is a step of its own. Pipeline.Fits
-- has the invariant of one journey.
--
-- Replob: the first protocol (src/replob.cpp), with its window of steps and one message after
-- another; each method is a function from the fields to the new fields and what it asks of
-- others. The messages that tryProcess invokes are returned in order and are taken not to call
-- the protocol themselves. The loop of tryProcess takes fuel, the number of stored steps and one
-- more, which is enough since each round but the last leaves a completed step. Ids wrap at 2^64
-- and the theorems ask that ids are left. Replob.Cluster puts the protocol at every node, with
-- what the nodes broadcast on a network that may lose, delay, reorder and repeat; no node leaves
-- and no timeout fires there, and the message is a function of its id, since genUniqueId gives
-- no id twice.
--
-- Serialization: serialize, deserialize (include/synca/once/serialization.h) and the blocks of
-- the allocator (src/serialization.cpp) over 64-bit words and 32-bit ints. An access outside the
-- buffer or the object is undefined. The copy constructor of the object is a parameter;
-- Serialization.Images names what is assumed of it, that copies at two addresses differ only in
-- the pointers that they hold into themselves.
--
-- Log: the replicated log, which is Phantom<Voting> at every node of a cluster, with
-- Replob2::apply and the messages of include/synca/once/broadcast.h between the phantoms of one
-- step. A node is its window and the carries that it has invoked; a round of the loop of
-- Phantom::complete is a step of its own, which Log.Loop puts beside the loop itself. No node
-- leaves there, no timeout fires, ids are left, and the handlers of a step do not touch the
-- window, since they start calls of apply in journeys of their own.
--
-- Client: struct ReplobApplySync (include/synca/once/replob.h), the call that waits for its
-- place in the log, with the variables to which its message points as frames that can be left
-- and the words of the journeys that it wakes, and struct KV of examples/kv.cpp as an object.
-- The log is a list of calls: that nodes agree on it is what Log is about.
--
-- Connection: retry, and the write and reconnect of Connector (include/synca/once/connector.h,
-- src/connector.cpp). The calls of the socket are parameters over a state that others may change
-- meanwhile; a loop takes fuel, one for each round, and more rounds than the socket fails are
-- enough.
--
-- Chronos: struct Chronos and struct Detector of examples/chronos.cpp, the replicated scheduler
-- and the detector that removes silent nodes. A reading of the clock is an argument, in
-- nanoseconds; the priority queue is the list of its elements in the order in which it gives
-- them out, which for events of one time is taken to be that in which they went in. Chronos.Runs
-- keeps beside the state which handlers were given and completed; completions that come after
-- the removal of their node are steps of their own.
--
-- Not modelled: logging and statistics; the coroutine switch; sockets, timers and thread pools,
-- which belong to boost; the packets around serialized objects; goWait, the older Awaiter and
-- DetachableAwaiter; the templates that make messages of methods; the other examples.
mod Prelude
pub mod Std
pub mod Ids
pub mod Phantom
pub mod Pipeline
pub mod Replob
pub mod AnyResult
pub mod AnyWait
pub mod Channel
pub mod Client
pub mod Completer
pub mod Connection
pub mod Journey
pub mod Log
pub mod Mutex
pub mod Oers
pub mod Serialization
pub mod Chronos
pub mod Node
pub mod Voting
