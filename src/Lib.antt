-- ===== src/Lib.antt =====
-- The event bus: threads publish events, and the targets that have subscribed to an event's type are
-- called back in their own threads.
--
-- The parts and how they interact. A target (EventTarget) subscribes and publishes through the event
-- client (EventClient) of its thread. The client keeps a multimap from event types to targets and two
-- ZeroMQ sockets: it publishes on a PUB socket, and it receives on a SUB socket whose filters are the
-- types that are observed. An event is a message of two frames, the type and the content, which MZmq
-- sends and receives. The client center (ClientCenter), a singleton (Singleton), knows the client of
-- each thread, so that the constructor of a target can find it.
--
-- The files and the code that they model.
--   Prelude, Prelude/*    lists, integers, tests, texts and the state monad that the other files share
--   Keys                  EventDefine.h: EventType, EventContent and the order of std::string
--   Multimap, Multimap/*  EventObjectMap of EventClient.h, a std::multimap: `Multimap` is the
--                         sequence of its nodes, in order; an iterator holds the identity of a node
--   Zmq                   the calls of ZeroMQ as a parameter, the record `Zmq`; `Documented` is what
--                         its manual promises, as equations on a `View` of its state
--   MZmq, MZmq/*          MZmq.h: SendEventEntity is send_event_entity, RecvAllMessages is
--                         recv_all_messages, and so on; Send and Recv hold the functions; Sent, Parts,
--                         Taken, Received, Batches, Common and Roundtrip what is shown of them
--   Singleton, Singleton/*  Singleton.h: instance() as the steps of any number of threads; Safety is
--                         about what it returns, Progress about its coming to an end
--   ClientCenter          ClientCenter.h and ClientCenter.cpp
--   EventClient, EventClient/*  EventClient.h and EventClient.cpp; Defs holds the operations, Lifecycle
--                         the constructor and the destructor. Registry and Refines are about the
--                         rows of observers, Filters, Released and Gate about the filters, Walk, Delivery
--                         and Locally about the loops, Reentry, Grown and Growth about callbacks that change the
--                         map, Kept about what callbacks keep, Bus and Path about an event's way
--                         from one client to another, Shut about the destructor
--   EventTarget           EventTarget.h and EventTarget.cpp, over a store of clients by address
--   StdThread             what the code uses of std::thread
--   MThread, MThread/*    MThread.h and MThread.cpp; Loop is _thread_run, one step at a time, with `play`
--                         for a sequence of its steps and of the calls of its task methods, Messages is
--                         about handle_message beside it
--   Process, Process/*    any number of threads of MThread.cpp in one process, which share the clients, the
--                         pool and ZeroMQ: `Step` is a step of one of them, a call of a task method
--                         of its object, or something else that happens meanwhile. Program is what the
--                         derived classes provide and Confined what they are relied on to keep to; Uses,
--                         Rows, Ready and Turn are about one step, Untouched, Sound, Alone, Handed and
--                         Leaving about runs, Destroyed about the destructors after them
--   EventBus, EventBus/*  EventBus.h and EventBus.cpp; zmq_proxy is a parameter. Sockets is about the
--                         addresses of the bus and of its clients
--   UnitTest, UnitTest/*  the demonstration program: EventTypes is UnitTest/EventType.h, the parent its
--                         classes of targets and threads, Main and Trace are UnitTest/main.cpp, Team
--                         its threads in one process; Wiring, Started, Ended, Runs, Lives, Frames
--                         and Signals what is shown of them
--   Tests, Tests/*        a ZeroMQ that meets `Documented`, and the results at concrete inputs
--
-- How state and errors are modelled. Objects are addressed by numbers, and NULL is `none`. The state of
-- a call is passed on explicitly: `Local` is one client with the library and the application; a
-- callback is a function on it, so that it can change the client it is called from. An assertion that
-- fails gives `none`. Undefined behaviour, such as following an iterator to an erased node or a null
-- pointer, or flowing off the end of a function that has to return a value, is the outcome `fault`:
-- so no call of EventTarget's publish_event or publish_loc_event returns, which have no return
-- statement, and what is shown of publishing is about EventClient's, which they call.
--
-- A step of a thread in a process is one call in _thread_run: handle_event, thread_run, or all that stands
-- before the loop. That is enough since a thread's code reaches its own client and its own objects,
-- and ZeroMQ: each client is used by one thread alone, and the pool only under its mutex. Between two
-- steps ZeroMQ's state may become any other, so that the proxy and ZeroMQ's threads may do anything.
-- Where a thread's own code calls task_begin, task_stop or task_exit of its object, that call is a step
-- after it, as the flags are only read between such steps.
--
-- Fuel. The loops over the multimap run on fuel, since a callback may change the map; more fuel than
-- the map has nodes is enough while the callbacks leave the map alone, and one more than that while
-- they register one target. The loop of RecvAllMessages runs on fuel; more fuel than waiting events
-- is enough. The deliveries of a signal, which the handler raises again, run on fuel 2, which is
-- enough since the handler resets the signal first.
--
-- Not modelled: the inside of ZeroMQ (libzmq), of which the proxy is a parameter whose carrying of a
-- message is a named condition; the texts that are logged, and the fixed lines that the
-- demonstration prints; StandardHead.h and EventCommon.h, which only include other headers;
-- RecvMsgString of MZmq.h, which stands under #if 0. The accesses of the singleton to its pointer,
-- and of the threads to their flags, are taken as sequentially consistent. A thread's object is
-- reached from other threads by task_begin, task_stop and task_exit alone: init, subscribe,
-- unsubscribe, handle_message and the destructor, called from another thread while the object's own
-- runs, race with it and are no steps of a process. So what the demonstration's threads do while and
-- after TestMain destroys their objects is left out; Process/Destroyed is about the destructors
-- where no thread runs in between.
pub mod Prelude
pub mod Keys
pub mod Multimap
pub mod Zmq
pub mod MZmq
pub mod Singleton
pub mod ClientCenter
pub mod EventClient
pub mod EventTarget
pub mod StdThread
pub mod MThread
pub mod Process
pub mod EventBus
pub mod UnitTest
mod Tests
