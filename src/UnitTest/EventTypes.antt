-- ===== src/UnitTest/EventTypes.antt =====
-- UnitTest/EventType.h: the types of the events of the demonstration.
use event_bus_cpp.Prelude.Text.{codes}
use event_bus_cpp.Keys.{EventType}

abbrev pub event_system_startup : EventType
event_system_startup = codes "system startup"

abbrev pub event_system_time_1 : EventType
event_system_time_1 = codes "system timer one second"

abbrev pub event_test_target_1 : EventType
event_test_target_1 = codes "test target 1"

abbrev pub event_test_target_2 : EventType
event_test_target_2 = codes "test target 2"

abbrev pub event_test_thread_1 : EventType
event_test_thread_1 = codes "test thread 1"

abbrev pub event_test_thread_2 : EventType
event_test_thread_2 = codes "test thread 2"
