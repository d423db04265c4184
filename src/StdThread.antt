-- ===== src/StdThread.antt =====
-- What MThread.cpp and EventBus.cpp use of std::thread: an object that stands for a running thread,
-- until it is detached. The default thread::id, which stands for no thread, is `none`.
use event_bus_cpp.Prelude.{ℕ, Option, none, some}

pub record ThreadObject : Type 0 where
  pub id : Option ℕ

-- The constructor, when the system starts the thread `id`.
unfoldable pub start : ℕ → ThreadObject
start id = record { id = some id }

-- detach(): the object stands for no thread any more.
unfoldable pub detach : ThreadObject → ThreadObject
detach t = record t { id = none }

unfoldable pub get_id : ThreadObject → Option ℕ
get_id t = t.id
