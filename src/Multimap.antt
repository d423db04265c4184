-- ===== src/Multimap.antt =====
-- std::multimap as the event client uses it: a sorted sequence of nodes, each with an identity that
-- an iterator holds on to. Equal keys stand in the order of their insertion.
mod Defs
mod Sorted
mod Segments
mod Inserted
mod Nodes
mod Observers
unfoldable pub use Defs.*
pub use Sorted.*
unfoldable pub use Segments.*
pub use Inserted.*
pub use Nodes.*
pub use Observers.*
