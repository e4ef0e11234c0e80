-- ===== src/Base/Heap.antt =====
-- What the code uses of the standard library's binary heaps: `std::push_heap`, `std::pop_heap` and
-- `std::make_heap` on a vector, and `std::priority_queue`. By the comparison, the front
-- comes behind no other element; the order of the rest is the library's own.
mod Defs
mod Sorted
pub use Defs.*
unfoldable pub use Sorted.*
