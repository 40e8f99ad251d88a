-- ===== src/Occupancy.antt =====
-- The occupancy of classrooms: backend/internal/booking/store.go and the session half of
-- backend/internal/course/sessions.go, over the tables that they share.
pub mod Model
pub mod Bookings
pub mod Sessions
pub mod Rows
pub mod Moves
pub mod Disjoint
pub mod History
pub mod Occupied
pub mod Edges
pub mod Release
pub mod Handler
pub mod Requests
mod Examples
