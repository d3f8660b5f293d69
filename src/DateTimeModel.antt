-- ===== src/DateTimeModel.antt =====
-- src/modules/date-time/date-time-model.c and its header: the commit boundary between requests and
-- the persistence adapter. A handle without private state stands for an empty one and, but for
-- `init`, for a NULL pointer, which every other operation refuses in the same way.
pub mod Defs
pub mod Edits
pub mod Backend
pub mod Setters
pub mod Lock
pub mod Merge
pub mod Drafts
pub mod Updates
pub mod Location
pub mod Transaction
pub mod Closing
pub mod Lifecycle
