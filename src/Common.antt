-- ===== src/Common.antt =====
-- code/common: the errors, the clock moved by hand, the sequential identifiers and money. The
-- times that the source holds in floats are whole numbers of ticks here, since the program only
-- adds and compares them.
pub mod Error
pub mod Action
pub mod Clock
pub mod Ids
pub mod Money
pub mod Text
pub mod Sorting
pub mod Allocate
pub mod Shares
