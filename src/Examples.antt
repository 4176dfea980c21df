-- ===== src/Examples.antt =====
-- Tests on small inputs, and the theorems at concrete inputs. The floats are whole numbers with an
-- infinity; the root is the identity on them.
pub mod Numbers
pub mod Queues
pub mod Registers
pub mod Scores
mod Paths
mod Groups
mod Indexes
mod Searches
mod Results
mod Trees
mod Answers
mod Recalls
mod Runs
