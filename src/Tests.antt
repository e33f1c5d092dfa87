-- ===== src/Tests.antt =====
-- The theorems at concrete inputs, and runs of the model.
mod BitsetTests
mod QueueTests
mod GameTests
mod VerifierTests
mod TextTests
mod OinkTests
mod ZlkTests
mod PpStates
mod PpTests
mod RrTests
