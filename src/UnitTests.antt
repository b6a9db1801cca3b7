-- ===== src/UnitTests.antt =====
-- The test programs of the repository, under test/. A failed ASSERT ends the test; a failed EXPECT
-- does not. TearDown runs in either case.
pub mod StorageTest
pub mod SecurityTest
